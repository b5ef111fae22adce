-- ===== src/Bench.antt =====
-- bench/bench.c: the RP2040 program, from `board_init` to the mailbox that the host reads.
pub mod Mailbox
use inmojomni.Base.{ℕ, zero, suc, ◌+◌, ◌<<u◌, List, [], ◌∷◌}
use inmojomni.Machine.{Bus, Prog, pure, halt, set_reg, ◌>>=◌, ◌>>◌}
use inmojomni.World.{World, on_dev, timed}
use inmojomni.Board.{board_init, time_us}
use inmojomni.Kernels.{
  Floats, bm_xorshift, bm_div, bm_f32, bm_call, bm_crc32, bm_sort, bm_mat16, bm_fib,
}
use inmojomni.Results.{run_all}

module _ {S : Type 0} (b : Bus S) where
  -- `for (i = 0; i < n; i++) REG(out_xor) = 1u << 15;`
  unfoldable pub gpio_loop : ℕ → ℕ → Prog (World S) (Unit {0})
  gpio_loop out_xor zero = pure tt
  gpio_loop out_xor (suc n) = set_reg (on_dev b) out_xor (1 <<u 15) >> gpio_loop out_xor n

  unfoldable pub bm_gpio_toggle : Prog (World S) (ℕ × ℕ)
  bm_gpio_toggle = do
    set_reg (on_dev b) 0x4001407C 5
    set_reg (on_dev b) 0xD0000024 (1 <<u 15)
    timed (time_us (on_dev b)) (gpio_loop 0xD000001C 100000 >> pure 0)

  unfoldable pub bms : Floats → List (Prog (World S) (ℕ × ℕ))
  bms f =
      let now = time_us (on_dev b) in
      bm_gpio_toggle
      ∷ bm_xorshift b now
      ∷ bm_div b now
      ∷ bm_f32 b now f
      ∷ bm_call b now
      ∷ bm_crc32 b now
      ∷ bm_sort b now
      ∷ bm_mat16 b now
      ∷ bm_fib b now
      ∷ []

  -- `fuel` bounds the reads of each polling loop of `board_init`.
  unfoldable pub mojo_main : Floats → ℕ → Prog (World S) (Unit {0})
  mojo_main f fuel = do
    board_init (on_dev b) fuel
    set_reg (on_dev b) (0x20030000 + 0x00) 0x42454E43
    set_reg (on_dev b) (0x20030000 + 0x04) 1
    set_reg (on_dev b) (0x20030000 + 0x08) 9
    set_reg (on_dev b) (0x20030000 + 0x0C) 3
    set_reg (on_dev b) 0x20023000 24
    run_all b (bms f) (0x20030000 + 0x10) 3 0
    set_reg (on_dev b) (0x20030000 + 0x04) 2
    halt
