-- ===== src/Rp2350.antt =====
-- bench/bench_rp2350.c: the RP2350 program, from `board_init` to the commit of the mailbox to
-- flash. `read_mcycle` and `flash_commit_reboot` are assembly, and parameters here; LANG depends
-- on the compiler.
pub mod Committed
use inmojomni.Base.{ℕ, ◌+◌, ◌<<u◌, List, [], ◌∷◌, bit_or}
use inmojomni.Machine.{Bus, Prog, pure, halt, set_reg, poll, ◌>>=◌, ◌>>◌}
use inmojomni.World.{World, on_dev, timed}
use inmojomni.Board.{all_set}
use inmojomni.Kernels
use inmojomni.Kernels.{Floats}
use inmojomni.Bench.{gpio_loop}
use inmojomni.Results.{run_all}

-- `(1u << 6) | (1u << 9)`: IO_BANK0 and PADS_BANK0.
abbrev pub bank_mask : ℕ
bank_mask = bit_or (1 <<u 6) (1 <<u 9)

-- `fuel` bounds the reads of the polling loop.
unfoldable pub board_init : {S : Type 0} → Bus S → ℕ → Prog S (Unit {0})
board_init b fuel = do
  set_reg b (0x40020000 + 0x3000) bank_mask
  poll b fuel 0x40020008 (all_set bank_mask)

module _ {S : Type 0} (b : Bus S) (read_mcycle : Prog (World S) ℕ) where
  unfoldable pub bm_gpio_toggle : Prog (World S) (ℕ × ℕ)
  bm_gpio_toggle = do
    set_reg (on_dev b) 0x4002807C 5
    set_reg (on_dev b) 0xD0000038 (1 <<u 15)
    set_reg (on_dev b) 0x4003B040 (1 <<u 8)
    timed read_mcycle (gpio_loop b 0xD0000028 100000 >> pure 0)

  -- The kernels whose text is that of bench/bench.c.
  abbrev pub bm_xorshift : Prog (World S) (ℕ × ℕ)
  bm_xorshift = Kernels.bm_xorshift b read_mcycle

  abbrev pub bm_div : Prog (World S) (ℕ × ℕ)
  bm_div = Kernels.bm_div b read_mcycle

  abbrev pub bm_call : Prog (World S) (ℕ × ℕ)
  bm_call = Kernels.bm_call b read_mcycle

  abbrev pub bm_crc32 : Prog (World S) (ℕ × ℕ)
  bm_crc32 = Kernels.bm_crc32 b read_mcycle

  abbrev pub bm_sort : Prog (World S) (ℕ × ℕ)
  bm_sort = Kernels.bm_sort b read_mcycle

  abbrev pub bm_mat16 : Prog (World S) (ℕ × ℕ)
  bm_mat16 = Kernels.bm_mat16 b read_mcycle

  abbrev pub bm_fib : Prog (World S) (ℕ × ℕ)
  bm_fib = Kernels.bm_fib b read_mcycle

  abbrev pub bm_f32 : Floats → Prog (World S) (ℕ × ℕ)
  bm_f32 = Kernels.bm_f32 b read_mcycle

  unfoldable pub bms : Floats → List (Prog (World S) (ℕ × ℕ))
  bms f =
      bm_gpio_toggle
      ∷ bm_xorshift
      ∷ bm_div
      ∷ bm_f32 f
      ∷ bm_call
      ∷ bm_crc32
      ∷ bm_sort
      ∷ bm_mat16
      ∷ bm_fib
      ∷ []

  -- `flash_commit_reboot` takes the offset in flash, the source address, the length and the flags.
  module _ (flash_commit_reboot : ℕ → ℕ → ℕ → ℕ → Prog (World S) (Unit {0})) (lang : ℕ) where
    unfoldable pub mojo_main : Floats → ℕ → Prog (World S) (Unit {0})
    mojo_main f fuel = do
      board_init (on_dev b) fuel
      set_reg (on_dev b) (0x20030000 + 0x00) 0x42454E43
      set_reg (on_dev b) (0x20030000 + 0x04) 1
      set_reg (on_dev b) (0x20030000 + 0x08) 9
      set_reg (on_dev b) (0x20030000 + 0x0C) 3
      set_reg (on_dev b) (0x20030000 + 0x10) lang
      set_reg (on_dev b) 0x20023000 24
      run_all b (bms f) (0x20030000 + 0x14) 3 0
      set_reg (on_dev b) (0x20030000 + 0x04) 2
      flash_commit_reboot 0x003FF000 0x20030000 256 0
      halt
