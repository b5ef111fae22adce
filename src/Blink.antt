-- ===== src/Blink.antt =====
-- bench/blink.c: the LED of GPIO 25 toggles every 250 ms. `board_init` and `time_us` are those of
-- Board, and the two lines that wait are the text of `sleep_us(250000)`.
pub mod Period
use inmojomni.Base.{ℕ, zero, suc, ◌<<u◌}
use inmojomni.Machine.{Bus, Prog, pure, set_reg, ◌>>=◌, ◌>>◌}
use inmojomni.Board

-- The text of bench/bench.c.
abbrev pub board_init : {S : Type 0} → Bus S → ℕ → Prog S (Unit {0})
board_init = Board.board_init

module _ {S : Type 0} (b : Bus S) (fuel : ℕ) where
  -- The first `rounds` rounds of `for (;;)`, which has no end of its own.
  unfoldable pub blink_loop : ℕ → Prog S (Unit {0})
  blink_loop zero = pure tt
  blink_loop (suc rounds) =
      set_reg b 0xD000001C (1 <<u 25) >> Board.sleep_us b fuel 250000 >> blink_loop rounds

  unfoldable pub mojo_main : ℕ → Prog S (Unit {0})
  mojo_main rounds = do
    board_init b fuel
    set_reg b 0x400140CC 5
    set_reg b 0xD0000024 (1 <<u 25)
    blink_loop rounds
