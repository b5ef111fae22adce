-- ===== src/Board.antt =====
-- The start of the RP2040 programs: `board_init`, the clock tree, the timer. bench/bench.c,
-- bench/blink.c and bench/irq_latency.c hold the same text of `board_init` and `time_us`.
pub mod Start
pub mod Sleep
pub mod Pll
pub mod Counter
use inmojomni.Base.{ℕ, zero, suc, ◌+◌, ◌*◌, Bool, true, false, bit_and, bit_or}
use inmojomni.Base.{◌<<u◌, ◌>>u◌, ◌-u◌, ltb, ◌==◌, if◌then◌else◌}
use inmojomni.Machine.{Bus, Prog, spinning, pure, reg, set_reg, poll, ◌>>=◌, ◌>>◌}

-- `REG(a) & m` as a condition, and the other tests of the polling loops.
abbrev pub any_set : ℕ → ℕ → Bool
any_set m v = if bit_and v m == 0 then false else true

abbrev pub none_set : ℕ → ℕ → Bool
none_set m v = bit_and v m == 0

abbrev pub all_set : ℕ → ℕ → Bool
all_set m v = bit_and v m == m

abbrev pub equals : ℕ → ℕ → Bool
equals w v = v == w

-- `(1u << 5) | (1u << 8) | (1u << 21)`: IO_BANK0, PADS_BANK0 and TIMER.
abbrev pub reset_mask : ℕ
reset_mask = bit_or (bit_or (1 <<u 5) (1 <<u 8)) (1 <<u 21)

-- `fuel` bounds the reads of each polling loop.
module _ {S : Type 0} (b : Bus S) (fuel : ℕ) where
  unfoldable pub board_init : Prog S (Unit {0})
  board_init = do
    set_reg b 0x4002400C 47
    set_reg b 0x40024000 (bit_or (0xFAB <<u 12) 0xAA0)
    poll b fuel 0x40024004 (any_set 0x80000000)
    set_reg b 0x40008030 2
    poll b fuel 0x40008038 (equals (1 <<u 2))
    set_reg b 0x4000803C 0
    poll b fuel 0x40008044 (equals 1)
    set_reg b (0x4000C000 + 0x3000) reset_mask
    poll b fuel 0x4000C008 (all_set reset_mask)
    set_reg b 0x4005802C (bit_or (1 <<u 9) 12)

  unfoldable pub sys_clock_125mhz : Prog S (Unit {0})
  sys_clock_125mhz = do
    set_reg b (0x4000C000 + 0x2000) (1 <<u 12)
    set_reg b (0x4000C000 + 0x3000) (1 <<u 12)
    poll b fuel 0x4000C008 (any_set (1 <<u 12))
    set_reg b 0x40028000 1
    set_reg b 0x40028008 125
    set_reg b (0x40028004 + 0x3000) (bit_or (1 <<u 0) (1 <<u 5))
    poll b fuel 0x40028000 (any_set 0x80000000)
    set_reg b 0x4002800C (bit_or (6 <<u 16) (2 <<u 12))
    set_reg b (0x40028004 + 0x3000) (1 <<u 3)
    set_reg b 0x4000803C 0
    set_reg b (0x4000803C + 0x2000) 1
    poll b fuel 0x40008044 (equals (1 <<u 1))

  unfoldable pub measure_khz : ℕ → Prog S ℕ
  measure_khz src = do
    poll b fuel 0x40008098 (none_set (1 <<u 8))
    set_reg b 0x40008080 12000
    set_reg b 0x40008090 10
    set_reg b 0x40008084 0
    set_reg b 0x40008088 0x1FFFFFF
    set_reg b 0x40008094 src
    poll b fuel 0x40008098 (any_set (1 <<u 4))
    v ← reg b 0x4000809C
    pure (v >>u 5)

module _ {S : Type 0} (b : Bus S) where
  unfoldable pub time_us : Prog S ℕ
  time_us = reg b 0x40054028

  -- `while (time_us() - t0 < us) {}`
  unfoldable pub wait_loop : ℕ → ℕ → ℕ → Prog S (Unit {0})
  wait_loop zero t0 us s = spinning s
  wait_loop (suc fuel) t0 us s =
      (time_us >>= λ t s'. elim (ltb (t -u t0) us) [
        | true ↦ wait_loop fuel t0 us s'
        | false ↦ pure tt s'
      ])
        s

  unfoldable pub sleep_us : ℕ → ℕ → Prog S (Unit {0})
  sleep_us fuel us = time_us >>= λ t0. wait_loop fuel t0 us
