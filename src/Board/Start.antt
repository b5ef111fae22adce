-- ===== src/Board/Start.antt =====
-- `board_init`, `sys_clock_125mhz` and `measure_khz` on a chip that answers their polling loops.
use inmojomni.Base.{ℕ, ◌+◌, bit_or, ◌<<u◌, arith}
use inmojomni.Machine.{Bus, reg}
use inmojomni.Machine.Ends.{ends, Ends-mono}
use inmojomni.Machine.Keeps.{
  Answers, Frame, EndsKeeping, then_write, then_poll, poll_keeps, set_reg_keeps,
}
use inmojomni.Board.{any_set, none_set, all_set, equals, reset_mask}
use inmojomni.Board.{board_init, sys_clock_125mhz, measure_khz}

-- The chip starts: the crystal becomes stable, the clock switches and the resets are acknowledged,
-- each within `fuel` reads of the status register after the write that asks for it.
pub record Starts {S : Type 0} (b : Bus S) (fuel : ℕ) : Type 0 where
  pub crystal :
      (s : S)
      → Answers b fuel 0x40024004
          (any_set 0x80000000)
          (b.write 0x40024000 (bit_or (0xFAB <<u 12) 0xAA0) s)
  pub clk_ref : (s : S) → Answers b fuel 0x40008038 (equals (1 <<u 2)) (b.write 0x40008030 2 s)
  pub clk_sys : (s : S) → Answers b fuel 0x40008044 (equals 1) (b.write 0x4000803C 0 s)
  pub resets :
      (s : S)
      → Answers b fuel 0x4000C008 (all_set reset_mask) (b.write (0x4000C000 + 0x3000) reset_mask s)

-- The PLL comes out of reset and locks, and clk_sys switches to it.
pub record Locks {S : Type 0} (b : Bus S) (fuel : ℕ) : Type 0 where
  pub out_of_reset :
      (s : S)
      → Answers b fuel 0x4000C008 (any_set (1 <<u 12)) (b.write (0x4000C000 + 0x3000) (1 <<u 12) s)
  pub lock :
      (s : S)
      → Answers b fuel 0x40028000
          (any_set 0x80000000)
          (b.write (0x40028004 + 0x3000) (bit_or (1 <<u 0) (1 <<u 5)) s)
  pub clk_sys :
      (s : S) → Answers b fuel 0x40008044 (equals (1 <<u 1)) (b.write (0x4000803C + 0x2000) 1 s)

-- The frequency counter is free when asked, and finishes once it is started.
pub record Counts {S : Type 0} (b : Bus S) (fuel src : ℕ) : Type 0 where
  pub idle : (s : S) → Answers b fuel 0x40008098 (none_set (1 <<u 8)) s
  pub finished : (s : S) → Answers b fuel 0x40008098 (any_set (1 <<u 4)) (b.write 0x40008094 src s)

module _ {S : Type 0} (b : Bus S) (r : Frame b) (fuel : ℕ) where
  -- On a chip that starts, `board_init` comes to its end, and the state is related to the first.
  pub board_init-EndsKeeping : (s : S) → Starts b fuel → EndsKeeping b r s (board_init b fuel s)
  unfolding board_init
  board_init-EndsKeeping s c = then_write b r _ _ _ s _ (omega arith) (r.same s) λ k1.
      then_write b r _ _ _ s _ (omega arith) k1 λ k2.
        then_poll b r fuel _ _ _ s _ (c.crystal _) k2 λ s3 k3.
          then_write b r _ _ _ s _ (omega arith) k3 λ k4.
            then_poll b r fuel _ _ _ s _ (c.clk_ref _) k4 λ s5 k5.
              then_write b r _ _ _ s _ (omega arith) k5 λ k6.
                then_poll b r fuel _ _ _ s _ (c.clk_sys _) k6 λ s7 k7.
                  then_write b r _ _ _ s _ (omega arith) k7 λ k8.
                    then_poll b r fuel _ _ _ s _ (c.resets _) k8
                      λ s9 k9. set_reg_keeps b r _ _ s s9 (omega arith) k9

  -- On a chip that locks, `sys_clock_125mhz` comes to its end, and the state is related to the first.
  pub sys_clock_125mhz-EndsKeeping :
      (s : S) → Locks b fuel → EndsKeeping b r s (sys_clock_125mhz b fuel s)
  unfolding sys_clock_125mhz
  sys_clock_125mhz-EndsKeeping s c = then_write b r _ _ _ s _ (omega arith) (r.same s) λ k1.
      then_write b r _ _ _ s _ (omega arith) k1 λ k2.
        then_poll b r fuel _ _ _ s _ (c.out_of_reset _) k2 λ s3 k3.
          then_write b r _ _ _ s _ (omega arith) k3 λ k4.
            then_write b r _ _ _ s _ (omega arith) k4 λ k5.
              then_write b r _ _ _ s _ (omega arith) k5 λ k6.
                then_poll b r fuel _ _ _ s _ (c.lock _) k6 λ s7 k7.
                  then_write b r _ _ _ s _ (omega arith) k7 λ k8.
                    then_write b r _ _ _ s _ (omega arith) k8 λ k9.
                      then_write b r _ _ _ s _ (omega arith) k9 λ k10.
                        then_write b r _ _ _ s _ (omega arith) k10 λ k11.
                          Ends-mono (poll_keeps b r fuel _ _ _ (c.clk_sys _))
                            λ _ s12 k12. r.chain k11 k12

  -- `measure_khz` comes to its end on a chip whose counter answers, and leaves a related state.
  pub measure_khz-EndsKeeping :
      (src : ℕ) (s : S) → Counts b fuel src → EndsKeeping b r s (measure_khz b fuel src s)
  unfolding measure_khz reg
  measure_khz-EndsKeeping src s c = then_poll b r fuel _ _ _ s _ (c.idle s) (r.same s) λ s1 k1.
      then_write b r _ _ _ s _ (omega arith) k1 λ k2.
        then_write b r _ _ _ s _ (omega arith) k2 λ k3.
          then_write b r _ _ _ s _ (omega arith) k3 λ k4.
            then_write b r _ _ _ s _ (omega arith) k4 λ k5.
              then_write b r _ _ _ s _ (omega arith) k5 λ k6.
                then_poll b r fuel _ _ _ s _ (c.finished _) k6
                  λ s7 k7. ends (r.chain k7 (r.on_read _ s7))
