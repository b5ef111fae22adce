-- ===== src/IrqLatency/Interrupts/Rounds.antt =====
-- The rounds of the measurement in bench/irq_latency.c with its interrupt.
use inmojomni.Base.{◌≤◌, ◌*◌, ℕ, ◌+◌, ◌^◌, ◌<◌, ◌≡◌, ◌≢◌, refl, arith}
use inmojomni.Base.{
  Bool, true, false, ◌==◌, if◌then◌else◌, ◌+u◌, ◌*u◌, ◌<<u◌, ◌>>u◌, bit_and, not_u,
}
use inmojomni.Machine.{Bus, Memory, InSram, reg, set_reg, pure}
use inmojomni.Board.{sleep_us}
use inmojomni.Board.Sleep.{Clock}
use inmojomni.IrqLatency.{irq_count, await, Stats, add_sample, measure_one}
use inmojomni.IrqLatency.Interrupts.{Edge, Core, Fair, interruptible}
use inmojomni.IrqLatency.Popped.{Popped, popped}
use inmojomni.IrqLatency.Interrupts.Images.{put_sample}
use inmojomni.IrqLatency.Interrupts.Quiet.{
  put, Irq, store-Irq, clear_other-Irq, lower-Irq, raise-Irq,
}
use inmojomni.IrqLatency.Interrupts.Waits.{QuietAt, quiet_read, quiet_write, await-count}
use inmojomni.IrqLatency.Interrupts.Sampled.{
  Sampled, returns, Sampled-bind, Ends-Sampled, await-Sampled, sleep_us-Sampled,
}

module _ {S : Type 0} (b : Bus S) (m : Memory b) (e : Edge b) (schedule : ℕ → Bool) where
  -- What one round has done to the words of SRAM, the statistics and the two counts.
  pub record OneMore (w : ℕ → ℕ) (r i n : ℕ) (st : Stats) (t : ℕ × Stats) (c : Core S)
      : Type 0 where
    pub value : ℕ
    pub sample : Popped (interruptible b e schedule) value
    pub taken : t.1 ≡ add_sample value st
    pub counted : t.0 ≡ (n +u 1)
    pub state : QuietAt b m e schedule (put_sample r i value w) t.0 false c

  -- A write to SRAM beside IRQ_COUNT, if a test says so.
  write_if-Sampled :
      (w : ℕ → ℕ) (n : ℕ) (up t : Bool) (a v : ℕ) (c : Core S)
      → InSram a
      → a ≢ irq_count
      → QuietAt b m e schedule w n up c
      → Sampled b e schedule
          (λ _ c'. QuietAt b m e schedule (if t then put a v w else w) n up c')
          ((if t then set_reg (interruptible b e schedule) a v else pure tt) c)
  unfolding set_reg
  write_if-Sampled w n up true a v c h ne q = returns (
      quiet_write b m e schedule w n up (Irq b m e (put a v w) n up false) a v c q
        (store-Irq b m e w n up false c.dev q a v h ne))
  write_if-Sampled w n up false a v c h ne q = returns q

  write_if_if-Sampled :
      (w : ℕ → ℕ) (n : ℕ) (up t u : Bool) (a v : ℕ) (c : Core S)
      → InSram a
      → a ≢ irq_count
      → QuietAt b m e schedule w n up c
      → Sampled b e schedule
          (λ _ c'. QuietAt b m e schedule (if t then (if u then put a v w else w) else w) n up c')
          ((if t
              then (if u then set_reg (interruptible b e schedule) a v else pure tt)
              else pure tt)
            c)
  write_if_if-Sampled w n up true u a v c h ne q = write_if-Sampled w n up u a v c h ne q
  write_if_if-Sampled w n up false u a v c h ne q = returns q

  module _ (rate gap : ℕ) (k : Clock b rate gap) (fair : Fair schedule) (fuel : ℕ)
      (enough : 1000000 < fuel) (quick : 11 * rate ≤ fuel) (fits : 5 + gap < 2 ^ 32) where
    -- One round: the count goes up by one, and GPIO 15 is low again.
    pub measure_one-Sampled :
        (w : ℕ → ℕ) (r i n : ℕ) (st : Stats) (c : Core S)
        → i < 10000
        → n < 2 ^ 32
        → QuietAt b m e schedule w n false c
        → Sampled b e schedule
            (λ t c'. OneMore w r i n st t c')
            (measure_one (interruptible b e schedule) fuel r i n st c)
    unfolding measure_one set_reg reg
    measure_one-Sampled w r i n st c small lt q =
        let bus = interruptible b e schedule in
        let up =
          quiet_write b m e schedule w n false (Irq b m e w n true true) 0xD0000014 (1 <<u 15) c q
            (raise-Irq b m e w n c.dev q) in
        let c1 : Core S = bus.write 0xD0000014 (1 <<u 15) c in
        let (wait, soon, due) = fair c1.time in
        Sampled-bind b e schedule
          (await bus fuel irq_count (λ v. if v == (n +u 1) then false else true) 1 0) _ c1
          (Ends-Sampled b e schedule
            (await-count b m e schedule w fuel n wait 0 c1 lt up due (omega arith) (omega arith)))
          λ _ c2 q2.
            Sampled-bind b e schedule
              (await bus fuel 0x50200004 (λ v. if bit_and (v >>u 8) 1 == 0 then false else true) 2
                0)
              _ c2 (await-Sampled b e schedule m w (n +u 1) true fuel 0x50200004 _ c2 enough q2)
              λ _ c3 (q3, from).
                let v = (bus.read 0x50200020 c3).0 in
                let c4 = (bus.read 0x50200020 c3).1 in
                let q4 = quiet_read b m e schedule w (n +u 1) true 0x50200020 c3 q3 in
                let c5 = bus.write 0xD0000018 (1 <<u 16) c4 in
                let q5 =
                  quiet_write b m e schedule w (n +u 1) true (Irq b m e w (n +u 1) true false)
                    0xD0000018 (1 <<u 16) c4 q4
                    (clear_other-Irq b m e w (n +u 1) true false c4.dev q4) in
                let c6 = bus.write 0xD0000018 (1 <<u 15) c5 in
                let q6 =
                  quiet_write b m e schedule w (n +u 1) true (Irq b m e w (n +u 1) false false)
                    0xD0000018 (1 <<u 15) c5 q5 (lower-Irq b m e w (n +u 1) true false c5.dev q5) in
                Sampled-bind b e schedule
                  (if r == 2 then set_reg bus (0x20010000 +u 4 *u i) (not_u v) else pure tt) _ c6
                  (write_if-Sampled w (n +u 1) false (r == 2) (0x20010000 +u 4 *u i) (not_u v) c6
                    (omega arith) (omega arith) q6)
                  λ _ c7 q7.
                    Sampled-bind b e schedule
                      (if r == 0
                        then (if i == 0 then set_reg bus 0x20030018 (not_u v) else pure tt)
                        else pure tt)
                      _ c7
                      (write_if_if-Sampled _ (n +u 1) false (r == 0) (i == 0) 0x20030018 (not_u v)
                        c7 (omega arith) (omega arith) q7)
                      λ _ c8 q8.
                        Sampled-bind b e schedule (sleep_us bus fuel 5) _ c8
                          (sleep_us-Sampled b e schedule m _ (n +u 1) false rate gap k fuel 5 c8
                            (omega arith) fits q8)
                          λ _ c9 q9. returns (record {
                            value = not_u v;
                            sample = popped bus c3 from;
                            taken = refl;
                            counted = refl;
                            state = q9;
                          })
