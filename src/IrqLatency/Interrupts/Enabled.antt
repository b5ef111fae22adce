-- ===== src/IrqLatency/Interrupts/Enabled.antt =====
-- `route_interrupt` of bench/irq_latency.c and the measurement after it.
use mathlib.Core.Path.{subst}
use inmojomni.Base.{◌≤◌, ◌*◌, sym, ◌≢◌, List, length}
use inmojomni.IrqLatency.Popped.{Popped}
use inmojomni.IrqLatency.Interrupts.Images.{put_runs, AllRuns}
use inmojomni.Base.{
  ℕ, ◌+◌, ◌^◌, ◌<◌, ◌≡◌, refl, ap, inl, ◌∙◌, arith, Bool, true, false, ◌&&◌, if◌then◌else◌, ◌<<u◌,
}
use inmojomni.Machine.{InSram, Bus, Memory, set_reg, ◌>>◌}
use inmojomni.Machine.Keeps.{IsDevice, Keeps-write}
use inmojomni.Results.Words.{peek-write_ne, peek-write_self}
use inmojomni.Board.Sleep.{Clock}
use inmojomni.IrqLatency.{irq_count, intr1, inte1, route_interrupt, measure_runs}
use inmojomni.IrqLatency.Interrupts.{Edge, Core, Fair, after_isr, entered, interruptible}
use inmojomni.IrqLatency.Interrupts.Quiet.{Irq}
use inmojomni.IrqLatency.Interrupts.Waits.{QuietAt}
use inmojomni.IrqLatency.Interrupts.Sampled.{Sampled, Sampled-bind, Sampled-mono, sleep_us-Sampled}
use inmojomni.IrqLatency.Interrupts.Reported.{measure_runs-Sampled}

module _ {S : Type 0} (b : Bus S) (m : Memory b) (e : Edge b) (schedule : ℕ → Bool) where
  -- The count is 0, the other words of SRAM are `w`, and GPIO 15 is low.
  abbrev Zero : (ℕ → ℕ) → S → Type 0
  Zero w s =
      (m.peek irq_count s ≡ 0)
      × (e.pin s ≡ false)
      × ((a : ℕ) → InSram a → a ≢ irq_count → m.peek a s ≡ w a)

  and_off : (w o t : Bool) → o ≡ false → w && o && t ≡ false
  and_off true o t h = ap (λ x. x && t) h
  and_off false o t h = refl

  -- No handler runs before the interrupt is on.
  entered-off : (t : ℕ) (s : S) → e.enabled s ≡ false → entered b e schedule t s ≡ s
  entered-off t s h =
      ap (λ w. if w then after_isr b s else s) (and_off (e.latched s) (e.enabled s) (schedule t) h)

  -- Nor with no edge latched.
  pub entered-unlatched : (t : ℕ) (s : S) → e.latched s ≡ false → entered b e schedule t s ≡ s
  entered-unlatched t s h = ap (λ w. if w && e.enabled s && schedule t then after_isr b s else s) h

  reset_count :
      (t : ℕ) (s : S)
      → e.enabled s ≡ false
      → e.pin s ≡ false
      → Zero (λ a. m.peek a s) (b.write irq_count 0 (entered b e schedule t s))
        × (e.enabled (b.write irq_count 0 (entered b e schedule t s)) ≡ false)
  reset_count t s off low =
      let same = entered-off t s off in
      (
        (
          peek-write_self b m irq_count 0 _ (omega arith),
          (e.store irq_count 0 _ (omega arith)).0 ∙ ap e.pin same ∙ low,
          λ a h ne.
              peek-write_ne b m a irq_count 0 _ h (omega arith) (λ d. ne (sym d))
              ∙ ap (m.peek a) same,
        ),
        e.plain irq_count 0 _ (inl (omega arith)) ∙ ap e.enabled same ∙ off,
      )

  -- A write to a device that leaves GPIO 15 as it is, where no handler runs before it.
  device-Zero :
      (w : ℕ → ℕ) (a v t : ℕ) (s : S)
      → IsDevice a
      → entered b e schedule t s ≡ s
      → e.pin (b.write a v (entered b e schedule t s)) ≡ e.pin (entered b e schedule t s)
      → Zero w s
      → Zero w (b.write a v (entered b e schedule t s))
  device-Zero w a v t s d same level (count, low, others) = (
    Keeps-write b m a v _ d irq_count (omega arith) ∙ ap (λ s. m.peek irq_count s) same ∙ count,
    level ∙ ap e.pin same ∙ low,
    λ x h ne. Keeps-write b m a v _ d x h ∙ ap (m.peek x) same ∙ others x h ne,
  )

  -- The four writes: the interrupt is on, with the count 0 and no edge latched.
  turned_on :
      (t : ℕ) (s : S)
      → e.enabled s ≡ false
      → e.pin s ≡ false
      → (let d1 = b.write irq_count 0 (entered b e schedule t s) in
          let d2 = b.write intr1 (0xF <<u 28) (entered b e schedule (t + 1) d1) in
          let d3 = b.write (inte1 + 0x2000) (1 <<u 31) (entered b e schedule (t + 1 + 1) d2) in
          Irq b m e
            (λ a. m.peek a s)
            0
            false
            false
            (b.write 0xE000E100 (1 <<u 13) (entered b e schedule (t + 1 + 1 + 1) d3)))
  turned_on t s off low =
      let d1 = b.write irq_count 0 (entered b e schedule t s) in
      let (z1, off1) = reset_count t s off low in
      let e1 = entered b e schedule (t + 1) d1 in
      let d2 = b.write intr1 (0xF <<u 28) e1 in
      let z2 =
        device-Zero _ intr1 (0xF <<u 28) (t + 1) d1 (omega arith) (entered-off (t + 1) d1 off1)
          (e.acknowledge_all e1).0 z1 in
      let e2 = entered b e schedule (t + 1 + 1) d2 in
      let p2 = entered-unlatched (t + 1 + 1) d2 (e.acknowledge_all e1).1 in
      let d3 = b.write (inte1 + 0x2000) (1 <<u 31) e2 in
      let z3 =
        device-Zero _ (inte1 + 0x2000) (1 <<u 31) (t + 1 + 1) d2 (omega arith) p2 (e.route e2).0
          z2 in
      let clear3 = (e.route e2).1 ∙ ap e.latched p2 ∙ (e.acknowledge_all e1).1 in
      let e3 = entered b e schedule (t + 1 + 1 + 1) d3 in
      let p3 = entered-unlatched (t + 1 + 1 + 1) d3 clear3 in
      let z4 =
        device-Zero _ 0xE000E100 (1 <<u 13) (t + 1 + 1 + 1) d3 (omega arith) p3 (e.take e3).0 z3 in
      record {
        count = z4.0;
        level = z4.1;
        others = z4.2;
        edge = (e.take e3).1 ∙ ap e.latched p3 ∙ clear3;
        on = ap (λ s. e.enabled (b.write 0xE000E100 (1 <<u 13) s)) p3 ∙ e.enable e2;
      }

  module _ (rate gap : ℕ) (k : Clock b rate gap) (fair : Fair schedule) (fuel : ℕ)
      (enough : 1000000 < fuel) (quick : 11 * rate ≤ fuel) (fits : 10 + gap < 2 ^ 32) where
    route_interrupt-Sampled :
        (c : Core S)
        → e.enabled c.dev ≡ false
        → e.pin c.dev ≡ false
        → Sampled b e schedule
            (λ _ c'. QuietAt b m e schedule (λ a. m.peek a c.dev) 0 false c')
            (route_interrupt (interruptible b e schedule) fuel c)
    unfolding route_interrupt set_reg
    route_interrupt-Sampled c off low =
        sleep_us-Sampled b e schedule m _ 0 false rate gap k fuel 10 _ (omega arith) fits
          (turned_on c.time c.dev off low)

    -- The part of the program from the routing of the interrupt to the end of the measurement, with the
    -- handler coming in between any two accesses of the main program where the edge of GPIO 15 is
    -- latched, the interrupt is on and the schedule says so. It ends, and never in `fail(1)`: a sample does
    -- not come and it ends in `fail(2)`, or it returns 30,000. Then there are three runs of 10,000
    -- samples, each from the PIO's FIFO when FSTAT has shown that it is not empty; the handler's count in IRQ_COUNT is 30,000 and GPIO 15 is low with no edge left to serve;
    -- and the other words of SRAM are as before, but for the samples of the last run, the first sample
    -- and the minimum, maximum and sum of each run, each in its place. The interrupt is off and GPIO
    -- 15 low before, the timer counts, and the core does not put an interrupt off for more than a
    -- million accesses.
    pub measure_interrupts-Sampled :
        (c : Core S)
        → e.enabled c.dev ≡ false
        → e.pin c.dev ≡ false
        → Sampled b e schedule
            (λ total c'.
              (total ≡ 30000)
              × (runs : List (List ℕ)) × (length runs ≡ 3)
              × AllRuns (Popped (interruptible b e schedule)) runs
              × QuietAt b m e schedule (put_runs 0 runs (λ a. m.peek a c.dev)) 30000 false c')
            ((route_interrupt (interruptible b e schedule) fuel
                >> measure_runs (interruptible b e schedule) fuel 3 0 0)
              c)
    measure_interrupts-Sampled c off low =
        Sampled-bind b e schedule (route_interrupt (interruptible b e schedule) fuel) _ c
          (route_interrupt-Sampled c off low)
          λ _ c1 q.
            Sampled-mono b e schedule
              (measure_runs-Sampled b m e schedule rate gap k fair fuel enough quick (omega arith) 3
                (λ a. m.peek a c.dev) 0 0 c1 (omega arith) (omega arith) q)
              λ t c2 done.
                let at_end =
                  subst
                    (λ n.
                      QuietAt b m e schedule (put_runs 0 done.runs (λ a. m.peek a c.dev)) n false
                        c2)
                    done.counted done.state in
                (done.counted, done.runs, done.many, done.whole, at_end)
