-- ===== src/IrqLatency/Interrupts/Finished.antt =====
-- The end of the measurement in bench/irq_latency.c, up to the status 2 in the mailbox.
use mathlib.Core.Path.{subst}
use inmojomni.Base.{
  ◌≤◌, ◌*◌, ℕ, ◌+◌, ◌^◌, ◌<◌, ◌≡◌, refl, sym, ap, ◌∙◌, arith, Bool, false, if◌then◌else◌, ◌==◌,
  ◌<<u◌,
}
use inmojomni.Machine.{Bus, Memory, InSram, set_reg, ◌>>=◌, ◌>>◌}
use inmojomni.Machine.Keeps.{IsDevice, Keeps-write}
use inmojomni.Board.Sleep.{Clock}
use inmojomni.IrqLatency.{irq_count, inte1, route_interrupt, measure_runs, finish}
use inmojomni.IrqLatency.Interrupts.{Edge, Core, Fair, entered, interruptible}
use inmojomni.IrqLatency.Popped.{Popped}
use inmojomni.IrqLatency.Interrupts.Images.{put_runs}
use inmojomni.IrqLatency.Interrupts.Quiet.{put}
use inmojomni.IrqLatency.Interrupts.Waits.{QuietAt}
use inmojomni.IrqLatency.Interrupts.Sampled.{Sampled, returns, Sampled-bind, Sampled-mono}
use inmojomni.IrqLatency.Interrupts.Host.{HostReads, HostReads-same, put_runs-HostReads}
use inmojomni.IrqLatency.Interrupts.Lookup.{put_at, put_ne}
use inmojomni.IrqLatency.Interrupts.Enabled.{entered-unlatched, measure_interrupts-Sampled}

module _ {S : Type 0} (b : Bus S) (m : Memory b) (e : Edge b) (schedule : ℕ → Bool) where
  -- The words of SRAM are `w`, and no edge is left to serve.
  abbrev Calm : (ℕ → ℕ) → S → Type 0
  Calm w s = ((a : ℕ) → InSram a → m.peek a s ≡ w a) × (e.latched s ≡ false)

  -- A write to a device that leaves the latch as it is.
  device-Calm :
      (w : ℕ → ℕ) (a v t : ℕ) (s : S)
      → IsDevice a
      → ((s : S) → e.latched (b.write a v s) ≡ e.latched s)
      → Calm w s
      → Calm w (b.write a v (entered b e schedule t s))
  device-Calm w a v t s d law (words, calm) =
      subst (λ s. Calm w (b.write a v s)) (sym (entered-unlatched b m e schedule t s calm))
        (λ x h. Keeps-write b m a v s d x h ∙ words x h, law s ∙ calm)

  sram-Calm :
      (w : ℕ → ℕ) (a v t : ℕ) (s : S)
      → InSram a
      → Calm w s
      → Calm (put a v w) (b.write a v (entered b e schedule t s))
  sram-Calm w a v t s h (words, calm) =
      subst (λ s. Calm (put a v w) (b.write a v s))
        (sym (entered-unlatched b m e schedule t s calm))
        (
          λ x g. m.peek-write x a v s g (h.2) ∙ ap (λ t. if a == x then v else t) (words x g),
          (e.store a v s h).1 ∙ calm,
        )

  finish-Calm :
      (w : ℕ → ℕ) (fuel total : ℕ) (c : Core S)
      → Calm w c.dev
      → Sampled b e schedule
          (λ _ c'. Calm (put 0x20030004 2 (put 0x2003001C total w)) c'.dev)
          (finish (interruptible b e schedule) fuel total c)
  unfolding finish set_reg
  finish-Calm w fuel total c q =
      let q1 = device-Calm w 0xE000E180 (1 <<u 13) c.time c.dev (omega arith) e.leave q in
      let q2 =
        device-Calm w (inte1 + 0x3000) (0xF <<u 28) (c.time + 1) _ (omega arith) e.unroute q1 in
      let q3 = sram-Calm w 0x2003001C total (c.time + 1 + 1) _ (omega arith) q2 in
      returns (sram-Calm _ 0x20030004 2 (c.time + 1 + 1 + 1) _ (omega arith) q3)

  -- The mailbox and the samples at the end.
  pub record Complete (s : S) : Type 0 where
    pub status : m.peek 0x20030004 s ≡ 2
    pub total : m.peek 0x2003001C s ≡ 30000
    pub taken : m.peek irq_count s ≡ 30000
    pub reads : HostReads (Popped (interruptible b e schedule)) (λ a. m.peek a s)

  complete :
      (image : ℕ → ℕ) (total : ℕ) (c c' : Core S)
      → total ≡ 30000
      → QuietAt b m e schedule image 30000 false c
      → HostReads (Popped (interruptible b e schedule)) image
      → Calm (put 0x20030004 2 (put 0x2003001C total (λ a. m.peek a c.dev))) c'.dev
      → Complete c'.dev
  complete image total c c' count q host (words, calm) =
      let before = λ (a : ℕ). m.peek a c.dev in
      let w1 = put 0x2003001C total before in
      record {
        status = words 0x20030004 (omega arith) ∙ put_at 0x20030004 2 0x20030004 w1 refl;
        total =
            words 0x2003001C (omega arith)
            ∙ put_ne 0x20030004 2 0x2003001C w1 (omega arith)
            ∙ put_at 0x2003001C total 0x2003001C before refl
            ∙ count;
        taken =
            words irq_count (omega arith)
            ∙ put_ne 0x20030004 2 irq_count w1 (omega arith)
            ∙ put_ne 0x2003001C total irq_count before (omega arith)
            ∙ q.count;
        reads =
            HostReads-same (Popped (interruptible b e schedule)) image (λ a. m.peek a c'.dev)
              (λ x h ne n k.
                words x h
                ∙ put_ne 0x20030004 2 x w1 (λ d. n (sym d))
                ∙ put_ne 0x2003001C total x before (λ d. k (sym d))
                ∙ q.others x h ne)
              host;
      }

  -- The part of the program from the routing of the interrupt to the status 2 in the mailbox, with the
  -- handler coming in between any two accesses of the main program where the edge of GPIO 15 is
  -- latched, the interrupt is on and the schedule says so. It ends in `fail(2)` because a sample does not
  -- come, or it comes to its end with 2 at 0x20030004 and 30,000 at 0x2003001C and in IRQ_COUNT;
  -- the minimum, the maximum and the sum of the last run are then those of the 10,000 samples at
  -- 0x20010000, those of the first two runs are of 10,000 samples each, and the very first sample
  -- is at 0x20030018. Every sample is what a read of the PIO's FIFO gave, inverted, when FSTAT had shown
  -- that it was not empty. The interrupt is off and GPIO 15 low before, the timer counts, and the core does
  -- not put an interrupt off for more than a million accesses.
  pub measurement-Complete :
      (rate gap : ℕ) (k : Clock b rate gap) (fair : Fair schedule) (fuel : ℕ) (c : Core S)
      → 1000000 < fuel
      → 11 * rate ≤ fuel
      → 10 + gap < 2 ^ 32
      → e.enabled c.dev ≡ false
      → e.pin c.dev ≡ false
      → Sampled b e schedule
          (λ _ c'. Complete c'.dev)
          (((route_interrupt (interruptible b e schedule) fuel
                >> measure_runs (interruptible b e schedule) fuel 3 0 0)
              >>= λ total. finish (interruptible b e schedule) fuel total)
            c)
  measurement-Complete rate gap k fair fuel c enough quick fits off low =
      Sampled-bind b e schedule
        (route_interrupt (interruptible b e schedule) fuel
          >> measure_runs (interruptible b e schedule) fuel 3 0 0)
        _ c
        (measure_interrupts-Sampled b m e schedule rate gap k fair fuel enough quick fits c off low)
        λ total c1 (count, runs, many, whole, at_end).
          let image = put_runs 0 runs (λ a. m.peek a c.dev) in
          Sampled-mono b e schedule
            (finish-Calm (λ a. m.peek a c1.dev) fuel total c1 (λ a h. refl, at_end.edge))
            λ _ c2 calm.
              complete image total c1 c2 count at_end
                (put_runs-HostReads (Popped (interruptible b e schedule)) runs (λ a. m.peek a c.dev)
                  many whole)
                calm
