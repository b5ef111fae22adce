-- ===== src/IrqLatency/Interrupts/Reported.antt =====
-- The runs of the measurement in bench/irq_latency.c with its interrupt.
use mathlib.Core.Path.{subst}
use inmojomni.Base.{ℕ, zero, suc, ◌+◌, ◌*◌, ◌^◌, ◌≤◌, ◌<◌, ◌≡◌, ◌≢◌, refl, ap, ◌∙◌, arith}
use inmojomni.Base.{Bool, false, ◌+u◌, ◌*u◌, List, [], ◌∷◌, length}
use inmojomni.Machine.{Bus, Memory, InSram, set_reg}
use inmojomni.Board.Sleep.{Clock}
use inmojomni.IrqLatency.{irq_count, Stats, no_samples, measure_one, measure_run, measure_runs}
use inmojomni.IrqLatency.Samples.{add_samples, AllOf}
use inmojomni.IrqLatency.Interrupts.{Edge, Core, Fair, interruptible}
use inmojomni.IrqLatency.Popped.{Popped}
use inmojomni.IrqLatency.Interrupts.Images.{put_sample, put_samples, put_stats, put_runs, AllRuns}
use inmojomni.IrqLatency.Interrupts.Quiet.{put, Irq, store-Irq}
use inmojomni.IrqLatency.Interrupts.Waits.{QuietAt, quiet_write}
use inmojomni.IrqLatency.Interrupts.Sampled.{Sampled, returns, Sampled-bind, Sampled-mono}
use inmojomni.IrqLatency.Interrupts.Rounds.{measure_one-Sampled}

module _ {S : Type 0} (b : Bus S) (m : Memory b) (e : Edge b) (schedule : ℕ → Bool) where
  -- What the rounds from `i` on of run `r` have done.
  pub record RunDone (w : ℕ → ℕ) (left r i n : ℕ) (st : Stats) (t : ℕ × Stats) (c : Core S)
      : Type 0 where
    pub samples : List ℕ
    pub many : length samples ≡ left
    pub popped : AllOf (Popped (interruptible b e schedule)) samples
    pub taken : t.1 ≡ add_samples samples st
    pub counted : t.0 ≡ n + left
    pub state : QuietAt b m e schedule (put_samples r i samples w) t.0 false c

  -- What the runs from `r` on have done.
  pub record RunsDone (w : ℕ → ℕ) (left r n : ℕ) (t : ℕ) (c : Core S) : Type 0 where
    pub runs : List (List ℕ)
    pub many : length runs ≡ left
    pub whole : AllRuns (Popped (interruptible b e schedule)) runs
    pub counted : t ≡ n + 10000 * left
    pub state : QuietAt b m e schedule (put_runs r runs w) t false c

  sram-QuietAt :
      (w : ℕ → ℕ) (n a v : ℕ) (c : Core S)
      → InSram a
      → a ≢ irq_count
      → QuietAt b m e schedule w n false c
      → QuietAt b m e schedule (put a v w) n false ((interruptible b e schedule).write a v c)
  sram-QuietAt w n a v c h ne q =
      quiet_write b m e schedule w n false (Irq b m e (put a v w) n false false) a v c q
        (store-Irq b m e w n false false c.dev q a v h ne)

  stats-QuietAt :
      (w : ℕ → ℕ) (n r : ℕ) (st : Stats) (c : Core S)
      → r < 3
      → QuietAt b m e schedule w n false c
      → (let base = 0x20030030 +u 12 *u r in
          QuietAt b m e schedule (put_stats r st w) n false (
            (interruptible b e schedule).write (base +u 8) st.sum (
              (interruptible b e schedule).write
                (base +u 4)
                st.mx
                ((interruptible b e schedule).write base st.mn c))))
  stats-QuietAt w n r st c small q =
      let base = 0x20030030 +u 12 *u r in
      let q1 = sram-QuietAt w n base st.mn c (omega arith) (omega arith) q in
      let q2 = sram-QuietAt _ n (base +u 4) st.mx _ (omega arith) (omega arith) q1 in
      sram-QuietAt _ n (base +u 8) st.sum _ (omega arith) (omega arith) q2

  module _ (rate gap : ℕ) (k : Clock b rate gap) (fair : Fair schedule) (fuel : ℕ)
      (enough : 1000000 < fuel) (quick : 11 * rate ≤ fuel) (fits : 5 + gap < 2 ^ 32) where
    measure_run-Sampled :
        (left : ℕ) (w : ℕ → ℕ) (r i n : ℕ) (st : Stats) (c : Core S)
        → i + left ≤ 10000
        → n + left < 2 ^ 32
        → QuietAt b m e schedule w n false c
        → Sampled b e schedule
            (λ t c'. RunDone w left r i n st t c')
            (measure_run (interruptible b e schedule) fuel left r i n st c)
    unfolding measure_run add_samples
    measure_run-Sampled zero w r i n st c small lt q = returns (record {
      samples = [];
      many = refl;
      popped = tt;
      taken = refl;
      counted = omega arith;
      state = q;
    })
    measure_run-Sampled (suc left) w r i n st c small lt q =
        Sampled-bind b e schedule (measure_one (interruptible b e schedule) fuel r i n st) _ c
          (measure_one-Sampled b m e schedule rate gap k fair fuel enough quick fits w r i n st c
            (omega arith) (omega arith) q)
          λ t c1 one.
            Sampled-mono b e schedule
              (measure_run-Sampled left (put_sample r i one.value w) r (i + 1) t.0 t.1 c1
                (omega arith) (omega arith) one.state)
              λ u c2 done. record {
                samples = one.value ∷ done.samples;
                many = ap suc done.many;
                popped = (one.sample, done.popped);
                taken = done.taken ∙ ap (add_samples done.samples) one.taken;
                counted = omega arith;
                state = done.state;
              }

    -- With the interrupt on, wherever the handler comes in between two accesses of the main program, the
    -- `left` runs from `r` on, of the program's three, end, and never in `fail(1)`: a sample does not come and they end in
    -- `fail(2)`, or they return `n` and 10,000 for each run. The count in IRQ_COUNT is then the number
    -- returned, GPIO 15 is low with no edge left to serve, and the other words of SRAM are those of
    -- before with what the program keeps of each run of 10,000 samples from the PIO's FIFO in its place. They start with the count
    -- `n` in IRQ_COUNT, GPIO 15 low and no edge latched; the timer counts, and the core does not put
    -- an interrupt off for more than a million accesses.
    pub measure_runs-Sampled :
        (left : ℕ) (w : ℕ → ℕ) (r n : ℕ) (c : Core S)
        → r + left ≤ 3
        → n + 10000 * left < 2 ^ 32
        → QuietAt b m e schedule w n false c
        → Sampled b e schedule
            (λ t c'. RunsDone w left r n t c')
            (measure_runs (interruptible b e schedule) fuel left r n c)
    unfolding measure_runs set_reg put_runs
    measure_runs-Sampled zero w r n c small lt q =
        returns (record { runs = []; many = refl; whole = tt; counted = omega arith; state = q })
    measure_runs-Sampled (suc left) w r n c small lt q =
        Sampled-bind b e schedule
          (measure_run (interruptible b e schedule) fuel 10000 r 0 n no_samples) _ c
          (measure_run-Sampled 10000 w r 0 n no_samples c (omega arith) (omega arith) q)
          λ t c1 one.
            let q2 = stats-QuietAt _ t.0 r t.1 c1 (omega arith) one.state in
            Sampled-mono b e schedule
              (measure_runs-Sampled left (put_stats r t.1 (put_samples r 0 one.samples w)) (r + 1)
                t.0 _ (omega arith) (omega arith) q2)
              λ u c2 done. record {
                runs = one.samples ∷ done.runs;
                many = ap suc done.many;
                whole = (one.many, one.popped, done.whole);
                counted = omega arith;
                state =
                    subst
                      (λ st.
                        QuietAt b m e schedule
                          (put_runs (r + 1) done.runs
                            (put_stats r st (put_samples r 0 one.samples w)))
                          u false c2)
                      one.taken done.state;
              }
