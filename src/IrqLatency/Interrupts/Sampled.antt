-- ===== src/IrqLatency/Interrupts/Sampled.antt =====
-- The FIFO wait and `sleep_us` of bench/irq_latency.c with no interrupt to come.
use mathlib.Core.Path.{subst}
use inmojomni.Base.{◌≤◌, ◌*◌, ℕ, zero, suc, ◌+◌, ◌<◌, sym, arith, ◌^◌, ◌-u◌}
use inmojomni.Base.{Bool, true, false, ltb}
use inmojomni.Machine.{Bus, Run, done, stopped, Memory, Prog, reg, pure, ◌>>=◌}
use inmojomni.Machine.Ends.{Ends, ends}
use inmojomni.Board.{time_us, wait_loop, sleep_us}
use inmojomni.Board.Sleep.{Clock, Slept, sleep_us-Slept}
use inmojomni.IrqLatency.{await}
use inmojomni.IrqLatency.Popped.{After, passed}
use inmojomni.IrqLatency.Await.{after_reads, Outcome, passes, fails, await-Outcome}
use inmojomni.IrqLatency.Interrupts.{Edge, Core, interruptible}
use inmojomni.IrqLatency.Interrupts.Quiet.{load-Irq, entered-quiet}
use inmojomni.IrqLatency.Interrupts.Waits.{QuietAt, quiet_read}

module _ {S : Type 0} (b : Bus S) (e : Edge b) (schedule : ℕ → Bool) where
  -- A run that returns in a state of which something holds, or ends in `fail(2)`.
  pub data Sampled {A : Type 0} (Q : A → Core S → Type 0) : Run (Core S) A → Type 0 where
    returns : {a : A} {c : Core S} → Q a c → Sampled Q (done a c)
    no_sample :
        (c : Core S)
        → Sampled Q (
            stopped (
              (interruptible b e schedule).write 0x20030004 3
                ((interruptible b e schedule).write 0x20030020 2 c)))

  pub Sampled-bind :
      {A B : Type 0} {P : A → Core S → Type 0} {Q : B → Core S → Type 0} (p : Prog (Core S) A)
      (k : A → Prog (Core S) B) (c : Core S)
      → Sampled P (p c)
      → ((a : A) (c' : Core S) → P a c' → Sampled Q (k a c'))
      → Sampled Q ((p >>= k) c)
  Sampled-bind {A} {B} {P} {Q} p k c h next = go (p c) h
    where
      go :
          (r : Run (Core S) A)
          → Sampled P r
          → Sampled Q (elim r [
            | Run.done a s' ↦ k a s'
            | Run.spinning s' ↦ Run.spinning s'
            | Run.stopped s' ↦ Run.stopped s'
            | Run.fault s' ↦ Run.fault s'
          ])
      go r (returns q) = next _ _ q
      go r (no_sample c') = no_sample c'

  pub Sampled-mono :
      {A : Type 0} {P Q : A → Core S → Type 0} {r : Run (Core S) A}
      → Sampled P r
      → ((a : A) (c : Core S) → P a c → Q a c)
      → Sampled Q r
  Sampled-mono (returns p) weaken = returns (weaken _ _ p)
  Sampled-mono (no_sample c) weaken = no_sample c

  pub Ends-Sampled :
      {A : Type 0} {Q : A → Core S → Type 0} {r : Run (Core S) A} → Ends Q r → Sampled Q r
  Ends-Sampled (ends q) = returns q

  module _ (m : Memory b) (w : ℕ → ℕ) (n : ℕ) (up : Bool) where
    quiet_reads :
        (stay : ℕ → Bool) (code k a : ℕ) (c : Core S)
        → QuietAt b m e schedule w n up c
        → QuietAt b m e schedule w n up (after_reads (interruptible b e schedule) a stay code k c)
    quiet_reads stay code zero a c q = q
    quiet_reads stay code (suc k) a c q =
        quiet_reads stay code k a _ (quiet_read b m e schedule w n up a c q)

    -- A wait that fails with the code 2 leaves no interrupt to come.
    pub await-Sampled :
        (fuel a : ℕ) (stay : ℕ → Bool) (c : Core S)
        → 1000000 < fuel
        → QuietAt b m e schedule w n up c
        → Sampled
            (λ _ c'.
              QuietAt b m e schedule w n up c' × After (interruptible b e schedule) a stay c')
            (await (interruptible b e schedule) fuel a stay 2 0 c)
    await-Sampled fuel a stay c enough q =
        ended _ (await (interruptible b e schedule) fuel a stay 2 0 c)
          (await-Outcome (interruptible b e schedule) a stay 2 fuel 0 c (omega arith) (omega arith))
      where
        ended :
            (more : ℕ) (r : Run (Core S) (Unit {0}))
            → Outcome (interruptible b e schedule) a stay 2 more c r
            → Sampled
                (λ _ c'.
                  QuietAt b m e schedule w n up c' × After (interruptible b e schedule) a stay c')
                r
        ended more r (passes k le all stop) = returns (
          quiet_reads stay 2 (suc k) a c q,
          passed (interruptible b e schedule) a stay 2 k c stop,
        )
        ended more r (fails all) = no_sample _

    -- The loop of `sleep_us` ends where it does on the device without interrupts.
    wait_loop-quiet :
        (P : S → Type 0) (fuel t0 us : ℕ) (c : Core S)
        → Ends (λ _ s'. P s') (wait_loop b fuel t0 us c.dev)
        → QuietAt b m e schedule w n up c
        → Ends
            (λ _ c'. QuietAt b m e schedule w n up c')
            (wait_loop (interruptible b e schedule) fuel t0 us c)
    unfolding wait_loop time_us reg
    wait_loop-quiet P zero t0 us c h q = elim h [ ]
    wait_loop-quiet P (suc fuel) t0 us c h q =
        let c1 : Core S = record { dev = (b.read 0x40054028 c.dev).1; time = c.time + 1 } in
        subst
          (λ s.
            let c1' : Core S = record { dev = (b.read 0x40054028 s).1; time = c.time + 1 } in
            Ends (λ (_ : Unit {0}) c'. QuietAt b m e schedule w n up c')
              (elim (ltb ((b.read 0x40054028 s).0 -u t0) us) [
                | true ↦ wait_loop (interruptible b e schedule) fuel t0 us c1'
                | false ↦ pure tt c1'
              ]))
          (sym (entered-quiet b m e schedule w n up c.time c.dev q))
          (round (ltb ((b.read 0x40054028 c.dev).0 -u t0) us) c1
            (load-Irq b m e w n up false c.dev q 0x40054028) h
            (λ again.
              wait_loop-quiet P fuel t0 us c1 again
                (load-Irq b m e w n up false c.dev q 0x40054028)))
      where
        round :
            (more : Bool) (c1 : Core S)
            → QuietAt b m e schedule w n up c1
            → Ends
                (λ (_ : Unit {0}) s'. P s')
                (elim more [ true ↦ wait_loop b fuel t0 us c1.dev | false ↦ pure tt c1.dev ])
            → (Ends (λ (_ : Unit {0}) s'. P s') (wait_loop b fuel t0 us c1.dev)
                → Ends
                    (λ (_ : Unit {0}) c'. QuietAt b m e schedule w n up c')
                    (wait_loop (interruptible b e schedule) fuel t0 us c1))
            → Ends
                (λ (_ : Unit {0}) c'. QuietAt b m e schedule w n up c')
                (elim more [
                  | true ↦ wait_loop (interruptible b e schedule) fuel t0 us c1
                  | false ↦ pure tt c1
                ])
        round true c1 r h again = again h
        round false c1 r h again = ends r

    pub sleep_us-Sampled :
        (rate gap : ℕ) (k : Clock b rate gap) (fuel us : ℕ) (c : Core S)
        → (us + 1) * rate ≤ fuel
        → us + gap < 2 ^ 32
        → QuietAt b m e schedule w n up c
        → Sampled
            (λ _ c'. QuietAt b m e schedule w n up c')
            (sleep_us (interruptible b e schedule) fuel us c)
    unfolding sleep_us time_us reg
    sleep_us-Sampled rate gap k fuel us c enough fits q =
        let c1 : Core S = record { dev = (b.read 0x40054028 c.dev).1; time = c.time + 1 } in
        subst
          (λ s.
            let c1' : Core S = record { dev = (b.read 0x40054028 s).1; time = c.time + 1 } in
            Sampled (λ (_ : Unit {0}) c'. QuietAt b m e schedule w n up c')
              (wait_loop (interruptible b e schedule) fuel (b.read 0x40054028 s).0 us c1'))
          (sym (entered-quiet b m e schedule w n up c.time c.dev q))
          (Ends-Sampled (
            wait_loop-quiet (Slept b rate gap k (k.now c.dev) us) fuel (b.read 0x40054028 c.dev).0
              us c1 (sleep_us-Slept b rate gap k fuel us c.dev enough fits)
              (load-Irq b m e w n up false c.dev q 0x40054028)))
