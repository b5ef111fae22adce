-- ===== src/IrqLatency/Interrupts/Waits.antt =====
-- The waits of bench/irq_latency.c on the bus with interrupts.
use mathlib.Core.Path.{subst}
use mathlib.Core.Bool.{true≢false}
use inmojomni.Base.{ℕ, zero, suc, ◌+◌, ◌-◌, ◌^◌, ◌≤◌, ◌<◌, ◌≡◌, refl, sym, ap, ◌∙◌, arith, ◌+u◌}
use inmojomni.Base.{Bool, true, false, ltb, ◌==◌, le→ltb, if◌then◌else◌}
use inmojomni.Machine.{Bus, Run, Memory, pure}
use inmojomni.Machine.Ends.{Ends, ends}
use inmojomni.IrqLatency.{irq_count, await, fail}
use inmojomni.IrqLatency.Interrupts.{Edge, Core, after_isr, entered, interruptible}
use inmojomni.IrqLatency.Interrupts.Quiet.{
  Irq, load-Irq, after_isr-Irq, entered-quiet, entered-waiting,
}

module _ {S : Type 0} (b : Bus S) (m : Memory b) (e : Edge b) (schedule : ℕ → Bool)
    (w : ℕ → ℕ) where
  abbrev pub QuietAt : ℕ → Bool → Core S → Type 0
  QuietAt n up c = Irq b m e w n up false c.dev

  pub quiet_read :
      (n : ℕ) (up : Bool) (a : ℕ) (c : Core S)
      → QuietAt n up c
      → QuietAt n up ((interruptible b e schedule).read a c).1
  quiet_read n up a c q =
      subst (λ s. Irq b m e w n up false (b.read a s).1)
        (sym (entered-quiet b m e schedule w n up c.time c.dev q))
        (load-Irq b m e w n up false c.dev q a)

  -- A write in a quiet state is the write to the device.
  pub quiet_write :
      (n : ℕ) (up : Bool) (P : S → Type 0) (a v : ℕ) (c : Core S)
      → QuietAt n up c
      → P (b.write a v c.dev)
      → P ((interruptible b e schedule).write a v c).dev
  quiet_write n up P a v c q p =
      subst (λ s. P (b.write a v s)) (sym (entered-quiet b m e schedule w n up c.time c.dev q)) p

  -- `REG(IRQ_COUNT) != total`, with the count as it was before.
  abbrev pub not_yet : ℕ → ℕ → Bool
  not_yet n v = if v == (n +u 1) then false else true

  -- One round of the loop: the handler runs before the read, or not.
  counted_read :
      (n : ℕ) (taken : Bool) (s : S)
      → n < 2 ^ 32
      → Irq b m e w n true true s
      → (let t = if taken then after_isr b s else s in
          (not_yet n (b.read irq_count t).0 ≡ (if taken then false else true))
          × Irq b m e w
              (if taken then n +u 1 else n)
              true
              (if taken then false else true)
              (b.read irq_count t).1)
  counted_read n true s lt q =
      let r = after_isr-Irq b m e w n true true s q in
      let v = m.read-peek irq_count (after_isr b s) (omega arith) ∙ r.count in
      let same : ((n +u 1) == (n +u 1)) ≡ true = ground arith in
      (
        ap (not_yet n) v ∙ ap (λ t. if t then false else true) same,
        load-Irq b m e w (n +u 1) true false _ r irq_count,
      )
  counted_read n false s lt q =
      let v = m.read-peek irq_count s (omega arith) ∙ q.count in
      let other : (n == (n +u 1)) ≡ false = ground arith in
      (
        ap (not_yet n) v ∙ ap (λ t. if t then false else true) other,
        load-Irq b m e w n true true s q irq_count,
      )

  -- What the round leaves, when the loop stops at it and when it goes on.
  settle :
      (n : ℕ) (stay over : Bool) (c1 : Core S) (failed again : Run (Core S) (Unit {0}))
      → (stay ≡ false → QuietAt (n +u 1) true c1)
      → (stay ≡ true → (over ≡ false) × Ends (λ _ c'. QuietAt (n +u 1) true c') again)
      → Ends
          (λ _ c'. QuietAt (n +u 1) true c')
          (elim stay [ true ↦ elim over [ true ↦ failed | false ↦ again ] | false ↦ pure tt c1 ])
  settle n false over c1 failed again stops goes = ends (stops refl)
  settle n true true c1 failed again stops goes = absurd (true≢false ((goes refl).0))
  settle n true false c1 failed again stops goes = (goes refl).1

  -- Whether the handler ran, as the loop sees it.
  after_round :
      (n : ℕ) (taken stay : Bool) (s : S)
      → stay ≡ (if taken then false else true)
      → Irq b m e w (if taken then n +u 1 else n) true (if taken then false else true) s
      → (stay ≡ false → Irq b m e w (n +u 1) true false s)
        × (stay ≡ true → (taken ≡ false) × Irq b m e w n true true s)
  after_round n true stay s is q = (λ _. q, λ goes. absurd (true≢false (sym goes ∙ is)))
  after_round n false stay s is q = (λ stops. absurd (true≢false (sym is ∙ stops)), λ _. (refl, q))

  put_off : (t k : ℕ) → schedule t ≡ false → schedule (t + k) ≡ true → 1 ≤ k
  put_off t zero now due = absurd (true≢false (sym due ∙ ap schedule (omega arith) ∙ now))
  put_off t (suc k) now due = omega arith

  -- The wait for the handler ends in the count that the main program expects.
  pub await-count :
      (fuel n k spins : ℕ) (c : Core S)
      → n < 2 ^ 32
      → Irq b m e w n true true c.dev
      → schedule (c.time + k) ≡ true
      → spins + k ≤ 1000000
      → k < fuel
      → Ends
          (λ _ c'. QuietAt (n +u 1) true c')
          (await (interruptible b e schedule) fuel irq_count (not_yet n) 1 spins c)
  unfolding await
  await-count zero n k spins c lt q at within enough = absurd (omega arith)
  await-count (suc fuel) n k spins c lt q at within enough =
      let t = entered b e schedule c.time c.dev in
      let c1 : Core S = record { dev = (b.read irq_count t).1; time = c.time + 1 } in
      let (stay, q1) =
        subst
          (λ s.
            (not_yet n (b.read irq_count s).0 ≡ (if schedule c.time then false else true))
            × Irq b m e w (if schedule c.time then n +u 1 else n) true
                (if schedule c.time then false else true) (b.read irq_count s).1)
          (sym (entered-waiting b m e schedule w n true c.time c.dev q))
          (counted_read n (schedule c.time) c.dev lt q) in
      let (stops, goes) =
        after_round n (schedule c.time) (not_yet n (b.read irq_count t).0) c1.dev stay q1 in
      settle n (not_yet n (b.read irq_count t).0) (ltb 1000000 (spins +u 1)) c1
        (fail (interruptible b e schedule) 1 c1)
        (await (interruptible b e schedule) fuel irq_count (not_yet n) 1 (spins +u 1) c1) stops
        λ h.
          let (now, r) = goes h in
          let later = put_off c.time k now at in
          (
            le→ltb 1000000 (spins +u 1) (omega arith),
            await-count fuel n (k - 1) (spins +u 1) c1 lt r (ap schedule (omega arith) ∙ at)
                (omega arith) (omega arith),
          )
