-- ===== src/IrqLatency/Handler.antt =====
-- The interrupt handler of bench/irq_latency.c.
use inmojomni.Base.{
  ℕ, suc, ◌==◌, true, false, if◌then◌else◌, ◌≡◌, ◌≢◌, refl, sym, ap, ◌∙◌, arith, ◌+u◌, ◌<<u◌,
}
use inmojomni.Machine.{Bus, done, Memory, InSram, reg, set_reg}
use inmojomni.Machine.Ends.{Ends, ends, Ends-mono}
use inmojomni.Machine.Keeps.{Keeps-trans, Keeps-read, Keeps-write}
use inmojomni.Results.Words.{peek-write_ne, peek-write_self}
use inmojomni.IrqLatency.{irq_count, intr1, isr_irq13, await}

-- The handler comes to its end, adds one to IRQ_COUNT as a uint32_t, and leaves every other word of
-- SRAM as it was.
pub isr_irq13-counts :
    {S : Type 0} (b : Bus S) (m : Memory b) (s : S)
    → Ends
        (λ _ s'.
          (m.peek irq_count s' ≡ (m.peek irq_count s +u 1))
          × ((a : ℕ) → InSram a → a ≢ irq_count → m.peek a s' ≡ m.peek a s))
        (isr_irq13 b s)
unfolding isr_irq13 set_reg reg
isr_irq13-counts b m s =
    let s1 = b.write 0xD0000014 (1 <<u 16) s in
    let s2 = b.write intr1 (1 <<u 31) s1 in
    let kept = Keeps-trans b m (Keeps-write b m 0xD0000014 (1 <<u 16) s (omega arith)) (
      Keeps-trans b m (Keeps-write b m intr1 (1 <<u 31) s1 (omega arith))
        (Keeps-read b m irq_count s2)) in
    let count =
      m.read-peek irq_count s2 (omega arith)
      ∙ Keeps-trans b m (Keeps-write b m 0xD0000014 (1 <<u 16) s (omega arith))
          (Keeps-write b m intr1 (1 <<u 31) s1 (omega arith)) irq_count (omega arith) in
    ends (
      peek-write_self b m irq_count _ _ (omega arith) ∙ ap (λ (t : ℕ). t +u 1) count,
      λ a h ne. peek-write_ne b m a irq_count _ _ h refl (λ e. ne (sym e)) ∙ kept a h,
    )

-- When IRQ_COUNT is the count of the samples before this one, one run of the handler makes the
-- first waiting loop of the sample return at its next read.
pub isr_irq13-releases :
    {S : Type 0} (b : Bus S) (m : Memory b) (total fuel : ℕ) (s : S)
    → m.peek irq_count s ≡ total
    → Ends
        (λ _ s'.
          await b (suc fuel) irq_count (λ v. if v == (total +u 1) then false else true) 1 0 s'
          ≡ done tt (b.read irq_count s').1)
        (isr_irq13 b s)
unfolding await
isr_irq13-releases b m total fuel s e = Ends-mono (isr_irq13-counts b m s) λ _ s' q.
    let count = m.read-peek irq_count s' (omega arith) ∙ q.0 ∙ ap (λ (t : ℕ). t +u 1) e in
    let same : ((total +u 1) == (total +u 1)) ≡ true = ground arith in rw (count, same, await)
