-- ===== src/IrqLatency/Runs.antt =====
-- The loop of bench/irq_latency.c over the samples of one run.
use inmojomni.Base.{
  ◌≤◌, ◌*◌, ℕ, zero, suc, ◌+◌, ◌%◌, ◌^◌, ◌<◌, ◌≡◌, refl, ap, ◌∙◌, arith, ◌⊎◌, inl, inr,
}
use inmojomni.Base.{Bool, true, false, ◌==◌, if◌then◌else◌, bit_and, ◌>>u◌, ◌+u◌, ◌*u◌, not_u}
use inmojomni.Base.{List, [], ◌∷◌, length}
use inmojomni.Machine.{Bus, Run, done, stopped, Prog, pure, set_reg, reg, ◌>>=◌}
use inmojomni.Machine.Ends.{Ends, ends}
use inmojomni.Board.{sleep_us}
use inmojomni.Board.Sleep.{Clock, sleep_us-Slept}
use inmojomni.IrqLatency.{irq_count, Stats, add_sample, await, measure_one, measure_run}
use inmojomni.IrqLatency.Samples.{add_samples, AllOf}
use inmojomni.IrqLatency.Popped.{After, passed, Popped, popped}
use inmojomni.IrqLatency.Await.{Outcome, passes, fails, await-Outcome}

module _ {S : Type 0} (b : Bus S) where
  -- A run that returns a value in a state, of which something holds, or ends in `fail(1)` or `fail(2)`.
  pub data Ending {A : Type 0} (Q : A → S → Type 0) : Run S A → Type 0 where
    returns : {a : A} {s : S} → Q a s → Ending Q (done a s)
    failed :
        {s : S} (code : ℕ)
        → (code ≡ 1) ⊎ (code ≡ 2)
        → Ending Q (stopped (b.write 0x20030004 3 (b.write 0x20030020 code s)))

  pub Ending-bind :
      {A B : Type 0} {P : A → S → Type 0} {Q : B → S → Type 0} (m : Prog S A) (k : A → Prog S B)
      (s : S)
      → Ending P (m s)
      → ((a : A) (s' : S) → P a s' → Ending Q (k a s'))
      → Ending Q ((m >>= k) s)
  Ending-bind {A} {B} {P} {Q} m k s e next = go (m s) e
    where
      go :
          (r : Run S A)
          → Ending P r
          → Ending Q (elim r [
            | Run.done a s' ↦ k a s'
            | Run.spinning s' ↦ Run.spinning s'
            | Run.stopped s' ↦ Run.stopped s'
            | Run.fault s' ↦ Run.fault s'
          ])
      go r (returns p) = next _ _ p
      go r (failed code e) = failed code e

  abbrev Any : Unit {0} → S → Type 0
  Any _ _ = Unit {0}

  pub Ending-mono :
      {A : Type 0} {P Q : A → S → Type 0} {r : Run S A}
      → Ending P r
      → ((a : A) (s : S) → P a s → Q a s)
      → Ending Q r
  Ending-mono (returns p) weaken = returns (weaken _ _ p)
  Ending-mono (failed code e) weaken = failed code e

  Outcome-Ending :
      (a : ℕ) (stay : ℕ → Bool) (code more : ℕ) (s : S) (r : Run S (Unit {0}))
      → (code ≡ 1) ⊎ (code ≡ 2)
      → Outcome b a stay code more s r
      → Ending (λ _ t. After b a stay t) r
  Outcome-Ending a stay code more s r is (passes n le all stop) =
      returns (passed b a stay code n s stop)
  Outcome-Ending a stay code more s r is (fails all) = failed code is

  Ends-Ending : {Q : Unit {0} → S → Type 0} (r : Run S (Unit {0})) → Ends Q r → Ending Any r
  Ends-Ending r (ends q) = returns tt

  write_if : (t : Bool) (a v : ℕ) (s : S) → Ending Any ((if t then set_reg b a v else pure tt) s)
  unfolding set_reg
  write_if true a v s = returns tt
  write_if false a v s = returns tt

  write_if_if :
      (t u : Bool) (a v : ℕ) (s : S)
      → Ending Any ((if t then (if u then set_reg b a v else pure tt) else pure tt) s)
  write_if_if true u a v s = write_if u a v s
  write_if_if false u a v s = returns tt

  module _ (rate gap : ℕ) (c : Clock b rate gap) (fuel : ℕ) (enough : 1000000 < fuel)
      (quick : 11 * rate ≤ fuel) (fits : 5 + gap < 2 ^ 32) where
    -- One sample: the count goes up and the statistics take in one sample.
    abbrev OneMore : ℕ → Stats → ℕ × Stats → Type 0
    OneMore total st t = (t.0 ≡ (total +u 1)) × (n : ℕ) × Popped b n × (t.1 ≡ add_sample n st)

    measure_one-Ending :
        (r i total : ℕ) (st : Stats) (s : S)
        → Ending (λ t _. OneMore total st t) (measure_one b fuel r i total st s)
    unfolding measure_one set_reg reg
    measure_one-Ending r i total st s =
        Ending-bind (await b fuel irq_count (λ v. if v == (total +u 1) then false else true) 1 0) _
          _
          (Outcome-Ending irq_count _ 1 _ _ _ (inl refl)
            (await-Outcome b irq_count _ 1 fuel 0 _ (omega arith) (omega arith)))
          λ _ s1 _.
            Ending-bind
              (await b fuel 0x50200004 (λ v. if bit_and (v >>u 8) 1 == 0 then false else true) 2 0)
              _ _
              (Outcome-Ending 0x50200004 _ 2 _ _ _ (inr refl)
                (await-Outcome b 0x50200004 _ 2 fuel 0 _ (omega arith) (omega arith)))
              λ _ s2 from.
                let n = not_u (b.read 0x50200020 s2).0 in
                Ending-bind (if r == 2 then set_reg b (0x20010000 +u 4 *u i) n else pure tt) _ _
                  (write_if (r == 2) _ n _)
                  λ _ s3 _.
                    Ending-bind
                      (if r == 0
                        then (if i == 0 then set_reg b 0x20030018 n else pure tt)
                        else pure tt)
                      _ _ (write_if_if (r == 0) (i == 0) _ n _)
                      λ _ s4 _.
                        Ending-bind (sleep_us b fuel 5) _ s4
                          (Ends-Ending _ (sleep_us-Slept b rate gap c fuel 5 s4 (omega arith) fits))
                          λ _ s5 _. returns (refl, n, popped b s2 from, refl)

    -- The waiting loops included, a run of `left` rounds always comes to an end on a chip whose
    -- timer counts: it ends in `fail(1)` or `fail(2)`, or it returns `total` increased by the number
    -- of rounds and the statistics of that many samples, each read from the FIFO of the PIO when FSTAT
    -- has shown that it is not empty.
    pub measure_run-Ending :
        (left r i total : ℕ) (st : Stats) (s : S)
        → total < 2 ^ 32
        → Ending
            (λ t _.
              (t.0 ≡ (total + left) % 2 ^ 32)
              × (ns : List ℕ) × (length ns ≡ left)
              × AllOf (Popped b) ns
              × (t.1 ≡ add_samples ns st))
            (measure_run b fuel left r i total st s)
    unfolding measure_run add_samples
    measure_run-Ending zero r i total st s lt = returns (omega arith, [], refl, tt, refl)
    measure_run-Ending (suc left) r i total st s lt =
        Ending-bind (measure_one b fuel r i total st) _ s (measure_one-Ending r i total st s)
          λ t s1 p.
            let (count, n, sample, taken) = p in
            Ending-mono (measure_run-Ending left r (i + 1) (t.0) (t.1) s1 (omega arith)) λ u _ q.
              let (more, ns, many, samples, stats) = q in
              (
                omega arith,
                n ∷ ns,
                ap suc many,
                (sample, samples),
                stats ∙ ap (add_samples ns) taken,
              )
