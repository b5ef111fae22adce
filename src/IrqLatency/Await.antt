-- ===== src/IrqLatency/Await.antt =====
-- The waiting loops of bench/irq_latency.c, which count their rounds.
use mathlib.Core.Path.{subst}
use inmojomni.Base.{
  ℕ, zero, suc, ◌+◌, ◌-◌, ◌≤◌, ◌<◌, ◌≡◌, refl, arith, Bool, true, false, ltb, ◌+u◌,
}
use inmojomni.Base.{ltb→le, ltb→lt}
use inmojomni.Machine.{Bus, Run, done, stopped, pure, halt, set_reg}
use inmojomni.IrqLatency.{fail, await}

module _ {S : Type 0} (b : Bus S) (a : ℕ) (stay : ℕ → Bool) (code : ℕ) where
  -- The state after n reads.
  abbrev pub after_reads : ℕ → S → S
  after_reads zero s = s
  after_reads (suc n) s = after_reads n (b.read a s).1

  -- Each of the first n reads makes the loop go on.
  abbrev pub AllStay : ℕ → S → Type 0
  AllStay zero s = Unit {0}
  AllStay (suc n) s = (stay (b.read a s).0 ≡ true) × AllStay n (b.read a s).1

  -- The two ends of a loop that has `more` further rounds: the first read that lets it go on, or
  -- one read too many.
  pub data Outcome (more : ℕ) (s : S) : Run S (Unit {0}) → Type 0 where
    passes :
        (n : ℕ)
        → n ≤ more
        → AllStay n s
        → stay (b.read a (after_reads n s)).0 ≡ false
        → Outcome more s (done tt (after_reads (suc n) s))
    fails :
        AllStay (suc more) s
        → Outcome more s
            (stopped (b.write 0x20030004 3 (b.write 0x20030020 code (after_reads (suc more) s))))

  -- One read that lets the loop go on.
  later :
      (more : ℕ) (s : S) (r : Run S (Unit {0}))
      → stay (b.read a s).0 ≡ true
      → Outcome more (b.read a s).1 r
      → Outcome (suc more) s r
  later more s r e (passes n le all stop) = passes (suc n) (omega arith) (e, all) stop
  later more s r e (fails all) = fails (e, all)

  round :
      (fuel spins : ℕ) (s : S) (t u : Bool)
      → stay (b.read a s).0 ≡ t
      → ltb 1000000 (spins +u 1) ≡ u
      → spins ≤ 1000000
      → (spins + 1 ≤ 1000000
          → Outcome
              (1000000 - (spins +u 1))
              (b.read a s).1
              (await b fuel a stay code (spins +u 1) (b.read a s).1))
      → Outcome (1000000 - spins) s (elim t [
        | true ↦ elim u [
          | true ↦ fail b code (b.read a s).1
          | false ↦ await b fuel a stay code (spins +u 1) (b.read a s).1
        ]
        | false ↦ pure tt (b.read a s).1
      ])
  unfolding fail set_reg halt
  round fuel spins s false u e f h again = passes 0 (omega arith) tt e
  round fuel spins s true true e f h again =
      let last : 0 ≡ 1000000 - spins = omega (arith, ltb→lt _ _ f) in
      subst (λ more. Outcome more s (fail b code (b.read a s).1)) last (fails (e, tt))
  round fuel spins s true false e f h again =
      let le : spins + 1 ≤ 1000000 = omega (arith, ltb→le _ _ f) in
      let one : suc (1000000 - (spins +u 1)) ≡ 1000000 - spins = omega arith in
      subst (λ more. Outcome more s (await b fuel a stay code (spins +u 1) (b.read a s).1)) one
        (later (1000000 - (spins +u 1)) s _ e (again le))

  -- `while (stay(REG(a))) if (++spins > 1000000u) fail(code);` at `spins`, on any device: with fuel for the
  -- rounds that are left before `spins` passes a million, the loop never runs for ever. Either one of the
  -- next 1,000,001 - spins reads is the first to let it go on, and it returns after that read,
  -- or all of them make it stay, and it ends in `fail` with the code in the mailbox and the status
  -- 3.
  pub await-Outcome :
      (fuel spins : ℕ) (s : S)
      → spins ≤ 1000000
      → 1000000 - spins < fuel
      → Outcome (1000000 - spins) s (await b fuel a stay code spins s)
  unfolding await fail set_reg halt
  await-Outcome zero spins s h enough = absurd (omega arith)
  await-Outcome (suc fuel) spins s h enough =
      round fuel spins s (stay (b.read a s).0) (ltb 1000000 (spins +u 1)) refl refl h
        λ le. await-Outcome fuel (spins +u 1) (b.read a s).1 (omega arith) (omega arith)
