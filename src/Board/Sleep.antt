-- ===== src/Board/Sleep.antt =====
-- `sleep_us` against the time that passes, across the wrap of the 32-bit timer.
use inmojomni.Base.{
  ℕ, zero, suc, ◌+◌, ◌-◌, ◌*◌, ◌%◌, ◌^◌, ◌≤◌, ◌<◌, ◌≡◌, ◌≢◌, refl, ap, arith, ◌⊎◌, inl, inr,
}
use inmojomni.Base.{Bool, true, false, ltb, ltb→lt, ltb→le, ◌-u◌}
use inmojomni.Machine.{Bus, reg, pure}
use inmojomni.Machine.Ends.{Ends, ends}
use inmojomni.Board.{time_us, wait_loop, sleep_us}

-- The microseconds since the timer started, of which the register shows the low 32 bits. A
-- microsecond has up to `rate` parts (the cycles of the core), and a read takes at least one of them: up to
-- `rate` reads in a row show the same microsecond. A read takes at most `gap` microseconds.
pub record Clock {S : Type 0} (b : Bus S) (rate gap : ℕ) : Type 0 where
  pub now : S → ℕ
  pub phase : S → ℕ
  pub shows : (s : S) → (b.read 0x40054028 s).0 ≡ now s % 2 ^ 32
  pub parts : (s : S) → phase s < rate
  pub advances :
      (s : S)
      → (now s < now (b.read 0x40054028 s).1)
        ⊎ ((now (b.read 0x40054028 s).1 ≡ now s) × (phase s < phase (b.read 0x40054028 s).1))
  pub at_most : (s : S) → now (b.read 0x40054028 s).1 ≤ now s + gap

less_parts : (d e rate : ℕ) → d < e → (d + 1) * rate ≤ e * rate
less_parts d e rate h = grind arith

module _ {S : Type 0} (b : Bus S) (rate gap : ℕ) (c : Clock b rate gap) where
  -- From `start` to the end of the run at least `us` and at most `us + 2 * gap` have passed.
  abbrev pub Slept : ℕ → ℕ → S → Type 0
  Slept start us s = (start + us ≤ c.now s) × (c.now s ≤ start + us + 2 * gap)

  pub steady : (s : S) → c.now s ≤ c.now (b.read 0x40054028 s).1
  steady s = later (c.advances s)
    where
      later :
          (c.now s < c.now (b.read 0x40054028 s).1)
            ⊎ ((c.now (b.read 0x40054028 s).1 ≡ c.now s)
                × (c.phase s < c.phase (b.read 0x40054028 s).1))
          → c.now s ≤ c.now (b.read 0x40054028 s).1
      later (inl h) = omega arith
      later (inr (h, k)) = omega arith

  -- Two readings at most 2 ^ 32 - 1 apart differ by the time between them.
  elapsed :
      (start t : ℕ) → start ≤ t → t - start < 2 ^ 32 → (t % 2 ^ 32 -u start % 2 ^ 32) ≡ t - start
  elapsed start t h k = omega arith

  wait_loop-Slept :
      (fuel start us : ℕ) (s : S)
      → start ≤ c.now s
      → c.now s ≤ start + us + gap
      → (start + us - c.now s + 1) * rate ≤ fuel + c.phase s
      → us + gap < 2 ^ 32
      → Ends (λ _ s'. Slept start us s') (wait_loop b fuel (start % 2 ^ 32) us s)
  unfolding wait_loop time_us reg
  wait_loop-Slept zero start us s after early enough fits =
      absurd (omega (arith, c.parts s, less_parts 0 (start + us - c.now s + 1) rate))
  wait_loop-Slept (suc fuel) start us s after early enough fits =
      round (ltb (t -u start % 2 ^ 32) us) refl
        (wait_loop-Slept fuel start us s' (omega (arith, steady s)))
    where
      t : ℕ
      t = (b.read 0x40054028 s).0

      s' : S
      s' = (b.read 0x40054028 s).1

      fewer :
          start + us - c.now s ≢ 0
          → (c.now s < c.now s') ⊎ ((c.now s' ≡ c.now s) × (c.phase s < c.phase s'))
          → (start + us - c.now s' + 1) * rate ≤ fuel + c.phase s'
      fewer more (inl h) =
          let lost = less_parts (start + us - c.now s') (start + us - c.now s) rate (omega arith) in
          let d = start + us - c.now s in
          let one : (d + 1) * rate ≡ d * rate + rate = grind arith in omega (arith, c.parts s)
      fewer more (inr (same, later)) =
          let whole = ap (λ t. (start + us - t + 1) * rate) same in omega arith

      round :
          (more : Bool)
          → ltb (t -u start % 2 ^ 32) us ≡ more
          → (c.now s' ≤ start + us + gap
              → (start + us - c.now s' + 1) * rate ≤ fuel + c.phase s'
              → us + gap < 2 ^ 32
              → Ends (λ _ s''. Slept start us s'') (wait_loop b fuel (start % 2 ^ 32) us s'))
          → Ends
              (λ (_ : Unit {0}) s''. Slept start us s'')
              (elim more [ true ↦ wait_loop b fuel (start % 2 ^ 32) us s' | false ↦ pure tt s' ])
      round true e again =
          let short : c.now s - start < us =
            omega (arith, c.shows s, elapsed start (c.now s), ltb→lt _ _ e) in
          again (omega (arith, c.at_most s)) (fewer (omega arith) (c.advances s)) fits
      round false e again =
          let long : us ≤ c.now s - start =
            omega (arith, c.shows s, elapsed start (c.now s), ltb→le _ _ e) in
          ends (omega (arith, steady s), omega (arith, c.at_most s))

-- On a chip whose timer counts microseconds, `sleep_us(us)` comes back when the timer has counted at
-- least `us` microseconds and at most `us + 2 * gap`, also where its 32 bits wrap in between;
-- `(us + 1) * rate` reads after the first are enough.
pub sleep_us-Slept :
    {S : Type 0} (b : Bus S) (rate gap : ℕ) (c : Clock b rate gap) (fuel us : ℕ) (s : S)
    → (us + 1) * rate ≤ fuel
    → us + gap < 2 ^ 32
    → Ends (λ _ s'. Slept b rate gap c (c.now s) us s') (sleep_us b fuel us s)
unfolding sleep_us time_us reg
sleep_us-Slept b rate gap c fuel us s enough fits = rw (c.shows s) (
    wait_loop-Slept b rate gap c fuel (c.now s) us (b.read 0x40054028 s).1
      (omega (arith, steady b rate gap c s)) (omega (arith, c.at_most s))
      (within (steady b rate gap c s)) fits)
  where
    within :
        c.now s ≤ c.now (b.read 0x40054028 s).1
        → (c.now s + us - c.now (b.read 0x40054028 s).1 + 1) * rate
          ≤ fuel + c.phase (b.read 0x40054028 s).1
    within h =
        let fewer =
          less_parts (c.now s + us - c.now (b.read 0x40054028 s).1) (us + 1) rate (omega arith) in
        omega arith
