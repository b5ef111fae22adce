-- ===== src/Board/Pll.antt =====
-- The PLL that `sys_clock_125mhz` of bench/irq_latency.c sets up, against the clock frequencies of
-- runtime/boot2/hardware/platform_defs.h.
use inmojomni.Base.{ℕ, ◌*◌, ◌/◌, ◌%◌, ◌^◌, ◌≡◌, refl, ap, ◌∙◌, arith, ◌<<u◌}
use inmojomni.Base.{◌==◌, if◌then◌else◌, true, false, some, ◌⊎◌, inl, inr}
use inmojomni.Machine.{Bus, set_reg, poll}
use inmojomni.Machine.Ends.{Ends, Ends-bind, Ends-mono}
use inmojomni.Machine.Keeps.{poll_holds}
use inmojomni.Board.{any_set, equals, sys_clock_125mhz}
use inmojomni.Board.Start.{Locks}
use inmojomni.PlatformDefs.{
  define_clock, define_hz, define_khz, define_mhz, xosc_clock, sys_clock, no_defs,
}

-- The PLL as the datasheet has it: the registers CS, FBDIV_INT and PRIM of the block at `base` keep
-- what was last written to them.
abbrev pub IsPllRegister : ℕ → Type 0
IsPllRegister a = (a ≡ 0x40028000) ⊎ ((a ≡ 0x40028008) ⊎ (a ≡ 0x4002800C))

pub record Pll {S : Type 0} (b : Bus S) : Type 0 where
  pub latched : ℕ → S → ℕ
  pub latched-read : (a r : ℕ) (s : S) → IsPllRegister a → latched a (b.read r s).1 ≡ latched a s
  pub latched-write :
      (a w v : ℕ) (s : S)
      → IsPllRegister a
      → latched a (b.write w v s) ≡ (if w == a then v else latched a s)

-- What the PLL makes of `hz`: divided by REFDIV (CS, bits 0 to 5), multiplied by FBDIV_INT, and
-- divided by POSTDIV1 and POSTDIV2 (PRIM, bits 16 to 18 and 12 to 14).
abbrev pub pll_output : ℕ → ℕ → ℕ → ℕ → ℕ
pll_output hz cs fbdiv prim =
    hz / (cs % 2 ^ 6) * fbdiv / (prim / 2 ^ 16 % 2 ^ 3 * (prim / 2 ^ 12 % 2 ^ 3))

module _ {S : Type 0} (b : Bus S) (pll : Pll b) where
  set : (a v : ℕ) (s : S) → IsPllRegister a → pll.latched a (b.write a v s) ≡ v
  set a v s h =
      let same : (a == a) ≡ true = ground arith in
      pll.latched-write a a v s h ∙ ap (λ t. if t then v else pll.latched a s) same

  kept :
      (a w v : ℕ) (s : S)
      → IsPllRegister a
      → ¬ (w ≡ a)
      → pll.latched a (b.write w v s) ≡ pll.latched a s
  kept a w v s h ne =
      let other : (w == a) ≡ false = ground arith in
      pll.latched-write a w v s h ∙ ap (λ t. if t then v else pll.latched a s) other

  -- Before and after the third of the registers is written.
  abbrev Multiplies : S → Type 0
  Multiplies s = (pll.latched 0x40028000 s ≡ 1) × (pll.latched 0x40028008 s ≡ 125)

  abbrev Configured : S → Type 0
  Configured s = Multiplies s × (pll.latched 0x4002800C s ≡ 401408)

  Multiplies-read : (a : ℕ) (s : S) → Multiplies s → Multiplies (b.read a s).1
  Multiplies-read a s q = (
    pll.latched-read 0x40028000 a s (inl refl) ∙ q.0,
    pll.latched-read 0x40028008 a s (inr (inl refl)) ∙ q.1,
  )

  Multiplies-write :
      (w v : ℕ) (s : S)
      → ¬ (w ≡ 0x40028000)
      → ¬ (w ≡ 0x40028008)
      → Multiplies s
      → Multiplies (b.write w v s)
  Multiplies-write w v s n k q =
      (kept 0x40028000 w v s (inl refl) n ∙ q.0, kept 0x40028008 w v s (inr (inl refl)) k ∙ q.1)

  Configured-read : (a : ℕ) (s : S) → Configured s → Configured (b.read a s).1
  Configured-read a s q =
      (Multiplies-read a s (q.0), pll.latched-read 0x4002800C a s (inr (inr refl)) ∙ q.1)

  Configured-write :
      (w v : ℕ) (s : S)
      → ¬ (w ≡ 0x40028000)
      → ¬ (w ≡ 0x40028008)
      → ¬ (w ≡ 0x4002800C)
      → Configured s
      → Configured (b.write w v s)
  Configured-write w v s n k l q =
      (Multiplies-write w v s n k (q.0), kept 0x4002800C w v s (inr (inr refl)) l ∙ q.1)

  multiplied : (s : S) → Multiplies (b.write 0x40028008 125 (b.write 0x40028000 1 s))
  multiplied s = (
    kept 0x40028000 0x40028008 125 _ (inl refl) (omega arith) ∙ set 0x40028000 1 s (inl refl),
    set 0x40028008 125 _ (inr (inl refl)),
  )

  output_value :
      (hz : ℕ)
      → (xosc_clock no_defs).hz ≡ some hz
      → (sys_clock no_defs).hz ≡ some (pll_output hz 1 125 401408)
  unfolding xosc_clock sys_clock define_clock define_hz define_khz define_mhz
  output_value hz e = ground arith

  -- On a chip whose PLL locks, `sys_clock_125mhz` comes to its end, and what the PLL then makes of the
  -- crystal's frequency is the system clock of platform_defs.h, for a build that defines no other.
  pub sys_clock_125mhz-pll_output :
      (fuel hz : ℕ) (s : S)
      → Locks b fuel
      → (xosc_clock no_defs).hz ≡ some hz
      → Ends
          (λ _ s'.
            (sys_clock no_defs).hz
            ≡ some (
                pll_output hz
                  (pll.latched 0x40028000 s')
                  (pll.latched 0x40028008 s')
                  (pll.latched 0x4002800C s')))
          (sys_clock_125mhz b fuel s)
  unfolding sys_clock_125mhz set_reg
  sys_clock_125mhz-pll_output fuel hz s c e =
      Ends-bind (poll b fuel 0x4000C008 (any_set (1 <<u 12))) _ _ (c.out_of_reset _) λ _ s1 _.
        Ends-bind (poll b fuel 0x40028000 (any_set 0x80000000)) _ _
          (poll_holds b Multiplies Multiplies-read fuel 0x40028000 (any_set 0x80000000) _ (c.lock _)
            (Multiplies-write 0x4002B004 33 _ (omega arith) (omega arith) (multiplied s1)))
          λ _ s2 q.
            let prim = b.write 0x4002800C 401408 s2 in
            let q1 : Configured prim = (
              Multiplies-write 0x4002800C 401408 s2 (omega arith) (omega arith) q,
              set 0x4002800C 401408 s2 (inr (inr refl)),
            ) in
            let q2 =
              Configured-write 0x4002B004 8 prim (omega arith) (omega arith) (omega arith) q1 in
            let q3 = Configured-write 0x4000803C 0 _ (omega arith) (omega arith) (omega arith) q2 in
            let q4 = Configured-write 0x4000A03C 1 _ (omega arith) (omega arith) (omega arith) q3 in
            Ends-mono
              (poll_holds b Configured Configured-read fuel 0x40008044 (equals 2) _ (c.clk_sys _)
                q4)
              λ _ s3 r. output_value hz e ∙ (rw (r.0.0, r.0.1, r.1))
