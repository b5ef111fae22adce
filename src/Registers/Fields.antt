-- ===== src/Registers/Fields.antt =====
-- What makes the constants of a register agree with each other, and what its fields then do when
-- they are read and updated.
use native.Mathlib.Nat.{pow-suc}
use inmojomni.Base.{ℕ, zero, suc, ◌+◌, ◌-◌, ◌*◌, ◌/◌, ◌^◌, ◌≤◌, ◌<◌, ◌≡◌, refl, sym, ap, ◌∙◌, arith}
use inmojomni.Base.{
  bit_and, bit_or, not_u, Bool, true, ltb, leb, ltb→lt, leb→le, ◌==◌, ==_iff, ◌&&◌, ◌⊎◌, inl, inr,
}
use inmojomni.Base.{List, [], ◌∷◌, IsIn, all_of, all_of-IsIn, &&-eq-true, ascends, ascends_apart}
use inmojomni.Registers.{Field, Register, reg_field_width, get_field, set_field}
use inmojomni.Registers.Splice.{
  ones, hole, spliced, part, and-ones, splice_lem, part-spliced_self, part-spliced_below,
}
use inmojomni.Registers.Splice.{part-spliced_above}

-- The mask is that of the positions, its complement leaves the other bits, and the reset value and
-- the named values fit.
unfoldable pub field_ok : Field → Bool
unfolding hole
field_ok f =
    let w = reg_field_width f in
    ltb f.msb 32
    && (leb f.lsb f.msb
        && ((f.bits == ones w f.lsb)
            && ((not_u f.bits == hole f.lsb w (31 - f.msb))
                && (ltb f.reset (2 ^ w) && all_of (λ x. ltb x (2 ^ w)) f.values))))

-- The positions of a field, counted from the highest bit down, as the headers list them.
abbrev pub first_place : Field → ℕ
first_place f = 31 - f.msb

abbrev pub end_place : Field → ℕ
end_place f = 32 - f.lsb

-- The bits that some field has.
unfoldable pub field_bits : List Field → ℕ
field_bits [] = 0
field_bits (f ∷ fs) = f.bits + field_bits fs

-- The fields have all the bits of the register, and its reset value is theirs.
unfoldable pub constants_ok : Register → Bool
constants_ok r =
    (field_bits r.fields == r.bits) && all_of (λ f. get_field f r.reset == f.reset) r.fields

unfoldable pub register_ok : Register → Bool
register_ok r =
    (all_of field_ok r.fields && ascends first_place end_place 0 r.fields) && constants_ok r

record IsField (f : Field) : Type 0 where
  top : f.msb < 32
  order : f.lsb ≤ f.msb
  mask : f.bits ≡ ones (reg_field_width f) f.lsb
  others : not_u f.bits ≡ hole f.lsb (reg_field_width f) (31 - f.msb)
  reset_fits : f.reset < 2 ^ reg_field_width f
  values_fit : (x : ℕ) → IsIn x f.values → x < 2 ^ reg_field_width f

field_ok-IsField : (f : Field) → field_ok f ≡ true → IsField f
unfolding field_ok
field_ok-IsField f h =
    let (top, h1) = &&-eq-true (ltb f.msb 32) _ h in
    let (order, h2) = &&-eq-true (leb f.lsb f.msb) _ h1 in
    let (mask, h3) = &&-eq-true (f.bits == ones (reg_field_width f) f.lsb) _ h2 in
    let (others, h4) =
      &&-eq-true (not_u f.bits == hole f.lsb (reg_field_width f) (31 - f.msb)) _ h3 in
    let (reset, values) = &&-eq-true (ltb f.reset (2 ^ reg_field_width f)) _ h4 in
    record {
      top = ltb→lt _ _ top;
      order = leb→le _ _ order;
      mask = (==_iff _ _).0 mask;
      others = (==_iff _ _).0 others;
      reset_fits = ltb→lt _ _ reset;
      values_fit = λ x i. ltb→lt _ _ (all_of-IsIn _ f.values x values i);
    }

-- Reading and updating, in terms of bit positions.
get_field-part :
    (f : Field) → IsField f → (v : ℕ) → get_field f v ≡ part (reg_field_width f) f.lsb v
get_field-part f k v =
    ap (λ (m : ℕ). bit_and v m / 2 ^ f.lsb) k.mask ∙ and-ones (reg_field_width f) f.lsb v

pow_add : (a b c : ℕ) → c ≡ a + b → 2 ^ c ≡ 2 ^ a * 2 ^ b
pow_add zero b c e = let same : c ≡ b = omega arith in omega (arith, ap (λ (t : ℕ). 2 ^ t) same)
pow_add (suc a) b zero e = absurd (omega arith)
pow_add (suc a) b (suc c) e =
    omega (arith, pow-suc 2 c, pow_add a b c (omega arith), ap (λ (t : ℕ). t * 2 ^ b) (pow-suc 2 a))

whole_word : (l w h : ℕ) → l + w + h ≡ 32 → 2 ^ l * (2 ^ w * 2 ^ h) ≡ 2 ^ 32
whole_word l w h e =
    sym (pow_add l (w + h) 32 (omega arith) ∙ ap (λ (t : ℕ). 2 ^ l * t) (pow_add w h (w + h) refl))

set_field-spliced :
    (f : Field)
    → IsField f
    → (x v : ℕ) → x < 2 ^ reg_field_width f
    → v < 2 ^ 32
    → set_field f x v ≡ spliced f.lsb (reg_field_width f) x v
set_field-spliced f k x v p q =
    ap (λ (m : ℕ). bit_or (bit_and v m) (x * 2 ^ f.lsb)) k.others
    ∙ splice_lem f.lsb (reg_field_width f) (31 - f.msb) v x
        (omega (
          arith,
          k.top,
          k.order,
          whole_word f.lsb (reg_field_width f) (31 - f.msb) (omega (arith, k.top, k.order)),
        ))
        p

-- What was put in at a field does not show in another.
elsewhere :
    (f g : Field)
    → IsField f
    → IsField g
    → (x v : ℕ) → x < 2 ^ reg_field_width f
    → (end_place g ≤ first_place f) ⊎ (end_place f ≤ first_place g)
    → part (reg_field_width g) g.lsb (spliced f.lsb (reg_field_width f) x v)
      ≡ part (reg_field_width g) g.lsb v
elsewhere f g kf kg x v p (inr d) =
    part-spliced_below f.lsb (reg_field_width f) x v g.lsb (reg_field_width g)
      (omega (arith, kf.order, kg.order, kf.top, kg.top))
elsewhere f g kf kg x v p (inl d) =
    part-spliced_above f.lsb (reg_field_width f) x v g.lsb (reg_field_width g) p
      (omega (arith, kf.order, kg.order, kf.top, kg.top))

module _ (r : Register) (ok : register_ok r ≡ true) where
  fields_ok : all_of field_ok r.fields ≡ true
  unfolding register_ok
  fields_ok =
      (&&-eq-true _ (ascends first_place end_place 0 r.fields)
        (&&-eq-true _ (constants_ok r) ok).0).0

  fields_ascend : ascends first_place end_place 0 r.fields ≡ true
  unfolding register_ok
  fields_ascend = (&&-eq-true (all_of field_ok r.fields) _ (&&-eq-true _ (constants_ok r) ok).0).1

  is_field : (f : Field) → IsIn f r.fields → IsField f
  is_field f i = field_ok-IsField f (all_of-IsIn field_ok r.fields f fields_ok i)

  -- What C code sees when it updates a field of a register with a value that fits: the field reads
  -- as the value, and every other field of the register as before.
  pub set_field-reads :
      (f : Field) (x v : ℕ)
      → IsIn f r.fields
      → x < 2 ^ reg_field_width f
      → v < 2 ^ 32
      → (get_field f (set_field f x v) ≡ x)
        × ((g : Field)
            → IsIn g r.fields
            → (g ≡ f) ⊎ (get_field g (set_field f x v) ≡ get_field g v))
  set_field-reads f x v i p q = (
    get_field-part f k _
        ∙ ap (part (reg_field_width f) f.lsb) new
        ∙ part-spliced_self f.lsb (reg_field_width f) x v p,
    λ g j. elim (ascends_apart first_place end_place 0 r.fields f g fields_ascend i j) [
      | inl e ↦ inl e
      | inr d ↦ inr (other g (is_field g j) d)
    ],
  )
    where
      k : IsField f
      k = is_field f i

      new : set_field f x v ≡ spliced f.lsb (reg_field_width f) x v
      new = set_field-spliced f k x v p q

      other :
          (g : Field)
          → IsField g
          → (end_place g ≤ first_place f) ⊎ (end_place f ≤ first_place g)
          → get_field g (set_field f x v) ≡ get_field g v
      other g kg d =
          get_field-part g kg _
          ∙ ap (part (reg_field_width g) g.lsb) new
          ∙ elsewhere f g k kg x v p d
          ∙ sym (get_field-part g kg v)

  -- The named values of a field fit it, and its reset value is what it reads as after a reset.
  pub reset-reads :
      (f : Field)
      → IsIn f r.fields
      → (get_field f r.reset ≡ f.reset)
        × (f.reset < 2 ^ reg_field_width f)
        × ((x : ℕ) → IsIn x f.values → x < 2 ^ reg_field_width f)
  unfolding register_ok constants_ok
  reset-reads f i =
      let constants =
        (&&-eq-true (all_of field_ok r.fields && ascends first_place end_place 0 r.fields) _
          ok).1 in
      let resets = (&&-eq-true (field_bits r.fields == r.bits) _ constants).1 in
      let k = is_field f i in
      (
        (==_iff _ _).0 (all_of-IsIn (λ g. get_field g r.reset == g.reset) r.fields f resets i),
        k.reset_fits,
        k.values_fit,
      )
