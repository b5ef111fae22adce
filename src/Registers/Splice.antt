-- ===== src/Registers/Splice.antt =====
-- Masks of `w` ones at position `l`, their complements, and a number put in at that position.
use Prim.Native.Nat.{min, max}
use native.Mathlib.Nat.{
  mul-div_cancel, mul-add-mod_self_right, mod-eq_of_lt, pow-suc, one-le-pow, div-one,
}
use inmojomni.Base.{
  ℕ, zero, suc, ◌+◌, ◌-◌, ◌*◌, ◌/◌, ◌%◌, ◌^◌, ◌≤◌, ◌<◌, ◌≡◌, refl, sym, ap, ◌∙◌, arith,
}
use inmojomni.Base.{bit_and, bit_or}
use inmojomni.Bits.{
  and_step, or_step, and_half, and-shr, and-mask, or-zero, mod_pow, half_pow, double_pow,
}

-- `w` ones above `l` zeros.
abbrev pub ones : ℕ → ℕ → ℕ
ones w l = (2 ^ w - 1) * 2 ^ l

-- Ones in `w + h` lowest places but the `w` lowest.
unfoldable pub above : ℕ → ℕ → ℕ
above zero h = 2 ^ h - 1
above (suc w) h = 2 * above w h

-- Ones in `l + w + h` places but the `w` at position `l`.
unfoldable pub hole : ℕ → ℕ → ℕ → ℕ
hole zero w h = above w h
hole (suc l) w h = 2 * hole l w h + 1

-- `v` with `x` in the `w` places at `l`.
pub spliced : ℕ → ℕ → ℕ → ℕ → ℕ
spliced zero w x v = v / 2 ^ w * 2 ^ w + x
spliced (suc l) w x v = 2 * spliced l w x (v / 2) + v % 2

-- The `w` places at `l`.
abbrev pub part : ℕ → ℕ → ℕ → ℕ
part w l v = v / 2 ^ l % 2 ^ w

pub and-ones : (w l v : ℕ) → bit_and v (ones w l) / 2 ^ l ≡ part w l v
and-ones w l v =
    and-shr l v (ones w l)
    ∙ ap (bit_and (v / 2 ^ l)) (mul-div_cancel (2 ^ w - 1) (one-le-pow l 2 (omega arith)))
    ∙ and-mask w (v / 2 ^ l)

-- One digit of the update of a field.
digit :
    (v n x m : ℕ)
    → n / 2 ≡ m
    → bit_or (bit_and v n) x
      ≡ bit_or (bit_and (v / 2) m) (x / 2) * 2 + max (min (v % 2) (n % 2)) (x % 2)
digit v n x m e =
    let rest : bit_and v n / 2 ≡ bit_and (v / 2) m = and_half v n ∙ ap (bit_and (v / 2)) e in
    omega (arith, or_step (bit_and v n) x, ap (λ (t : ℕ). bit_or t (x / 2)) rest, and_step v n)

and-above :
    (w h v x : ℕ)
    → v < 2 ^ w * 2 ^ h
    → x < 2 ^ w
    → bit_or (bit_and v (above w h)) x ≡ v / 2 ^ w * 2 ^ w + x
unfolding above
and-above zero h v x p q =
    let none_left : x ≡ 0 = omega arith in
    let fits : v < 2 ^ h = omega arith in
    rw (none_left, or-zero, and-mask h v, mod-eq_of_lt fits) (omega arith)
and-above (suc w) h v x p q = omega (
  arith,
  digit v (2 * above w h) x (above w h) (omega arith),
  and-above w h (v / 2) (x / 2) (omega (arith, double_pow (2 ^ h) w, pow-suc 2 w))
      (omega (arith, pow-suc 2 w)),
  ap (λ (t : ℕ). t * 2 ^ suc w) (half_pow v w),
  double_pow (v / 2 / 2 ^ w) w,
)

pub splice_lem :
    (l w h v x : ℕ)
    → v < 2 ^ l * (2 ^ w * 2 ^ h)
    → x < 2 ^ w
    → bit_or (bit_and v (hole l w h)) (x * 2 ^ l) ≡ spliced l w x v
unfolding hole spliced
splice_lem zero w h v x p q =
    let plain : x * 1 ≡ x = omega arith in
    ap (bit_or (bit_and v (above w h))) plain ∙ and-above w h v x (omega arith) q
splice_lem (suc l) w h v x p q =
    let halved : x * 2 ^ suc l / 2 ≡ x * 2 ^ l = omega (arith, double_pow x l) in
    omega (
      arith,
      double_pow x l,
      digit v (2 * hole l w h + 1) (x * 2 ^ suc l) (hole l w h) (omega arith),
      ap (bit_or (bit_and (v / 2) (hole l w h))) halved,
      splice_lem l w h (v / 2) x (omega (arith, double_pow (2 ^ w * 2 ^ h) l)) q,
    )

part-half : (w l n m : ℕ) → n / 2 ≡ m → part w (suc l) n ≡ part w l m
part-half w l n m e = ap (λ (t : ℕ). t % 2 ^ w) (half_pow n l ∙ ap (λ (t : ℕ). t / 2 ^ l) e)

pub part-spliced_self : (l w x v : ℕ) → x < 2 ^ w → part w l (spliced l w x v) ≡ x
unfolding spliced
part-spliced_self zero w x v q =
    rw (div-one (v / 2 ^ w * 2 ^ w + x))
      (mul-add-mod_self_right (v / 2 ^ w) (2 ^ w) x ∙ mod-eq_of_lt q)
part-spliced_self (suc l) w x v q =
    part-half w l (2 * spliced l w x (v / 2) + v % 2) (spliced l w x (v / 2)) (omega arith)
    ∙ part-spliced_self l w x (v / 2) q

-- Below and above the places that were set.
mod-spliced : (k l w x v : ℕ) → k ≤ l → spliced l w x v % 2 ^ k ≡ v % 2 ^ k
unfolding spliced
mod-spliced zero l w x v h = omega arith
mod-spliced (suc k) zero w x v h = absurd (omega arith)
mod-spliced (suc k) (suc l) w x v h =
    let n = 2 * spliced l w x (v / 2) + v % 2 in
    let halved : n / 2 ≡ spliced l w x (v / 2) = omega arith in
    omega (
      arith,
      mod_pow n k,
      mod_pow v k,
      ap (λ (t : ℕ). t % 2 ^ k) halved,
      mod-spliced k l w x (v / 2) (omega arith),
    )

pub part-spliced_below : (l w x v j k : ℕ) → j + k ≤ l → part k j (spliced l w x v) ≡ part k j v
unfolding spliced
part-spliced_below l w x v zero k h =
    rw (div-one (spliced l w x v), div-one v) (mod-spliced k l w x v (omega arith))
part-spliced_below zero w x v (suc j) k h = absurd (omega arith)
part-spliced_below (suc l) w x v (suc j) k h =
    part-half k j (2 * spliced l w x (v / 2) + v % 2) (spliced l w x (v / 2)) (omega arith)
    ∙ part-spliced_below l w x (v / 2) j k (omega arith)
    ∙ sym (part-half k j v (v / 2) refl)

halved : (w x v : ℕ) → (v / 2 ^ suc w * 2 ^ suc w + x) / 2 ≡ v / 2 / 2 ^ w * 2 ^ w + x / 2
halved w x v =
    omega (arith, ap (λ (t : ℕ). t * 2 ^ suc w) (half_pow v w), double_pow (v / 2 / 2 ^ w) w)

pub part-spliced_above :
    (l w x v j k : ℕ) → x < 2 ^ w → l + w ≤ j → part k j (spliced l w x v) ≡ part k j v
unfolding spliced
part-spliced_above zero zero x v j k q h =
    let same : v / 1 * 1 + x ≡ v = omega arith in ap (part k j) same
part-spliced_above zero (suc w) x v zero k q h = absurd (omega arith)
part-spliced_above zero (suc w) x v (suc j) k q h =
    part-half k j (v / 2 ^ suc w * 2 ^ suc w + x) (v / 2 / 2 ^ w * 2 ^ w + x / 2) (halved w x v)
    ∙ part-spliced_above zero w (x / 2) (v / 2) j k (omega (arith, pow-suc 2 w)) (omega arith)
    ∙ sym (part-half k j v (v / 2) refl)
part-spliced_above (suc l) w x v (suc j) k q h =
    part-half k j (2 * spliced l w x (v / 2) + v % 2) (spliced l w x (v / 2)) (omega arith)
    ∙ part-spliced_above l w x (v / 2) j k q (omega arith)
    ∙ sym (part-half k j v (v / 2) refl)
part-spliced_above (suc l) w x v zero k q h = absurd (omega arith)
