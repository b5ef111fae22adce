-- ===== src/Bits/Digits.antt =====
-- One equation for the lowest binary digit of each operation.
use Prim.Native.Nat.{min, max, differ, digits, bitwise}
use Prim.Native.Nat.{bit_and-bitwise, bit_or-bitwise, bit_xor-bitwise}
use inmojomni.Base.{ℕ, zero, suc, ◌+◌, ◌-◌, ◌*◌, ◌/◌, ◌%◌, ◌≤◌, ◌<◌, bit_and, bit_or, bit_xor}
use inmojomni.Base.{◌≡◌, refl, ap, ◌∙◌, arith}

module _ (rest : ℕ → ℕ) (op : ℕ → ℕ → ℕ) where
  -- One digit to go more, of a number that has none left, changes nothing.
  one_more : (a b left : ℕ) → a ≤ left → digits rest op (suc left) a b ≡ digits rest op left a b
  one_more zero b zero p = refl
  one_more zero b (suc left) p = refl
  one_more (suc a) b zero p = absurd (omega arith)
  one_more (suc a) b (suc left) p = omega (arith, one_more (suc a / 2) (b / 2) left (omega arith))

  many_more :
      (k a b left all : ℕ)
      → a ≤ left
      → all ≡ left + k
      → digits rest op all a b ≡ digits rest op left a b
  many_more zero a b left all p e =
      let same : all ≡ left = omega arith in ap (λ t. digits rest op t a b) same
  many_more (suc k) a b left zero p e = absurd (omega arith)
  many_more (suc k) a b left (suc all) p e =
      one_more a b all (omega arith) ∙ many_more k a b left all p (omega arith)

  lowest_digit :
      (b a : ℕ)
      → bitwise rest op (suc a) b ≡ op (suc a % 2) (b % 2) + 2 * bitwise rest op (suc a / 2) (b / 2)
  lowest_digit b a =
      let h = suc a / 2 in
      omega (arith, many_more (a - h) h (b / 2) h a (omega arith) (omega arith))

differ_sum : (x y : ℕ) → x < 2 → y < 2 → differ x y ≡ (x + y) % 2
differ_sum zero y p q = omega arith
differ_sum (suc zero) zero p q = refl
differ_sum (suc zero) (suc zero) p q = refl
differ_sum (suc zero) (suc (suc y)) p q = absurd (omega arith)
differ_sum (suc (suc x)) y p q = absurd (omega arith)

pub xor_step : (a b : ℕ) → bit_xor a b ≡ bit_xor (a / 2) (b / 2) * 2 + (a + b) % 2
xor_step zero b = omega (arith, bit_xor-bitwise 0 b, bit_xor-bitwise 0 (b / 2))
xor_step (suc a) b = omega (
  arith,
  bit_xor-bitwise (suc a) b,
  bit_xor-bitwise (suc a / 2) (b / 2),
  lowest_digit (λ y. y) differ b a,
  differ_sum (suc a % 2) (b % 2) (omega arith) (omega arith),
)

pub and_step : (a b : ℕ) → bit_and a b ≡ bit_and (a / 2) (b / 2) * 2 + min (a % 2) (b % 2)
and_step zero b = omega (arith, bit_and-bitwise 0 b, bit_and-bitwise 0 (b / 2))
and_step (suc a) b = omega (
  arith,
  bit_and-bitwise (suc a) b,
  bit_and-bitwise (suc a / 2) (b / 2),
  lowest_digit (λ y. 0) min b a,
)

pub or_step : (a b : ℕ) → bit_or a b ≡ bit_or (a / 2) (b / 2) * 2 + max (a % 2) (b % 2)
or_step zero b = omega (arith, bit_or-bitwise 0 b, bit_or-bitwise 0 (b / 2))
or_step (suc a) b = omega (
  arith,
  bit_or-bitwise (suc a) b,
  bit_or-bitwise (suc a / 2) (b / 2),
  lowest_digit (λ y. y) max b a,
)
