-- ===== src/Bits/Xor.antt =====
-- `^` is an abelian group of order two, and goes through shifts and truncations.
use native.Mathlib.Nat.{
  pow-suc, pow-succ', mul-one, div-one, div-div-eq-div-mul, mod-one, mod-add-div',
}
use inmojomni.Base.{ℕ, zero, suc, ◌+◌, ◌*◌, ◌/◌, ◌%◌, ◌^◌, ◌≤◌, ◌<◌, bit_xor}
use inmojomni.Base.{◌≡◌, refl, sym, ap, arith}
use inmojomni.Bits.Digits.{xor_step}

-- Each law of values goes by a bound on the digits left.
xor_zero_below : (n a : ℕ) → a ≤ n → bit_xor a 0 ≡ a
xor_zero_below n zero h = refl
xor_zero_below zero (suc a) h = absurd (omega arith)
xor_zero_below (suc n) (suc a) h =
    omega (arith, xor_step (suc a) 0, xor_zero_below n (suc a / 2) (omega arith))

xor_self_below : (n a : ℕ) → a ≤ n → bit_xor a a ≡ 0
xor_self_below n zero h = refl
xor_self_below zero (suc a) h = absurd (omega arith)
xor_self_below (suc n) (suc a) h =
    omega (arith, xor_step (suc a) (suc a), xor_self_below n (suc a / 2) (omega arith))

xor_comm_below : (n a b : ℕ) → a ≤ n → b ≤ n → bit_xor a b ≡ bit_xor b a
xor_comm_below zero zero zero p q = refl
xor_comm_below zero zero (suc b) p q = absurd (omega arith)
xor_comm_below zero (suc a) b p q = absurd (omega arith)
xor_comm_below (suc n) a b p q = omega (
  arith,
  xor_step a b,
  xor_step b a,
  xor_comm_below n (a / 2) (b / 2) (omega arith) (omega arith),
)

pub xor_half : (a b : ℕ) → bit_xor a b / 2 ≡ bit_xor (a / 2) (b / 2)
xor_half a b = omega (arith, xor_step a b)

pub xor_low : (a b : ℕ) → bit_xor a b % 2 ≡ (a + b) % 2
xor_low a b = omega (arith, xor_step a b)

xor_assoc_below :
    (n a b c : ℕ) → a ≤ n → b ≤ n → c ≤ n → bit_xor (bit_xor a b) c ≡ bit_xor a (bit_xor b c)
xor_assoc_below zero zero zero zero p q r = refl
xor_assoc_below zero zero zero (suc c) p q r = absurd (omega arith)
xor_assoc_below zero zero (suc b) c p q r = absurd (omega arith)
xor_assoc_below zero (suc a) b c p q r = absurd (omega arith)
xor_assoc_below (suc n) a b c p q r = ground (
  arith,
  xor_step (bit_xor a b) c,
  xor_step a (bit_xor b c),
  xor_half a b,
  xor_half b c,
  xor_low a b,
  xor_low b c,
  xor_assoc_below n (a / 2) (b / 2) (c / 2) (omega arith) (omega arith) (omega arith),
)

pub xor-zero : (a : ℕ) → bit_xor a 0 ≡ a
xor-zero a = xor_zero_below a a (omega arith)

pub xor_self : (a : ℕ) → bit_xor a a ≡ 0
xor_self a = xor_self_below a a (omega arith)

pub xor_comm : (a b : ℕ) → bit_xor a b ≡ bit_xor b a
xor_comm a b = xor_comm_below (a + b) a b (omega arith) (omega arith)

pub zero-xor : (a : ℕ) → bit_xor 0 a ≡ a
zero-xor a = omega (arith, xor_comm 0 a, xor-zero a)

pub xor_assoc : (a b c : ℕ) → bit_xor (bit_xor a b) c ≡ bit_xor a (bit_xor b c)
xor_assoc a b c = xor_assoc_below (a + b + c) a b c (omega arith) (omega arith) (omega arith)

-- Left and right shifts, truncation and the sum of disjoint fields.
pub double_pow : (q k : ℕ) → q * 2 ^ suc k ≡ 2 * (q * 2 ^ k)
double_pow q k = omega (arith, ap (λ (t : ℕ). q * t) (pow-suc 2 k))

pub half_pow : (a k : ℕ) → a / 2 ^ suc k ≡ a / 2 / 2 ^ k
half_pow a k = rw (pow-succ' 2 k) (sym (div-div-eq-div-mul a 2 (2 ^ k)))

pub xor-shl : (k a b : ℕ) → bit_xor (a * 2 ^ k) (b * 2 ^ k) ≡ bit_xor a b * 2 ^ k
xor-shl zero a b = rw (mul-one a, mul-one b, mul-one (bit_xor a b))
xor-shl (suc k) a b = omega (
  arith,
  double_pow a k,
  double_pow b k,
  double_pow (bit_xor a b) k,
  xor_half (a * 2 ^ suc k) (b * 2 ^ suc k),
  xor_low (a * 2 ^ suc k) (b * 2 ^ suc k),
  ap (λ (t : ℕ). bit_xor t (b * 2 ^ suc k / 2)) (halved a),
  ap (λ (t : ℕ). bit_xor (a * 2 ^ k) t) (halved b),
  xor-shl k a b,
)
  where
    halved : (q : ℕ) → q * 2 ^ suc k / 2 ≡ q * 2 ^ k
    halved q = omega (arith, double_pow q k)

pub xor-shr : (k a b : ℕ) → bit_xor a b / 2 ^ k ≡ bit_xor (a / 2 ^ k) (b / 2 ^ k)
xor-shr zero a b = rw (div-one a, div-one b, div-one (bit_xor a b))
xor-shr (suc k) a b =
    rw (half_pow a k, half_pow b k, half_pow (bit_xor a b) k, xor_half a b)
      (xor-shr k (a / 2) (b / 2))

-- A number below a power of two has nothing above it.
pub xor-lt : (k a b : ℕ) → a < 2 ^ k → b < 2 ^ k → bit_xor a b < 2 ^ k
xor-lt zero a b p q =
    let a_zero : a ≡ 0 = omega arith in
    let b_zero : b ≡ 0 = omega arith in rw (a_zero, b_zero) (omega arith)
xor-lt (suc k) a b p q = omega (
  arith,
  pow-suc 2 k,
  xor_step a b,
  xor-lt k (a / 2) (b / 2) (omega (arith, pow-suc 2 k)) (omega (arith, pow-suc 2 k)),
)

-- Disjoint fields.
pub xor_fields : (k q r : ℕ) → r < 2 ^ k → bit_xor (q * 2 ^ k) r ≡ q * 2 ^ k + r
xor_fields zero q r h = ground (arith, xor-zero (q * 1))
xor_fields (suc k) q r h = ground (
  arith,
  xor_step (q * 2 ^ suc k) r,
  double_pow q k,
  pow-suc 2 k,
  xor_fields k q (r / 2) (omega (arith, pow-suc 2 k)),
)

pub mod_pow : (a k : ℕ) → a % 2 ^ suc k ≡ a / 2 % 2 ^ k * 2 + a % 2
mod_pow a k = omega (
  arith,
  mod-add-div' a (2 ^ suc k),
  mod-add-div' (a / 2) (2 ^ k),
  ap (λ (t : ℕ). t * 2 ^ suc k) (half_pow a k),
  double_pow (a / 2 / 2 ^ k) k,
)

pub xor-mod : (k a b : ℕ) → bit_xor a b % 2 ^ k ≡ bit_xor (a % 2 ^ k) (b % 2 ^ k)
xor-mod zero a b = rw (mod-one a, mod-one b, mod-one (bit_xor a b), xor_self 0)
xor-mod (suc k) a b = ground (
  arith,
  mod_pow a k,
  mod_pow b k,
  mod_pow (bit_xor a b) k,
  xor_step (a % 2 ^ suc k) (b % 2 ^ suc k),
  xor_half a b,
  xor_low a b,
  xor-mod k (a / 2) (b / 2),
)
