-- ===== src/Bits/Mask.antt =====
-- `&` and `|` with the constant masks of the programs.
use native.Mathlib.Nat.{pow-suc, one-le-pow, div-one, mod-one}
use inmojomni.Base.{ℕ, zero, suc, ◌+◌, ◌-◌, ◌*◌, ◌/◌, ◌%◌, ◌^◌, ◌≤◌, bit_and, bit_or}
use inmojomni.Base.{◌≡◌, refl, arith}
use inmojomni.Bits.Digits.{and_step, or_step}
use inmojomni.Bits.Xor.{mod_pow, half_pow}

and_zero_below : (n a : ℕ) → a ≤ n → bit_and a 0 ≡ 0
and_zero_below n zero h = refl
and_zero_below zero (suc a) h = absurd (omega arith)
and_zero_below (suc n) (suc a) h =
    omega (arith, and_step (suc a) 0, and_zero_below n (suc a / 2) (omega arith))

pub and-zero : (a : ℕ) → bit_and a 0 ≡ 0
and-zero a = and_zero_below a a (omega arith)

or_zero_below : (n a : ℕ) → a ≤ n → bit_or a 0 ≡ a
or_zero_below n zero h = refl
or_zero_below zero (suc a) h = absurd (omega arith)
or_zero_below (suc n) (suc a) h =
    omega (arith, or_step (suc a) 0, or_zero_below n (suc a / 2) (omega arith))

pub or-zero : (a : ℕ) → bit_or a 0 ≡ a
or-zero a = or_zero_below a a (omega arith)

-- The mask of the `k` lowest bits is the remainder by `2 ^ k`.
pub and-mask : (k a : ℕ) → bit_and a (2 ^ k - 1) ≡ a % 2 ^ k
and-mask zero a = rw (and-zero a) (omega arith)
and-mask (suc k) a = ground (
  arith,
  and_step a (2 ^ suc k - 1),
  pow-suc 2 k,
  one-le-pow k 2,
  mod_pow a k,
  and-mask k (a / 2),
)

-- The lowest bit: `a & 1` and `a | 1`.
pub and-one : (a : ℕ) → bit_and a 1 ≡ a % 2
and-one a = and-mask 1 a

pub or-one : (a : ℕ) → bit_or a 1 ≡ a / 2 * 2 + 1
or-one a = omega (arith, or_step a 1, or-zero (a / 2))

-- Both operations above and below a bit position.
pub and_half : (a b : ℕ) → bit_and a b / 2 ≡ bit_and (a / 2) (b / 2)
and_half a b = omega (arith, and_step a b)

pub and-shr : (k a b : ℕ) → bit_and a b / 2 ^ k ≡ bit_and (a / 2 ^ k) (b / 2 ^ k)
and-shr zero a b = rw (div-one a, div-one b, div-one (bit_and a b))
and-shr (suc k) a b =
    rw (half_pow a k, half_pow b k, half_pow (bit_and a b) k, and_half a b)
      (and-shr k (a / 2) (b / 2))

pub and-mod : (k a b : ℕ) → bit_and a b % 2 ^ k ≡ bit_and (a % 2 ^ k) (b % 2 ^ k)
and-mod zero a b = rw (mod-one a, mod-one b, mod-one (bit_and a b))
and-mod (suc k) a b = ground (
  arith,
  mod_pow a k,
  mod_pow b k,
  mod_pow (bit_and a b) k,
  and_step (a % 2 ^ suc k) (b % 2 ^ suc k),
  and_step a b,
  and_half a b,
  and-mod k (a / 2) (b / 2),
)

pub or_half : (a b : ℕ) → bit_or a b / 2 ≡ bit_or (a / 2) (b / 2)
or_half a b = omega (arith, or_step a b)

pub or-shr : (k a b : ℕ) → bit_or a b / 2 ^ k ≡ bit_or (a / 2 ^ k) (b / 2 ^ k)
or-shr zero a b = rw (div-one a, div-one b, div-one (bit_or a b))
or-shr (suc k) a b =
    rw (half_pow a k, half_pow b k, half_pow (bit_or a b) k, or_half a b) (or-shr k (a / 2) (b / 2))

pub or-mod : (k a b : ℕ) → bit_or a b % 2 ^ k ≡ bit_or (a % 2 ^ k) (b % 2 ^ k)
or-mod zero a b = rw (mod-one a, mod-one b, mod-one (bit_or a b))
or-mod (suc k) a b = ground (
  arith,
  mod_pow a k,
  mod_pow b k,
  mod_pow (bit_or a b) k,
  or_step (a % 2 ^ suc k) (b % 2 ^ suc k),
  or_step a b,
  or_half a b,
  or-mod k (a / 2) (b / 2),
)
