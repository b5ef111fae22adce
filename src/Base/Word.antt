-- ===== src/Base/Word.antt =====
-- uint32_t values as numbers below 2 ^ 32, with the wrap of each C operator written out.
use Prim.Native.Nat.{ℕ, ◌+◌, ◌-◌, ◌*◌, ◌/◌, ◌%◌, ◌^◌}

abbrev pub u32 : ℕ → ℕ
u32 n = n % 2 ^ 32

infixl 65 ◌+u◌ ◌-u◌
infixl 70 ◌*u◌
infixl 60 ◌<<u◌ ◌>>u◌
abbrev pub ◌+u◌ : ℕ → ℕ → ℕ
a +u b = u32 (a + b)

-- The modulus is added first, since `-` on the natural numbers stops at 0.
abbrev pub ◌-u◌ : ℕ → ℕ → ℕ
a -u b = u32 (a + 2 ^ 32 - b)

abbrev pub ◌*u◌ : ℕ → ℕ → ℕ
a *u b = u32 (a * b)

abbrev pub ◌<<u◌ : ℕ → ℕ → ℕ
a <<u k = u32 (a * 2 ^ k)

abbrev pub ◌>>u◌ : ℕ → ℕ → ℕ
a >>u k = a / 2 ^ k

-- C's `~` on a uint32_t.
abbrev pub not_u : ℕ → ℕ
not_u a = 2 ^ 32 - 1 - a
