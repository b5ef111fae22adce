-- ===== src/Xorshift/Inverse.antt =====
-- `step` of bench/bench.c and its inverse on uint32_t.
use inmojomni.Base.{ℕ, zero, suc, ◌*◌, ◌^◌, ◌<◌, bit_xor, ◌<<u◌, ◌>>u◌, u32}
use inmojomni.Base.{◌≡◌, ◌≢◌, refl, sym, ap, ◌∙◌, arith}
use inmojomni.Bits.{
  xor_assoc, xor_comm, xor_self, xor-zero, zero-xor, xor-shl, xor-shr, xor-mod, xor-lt,
}
use inmojomni.Xorshift.{step, xorshift_loop}

-- One of the three lines of `step`.
left : ℕ → ℕ → ℕ
left k x = bit_xor x (x <<u k)

right : ℕ → ℕ
right x = bit_xor x (x >>u 17)

xor-shl_u : (k a b : ℕ) → bit_xor a b <<u k ≡ bit_xor (a <<u k) (b <<u k)
xor-shl_u k a b = ap u32 (sym (xor-shl k a b)) ∙ xor-mod 32 (a * 2 ^ k) (b * 2 ^ k)

xor_cancel : (a b c : ℕ) → bit_xor (bit_xor a b) (bit_xor b c) ≡ bit_xor a c
xor_cancel a b c = cc (xor_assoc a b (bit_xor b c), xor_assoc b b c, xor_self b, zero-xor c)

xor_swap_middle :
    (a b c d : ℕ) → bit_xor (bit_xor a b) (bit_xor c d) ≡ bit_xor (bit_xor a c) (bit_xor b d)
xor_swap_middle a b c d = cc (
  xor_assoc a b (bit_xor c d),
  xor_assoc b c d,
  xor_comm b c,
  xor_assoc c b d,
  xor_assoc a c (bit_xor b d),
)

left_lt : (k x : ℕ) → x < 2 ^ 32 → left k x < 2 ^ 32
unfolding left
left_lt k x h = xor-lt 32 x (x <<u k) h (omega arith)

right_lt : (x : ℕ) → x < 2 ^ 32 → right x < 2 ^ 32
unfolding right
right_lt x h = xor-lt 32 x (x >>u 17) h (omega arith)

-- Twice the same left shift is one shift by the double distance.
left_twice : (k j x : ℕ) → (x <<u k) <<u k ≡ x <<u j → left k (left k x) ≡ left j x
unfolding left
left_twice k j x e = cc (xor-shl_u k x (x <<u k), xor_cancel x (x <<u k) ((x <<u k) <<u k))

left_comm : (k j x : ℕ) → (x <<u k) <<u j ≡ (x <<u j) <<u k → left k (left j x) ≡ left j (left k x)
unfolding left
left_comm k j x e = cc (
  xor-shl_u k x (x <<u j),
  xor-shl_u j x (x <<u k),
  xor_swap_middle x (x <<u j) (x <<u k) ((x <<u j) <<u k),
)

-- A shift by 32 or more leaves nothing.
left_far : (k x : ℕ) → x <<u k ≡ 0 → left k x ≡ x
unfolding left
left_far k x e = rw e (xor-zero x)

right_twice : (x : ℕ) → x < 2 ^ 32 → right (right x) ≡ x
unfolding right
right_twice x h =
    let far : (x >>u 17) >>u 17 ≡ 0 = omega arith in
    cc (xor-shr 17 x (x >>u 17), xor_cancel x (x >>u 17) ((x >>u 17) >>u 17), xor-zero x)

-- The inverse of `left k` for `7 * k ≥ 32`, and for `3 * k ≥ 32` with two factors.
unleft_5 : ℕ → ℕ
unleft_5 x = left 20 (left 10 (left 5 x))

unleft_13 : ℕ → ℕ
unleft_13 x = left 26 (left 13 x)

-- `step` run backwards.
pub unstep : ℕ → ℕ
unstep x = unleft_13 (right (unleft_5 x))

unleft_5-left : (x : ℕ) → unleft_5 (left 5 x) ≡ x
unfolding unleft_5
unleft_5-left x =
    rw (left_twice 5 10 x (omega arith), left_twice 10 20 x (omega arith))
      (left_twice 20 40 x (omega arith) ∙ left_far 40 x (omega arith))

left-unleft_5 : (x : ℕ) → left 5 (unleft_5 x) ≡ x
unfolding unleft_5
left-unleft_5 x =
    rw (left_comm 5 20 (left 10 (left 5 x)) (omega arith), left_comm 5 10 (left 5 x) (omega arith))
      (unfold unleft_5 in unleft_5-left x)

unleft_13-left : (x : ℕ) → unleft_13 (left 13 x) ≡ x
unfolding unleft_13
unleft_13-left x =
    rw (left_twice 13 26 x (omega arith))
      (left_twice 26 52 x (omega arith) ∙ left_far 52 x (omega arith))

left-unleft_13 : (x : ℕ) → left 13 (unleft_13 x) ≡ x
unfolding unleft_13
left-unleft_13 x =
    rw (left_comm 13 26 (left 13 x) (omega arith)) (unfold unleft_13 in unleft_13-left x)

step_lines : (x : ℕ) → step x ≡ left 5 (right (left 13 x))
unfolding step left right
step_lines x = refl

pub step-lt : (x : ℕ) → x < 2 ^ 32 → step x < 2 ^ 32
step-lt x h = rw (step_lines x) (left_lt 5 _ (right_lt _ (left_lt 13 x h)))

unstep-lt : (x : ℕ) → x < 2 ^ 32 → unstep x < 2 ^ 32
unfolding unstep unleft_5 unleft_13
unstep-lt x h =
    left_lt 26 _ (left_lt 13 _ (right_lt _ (left_lt 20 _ (left_lt 10 _ (left_lt 5 x h)))))

unleft_5-lt : (x : ℕ) → x < 2 ^ 32 → unleft_5 x < 2 ^ 32
unfolding unleft_5
unleft_5-lt x h = left_lt 20 _ (left_lt 10 _ (left_lt 5 x h))

-- `unstep` undoes `step`.
pub unstep-step : (x : ℕ) → x < 2 ^ 32 → unstep (step x) ≡ x
unfolding unstep
unstep-step x h = rw (
  step_lines x,
  unleft_5-left (right (left 13 x)),
  right_twice (left 13 x) (left_lt 13 x h),
  unleft_13-left x,
)

-- `step` undoes `unstep`.
pub step-unstep : (x : ℕ) → x < 2 ^ 32 → step (unstep x) ≡ x
unfolding unstep
step-unstep x h = rw (
  step_lines (unleft_13 (right (unleft_5 x))),
  left-unleft_13 (right (unleft_5 x)),
  right_twice (unleft_5 x) (unleft_5-lt x h),
  left-unleft_5 x,
)

step_zero : step 0 ≡ 0
unfolding step
step_zero = refl

-- `step` never takes a state other than 0 to 0.
pub step-ne-zero : (x : ℕ) → x < 2 ^ 32 → x ≢ 0 → step x ≢ 0
step-ne-zero x h ne e =
    ne (sym (unstep-step x h) ∙ ap unstep (e ∙ sym step_zero) ∙ unstep-step 0 (omega arith))

pub unstep_loop : ℕ → ℕ → ℕ
unstep_loop zero x = x
unstep_loop (suc n) x = unstep (unstep_loop n x)

-- The loop of `bm_xorshift` runs through a reversible sequence of 32-bit states: its result is a
-- uint32_t, and stepping back as often from it gives the seed.
pub xorshift_loop-reversible :
    (n x : ℕ) → x < 2 ^ 32 → (xorshift_loop n x < 2 ^ 32) × (unstep_loop n (xorshift_loop n x) ≡ x)
unfolding xorshift_loop unstep_loop
xorshift_loop-reversible zero x h = (h, refl)
xorshift_loop-reversible (suc n) x h =
    let (lt, back) = xorshift_loop-reversible n (step x) (step-lt x h) in
    (lt, ap unstep back ∙ unstep-step x h)

-- From a seed other than 0 no number of steps reaches 0, the state that `step` cannot leave.
pub xorshift_loop-ne-zero : (n x : ℕ) → x < 2 ^ 32 → x ≢ 0 → xorshift_loop n x ≢ 0
unfolding xorshift_loop
xorshift_loop-ne-zero zero x h nz = nz
xorshift_loop-ne-zero (suc n) x h nz =
    xorshift_loop-ne-zero n (step x) (step-lt x h) (step-ne-zero x h nz)
