-- ===== src/Scalar/Quotients.antt =====
-- The divisors of `bm_div` as i * i / 2 + 1, and the count of `bm_call`, of bench/bench.c.
use native.Mathlib.Nat.{mul-le-mul}
use inmojomni.Base.{ℕ, zero, suc, ◌+◌, ◌*◌, ◌/◌, ◌%◌, ◌^◌, ◌≤◌, ◌<◌, ◌≡◌, refl, ap, ◌∙◌, arith}
use inmojomni.Base.{some, bit_or, ◌+u◌, ◌==◌, false}
use inmojomni.Bits.{or-one}
use inmojomni.Scalar.{div_loop, add_one, call_loop}

abbrev pub divisor : ℕ → ℕ
divisor i = i * i / 2 + 1

-- The quotients of a million by the divisors from `i` on, added up.
pub add_quotients : ℕ → ℕ → ℕ → ℕ
add_quotients zero i acc = acc
add_quotients (suc left) i acc = add_quotients left (i + 1) (acc +u 1000000 / divisor i)

square_parity : (i : ℕ) → i * i % 4 ≡ i % 2
square_parity zero = refl
square_parity (suc i) = omega (arith, square_parity i)

square_next : (i : ℕ) → (i + 1) * (i + 1) ≡ i * i + 2 * i + 1
square_next i = omega arith

next_divisor : (i : ℕ) → i ≤ 50000 → bit_or (divisor i +u i) 1 ≡ divisor (i + 1)
next_divisor i h =
    let bound : i * i ≤ 2500000000 = mul-le-mul h h in
    let no_wrap : divisor i +u i ≡ divisor i + i = omega arith in
    ap (λ (t : ℕ). bit_or t 1) no_wrap
    ∙ omega (arith, or-one (divisor i + i), square_parity i, square_next i)

-- The loop of `bm_div`, entered at round `i` with the divisor that round `i` meets, divides by 0 in
-- none of the rounds up to 50,000 and adds up the quotients of a million by i * i / 2 + 1.
pub div_loop-add_quotients :
    (left i acc : ℕ)
    → i + left ≤ 50000
    → div_loop left i acc (divisor i) ≡ some (add_quotients left i acc)
unfolding div_loop add_quotients
div_loop-add_quotients zero i acc h = refl
div_loop-add_quotients (suc left) i acc h =
    let not_zero : (divisor i == 0) ≡ false = ground arith in
    rw (not_zero, div_loop, next_divisor i (omega arith))
      (div_loop-add_quotients left (i + 1) (acc +u 1000000 / divisor i) (omega arith))

add_one-lt : (x : ℕ) → add_one x < 2 ^ 32
unfolding add_one
add_one-lt x = omega arith

-- The loop of `bm_call` counts its rounds, and wraps as a uint32_t does.
pub call_loop-add : (n x : ℕ) → x < 2 ^ 32 → call_loop n x ≡ (x + n) % 2 ^ 32
unfolding call_loop
call_loop-add zero x h = omega arith
call_loop-add (suc n) x h =
    call_loop-add n (add_one x) (add_one-lt x) ∙ (unfold add_one in omega arith)
