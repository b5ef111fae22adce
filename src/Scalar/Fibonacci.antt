-- ===== src/Scalar/Fibonacci.antt =====
-- `fib` against the sequence of Fibonacci numbers.
use inmojomni.Base.{ℕ, zero, suc, ◌+◌, ◌-◌, ◌%◌, ◌^◌, ◌<◌, ◌≡◌, ◌∙◌, refl, ap, arith, some, ◌+u◌}
use inmojomni.Scalar.{fib}

-- The n-th Fibonacci number and the next, by n additions.
unfoldable pub pair : ℕ → ℕ × ℕ
pair zero = (0, 1)
pair (suc n) = let (a, b) = pair n in (b, a + b)

unfoldable pub fibonacci : ℕ → ℕ
fibonacci n = (pair n).0

fibonacci_step : (n : ℕ) → fibonacci (suc (suc n)) ≡ fibonacci (suc n) + fibonacci n
unfolding fibonacci pair
fibonacci_step n = omega arith

fib-step :
    (fuel n a b : ℕ)
    → fib fuel (suc n) ≡ some a
    → fib fuel n ≡ some b
    → fib (suc fuel) (suc (suc n)) ≡ some (a +u b)
unfolding fib
fib-step fuel n a b p q =
    let less_one : suc (suc n) - 1 ≡ suc n = omega arith in
    let less_two : suc (suc n) - 2 ≡ n = omega arith in
    ground (arith, ap (fib fuel) less_one, ap (fib fuel) less_two)

-- The recursive `fib` returns on fuel for n + 1 nested calls, and its result is the n-th Fibonacci
-- number as a uint32_t.
pub fib-fibonacci : (fuel n : ℕ) → n < fuel → n < 2 ^ 32 → fib fuel n ≡ some (fibonacci n % 2 ^ 32)
unfolding fib
fib-fibonacci zero n h k = absurd (omega arith)
fib-fibonacci (suc fuel) zero h k = unfold fibonacci pair in refl
fib-fibonacci (suc fuel) (suc zero) h k = unfold fibonacci pair in refl
fib-fibonacci (suc fuel) (suc (suc n)) h k =
    fib-step fuel n _ _ (fib-fibonacci fuel (suc n) (omega arith) (omega arith))
      (fib-fibonacci fuel n (omega arith) (omega arith))
    ∙ ap some (omega (arith, fibonacci_step n))
