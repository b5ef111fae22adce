-- ===== src/Scalar.antt =====
-- The loops of `bm_div`, `bm_call` and `bm_fib` in bench/bench.c.
pub mod Quotients
pub mod Fibonacci
use inmojomni.Base.{ℕ, zero, suc, ◌+◌, ◌-◌, ◌/◌, bit_or, ◌+u◌}
use inmojomni.Base.{Option, none, some, ltb, ◌==◌, if◌then◌else◌, true, false}

-- `a / b` on uint32_t; a division by 0 is a fault.
abbrev pub quotient : ℕ → ℕ → Option ℕ
quotient a b = if b == 0 then none else some (a / b)

-- `acc += 1000000u / d; d = (d + i) | 1;` at index `i`, with `left` rounds to go.
unfoldable pub div_loop : ℕ → ℕ → ℕ → ℕ → Option ℕ
div_loop zero i acc d = some acc
div_loop (suc left) i acc d = elim (quotient 1000000 d) [
  | none ↦ none
  | some q ↦ div_loop left (i + 1) (acc +u q) (bit_or (d +u i) 1)
]

unfoldable pub add_one : ℕ → ℕ
add_one x = x +u 1

-- `for (i = 0; i < n; i++) x = add_one(x);`
unfoldable pub call_loop : ℕ → ℕ → ℕ
call_loop zero x = x
call_loop (suc n) x = call_loop n (add_one x)

-- The recursion on fuel for the depth of the calls.
unfoldable pub fib : ℕ → ℕ → Option ℕ
fib zero n = none
fib (suc fuel) n = elim (ltb n 2) [
  | true ↦ some n
  | false ↦ elim (fib fuel (n - 1)) [
    | none ↦ none
    | some a ↦ elim (fib fuel (n - 2)) [ none ↦ none | some b ↦ some (a +u b) ]
  ]
]
