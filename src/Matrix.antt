-- ===== src/Matrix.antt =====
-- `bm_mat16` of bench/bench.c: 16 x 16 matrices in row order.
pub mod Product
pub mod Repeat
use inmojomni.Base.{ℕ, zero, suc, ◌+◌, ◌*◌, bit_xor, ◌+u◌, ◌*u◌}
use inmojomni.Base.{List, Option, none, some, get_elem?, store}

infixl 5 ◌>>=◌
abbrev pub ◌>>=◌ {ℓ κ} : {A : Type ℓ} {B : Type κ} → Option A → (A → Option B) → Option B
none >>= f = none
some a >>= f = f a

-- `for (k = 0; k < 16; k++) s += A[i * 16 + k] * B[k * 16 + j];`
unfoldable pub dot : ℕ → ℕ → ℕ → ℕ → List ℕ → List ℕ → ℕ → Option ℕ
dot zero k i j A B s = some s
dot (suc left) k i j A B s = get_elem? A (i * 16 + k) >>= λ a.
    get_elem? B (k * 16 + j) >>= λ b. dot left (k + 1) i j A B (s +u a *u b)

-- `C[i * 16 + j] = s;` for each `j`
unfoldable pub row : ℕ → ℕ → ℕ → List ℕ → List ℕ → List ℕ → Option (List ℕ)
row zero j i A B C = some C
row (suc left) j i A B C =
    dot 16 0 i j A B 0 >>= λ s. store C (i * 16 + j) s >>= λ C'. row left (j + 1) i A B C'

-- and for each `i`
unfoldable pub rows : ℕ → ℕ → List ℕ → List ℕ → List ℕ → Option (List ℕ)
rows zero i A B C = some C
rows (suc left) i A B C = row 16 0 i A B C >>= λ C'. rows left (i + 1) A B C'

-- `A[rep] ^= C[rep]; acc ^= C[0] + C[255];` after each product.
pub record Reps : Type 0 where
  pub A : List ℕ
  pub C : List ℕ
  pub acc : ℕ

unfoldable pub rep_step : ℕ → List ℕ → Reps → Option Reps
rep_step rep B s = do
  C' ← rows 16 0 s.A B s.C
  a ← get_elem? s.A rep
  c ← get_elem? C' rep
  A' ← store s.A rep (bit_xor a c)
  first ← get_elem? C' 0
  last ← get_elem? C' 255
  some (record { A = A'; C = C'; acc = bit_xor s.acc (first +u last) })

-- `for (rep = 0; rep < n; rep++)`
unfoldable pub reps : ℕ → ℕ → List ℕ → Reps → Option Reps
reps zero rep B s = some s
reps (suc left) rep B s = rep_step rep B s >>= λ s'. reps left (rep + 1) B s'
