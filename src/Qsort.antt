-- ===== src/Qsort.antt =====
-- `qsort_u32` of bench/bench.c over an array of uint32_t. The indices are int32_t in the source:
-- here an integer, which is below 0 only in the call on an empty left part.
pub mod Shuffle
pub mod Partition
pub mod Sorted
use inmojomni.Base.{ℕ, zero, suc, ◌+◌, ◌-◌, Bool, true, false, List, Option, none, some}
use inmojomni.Base.{ltb, if◌then◌else◌, get_elem?, store}

-- `negsuc n` is -(n + 1).
pub data ℤ : Type 0 where
  pos : ℕ → ℤ
  negsuc : ℕ → ℤ

-- `i - 1`
unfoldable pub pred_ℤ : ℕ → ℤ
pred_ℤ zero = negsuc 0
pred_ℤ (suc n) = pos n

abbrev pub ltb_ℤ : ℤ → ℤ → Bool
ltb_ℤ (pos a) (pos b) = ltb a b
ltb_ℤ (pos a) (negsuc b) = false
ltb_ℤ (negsuc a) (pos b) = true
ltb_ℤ (negsuc a) (negsuc b) = ltb b a

-- An access below the array is a fault, as one past its end.
abbrev pub index : ℤ → Option ℕ
index (pos n) = some n
index (negsuc n) = none

infixl 5 ◌>>=◌
abbrev pub ◌>>=◌ {ℓ κ} : {A : Type ℓ} {B : Type κ} → Option A → (A → Option B) → Option B
none >>= f = none
some a >>= f = f a

-- `uint32_t t = a[i]; a[i] = a[j]; a[j] = t;`
unfoldable pub swap : List ℕ → ℕ → ℕ → Option (List ℕ)
swap a i j = do t ← get_elem? a i; u ← get_elem? a j; a' ← store a i u; store a' j t

-- One round of the partition loop, with the pivot `p`.
unfoldable pub partition_step : ℕ → ℕ → ℕ → List ℕ → Option (ℕ × List ℕ)
partition_step p j i a = do
  x ← get_elem? a j
  if ltb x p then (swap a i j >>= λ a'. some (i + 1, a')) else some (i, a)

-- `for (j = lo; j < hi; j++)` at index `j`, with `left` rounds to go.
unfoldable pub partition_loop : ℕ → ℕ → ℕ → ℕ → List ℕ → Option (ℕ × List ℕ)
partition_loop zero p j i a = some (i, a)
partition_loop (suc left) p j i a =
    partition_step p j i a >>= λ (i', a'). partition_loop left p (j + 1) i' a'

-- Pivot, loop and the last swap: the pivot's place and the array.
unfoldable pub partition : List ℕ → ℕ → ℕ → Option (ℕ × List ℕ)
partition a lo hi = do
  p ← get_elem? a hi
  (i, b) ← partition_loop (hi - lo) p lo lo a
  c ← swap b i hi
  some (i, c)

-- The recursion, on fuel for the depth of the calls; `none` is a fault or too little fuel.
unfoldable pub qsort_u32 : ℕ → List ℕ → ℤ → ℤ → Option (List ℕ)
qsort_u32 zero a lo hi = none
qsort_u32 (suc fuel) a lo hi = elim (ltb_ℤ lo hi) [
  | false ↦ some a
  | true ↦ index lo >>= λ l. index hi >>= λ h. partition a l h >>= λ (i, b).
      qsort_u32 fuel b lo (pred_ℤ i) >>= λ c. qsort_u32 fuel c (pos (i + 1)) hi
]
