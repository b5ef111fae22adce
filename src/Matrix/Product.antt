-- ===== src/Matrix/Product.antt =====
-- The triple loop of `bm_mat16` against the matrix product modulo 2 ^ 32.
use native.Mathlib.Nat.{zero-add}
use native.Mathlib.Decide.{ℕ_discrete}
use inmojomni.Base.{ℕ, zero, suc, ◌+◌, ◌*◌, ◌^◌, ◌≤◌, ◌<◌, ◌≡◌, refl, ap, ◌∙◌, arith}
use inmojomni.Base.{u32, ◌+u◌, ◌*u◌, ◌⊎◌, inl, List, Option, some, length, get_or, set}
use inmojomni.Base.{get_elem?-eq-get_or, store-eq-set, length-set, get_or-set_self, get_or-set_ne}
use inmojomni.Matrix.{dot, row, rows}

-- The entry in row `i` and column `j`.
abbrev pub entry : List ℕ → ℕ → ℕ → ℕ
entry A i j = get_or A (i * 16 + j) 0

-- The sum of `n` products of row `i` of `A` and column `j` of `B`, from the `k`-th on.
pub sum_products : ℕ → ℕ → ℕ → ℕ → List ℕ → List ℕ → ℕ
sum_products zero k i j A B = 0
sum_products (suc n) k i j A B = entry A i k * entry B k j + sum_products n (k + 1) i j A B

-- The entry of the matrix product, as a uint32_t.
pub product : List ℕ → List ℕ → ℕ → ℕ → ℕ
product A B i j = u32 (sum_products 16 0 i j A B)

abbrev pub IsMatrix : List ℕ → Type 0
IsMatrix A = length A ≡ 256

mul_add_mod : (s x y : ℕ) → ((s +u x *u y) ≡ u32 (s + x * y))
mul_add_mod s x y = omega arith

module _ (A B : List ℕ) (hA : IsMatrix A) (hB : IsMatrix B) where
  dot_lem :
      (left k i j s : ℕ)
      → k + left ≡ 16
      → i < 16
      → j < 16
      → s < 2 ^ 32
      → dot left k i j A B s ≡ some (u32 (s + sum_products left k i j A B))
  unfolding dot sum_products
  dot_lem zero k i j s e hi hj hs = ap some (omega arith)
  dot_lem (suc left) k i j s e hi hj hs =
      rw
        (
          get_elem?-eq-get_or A (i * 16 + k) 0 (omega arith),
          get_elem?-eq-get_or B (k * 16 + j) 0 (omega arith),
        )
        (dot_lem left (k + 1) i j (s +u entry A i k *u entry B k j) (omega arith) hi hj
            (omega arith)
          ∙ ap some (omega (arith, mul_add_mod s (entry A i k) (entry B k j))))

  dot-product : (i j : ℕ) → i < 16 → j < 16 → dot 16 0 i j A B 0 ≡ some (product A B i j)
  unfolding product
  dot-product i j hi hj =
      dot_lem 16 0 i j 0 refl hi hj (omega arith)
      ∙ ap (λ (t : ℕ). some (u32 t)) (zero-add (sum_products 16 0 i j A B))

  -- Row `i` is filled in from column `j` on.
  record RowFilled (j i : ℕ) (C : List ℕ) (result : Option (List ℕ)) : Type 0 where
    out : List ℕ
    returns : result ≡ some out
    same_length : length out ≡ length C
    filled : (k : ℕ) → j ≤ k → k < 16 → entry out i k ≡ product A B i k
    kept : (m : ℕ) → (m < i * 16 + j) ⊎ (i * 16 + 16 ≤ m) → get_or out m 0 ≡ get_or C m 0

  row_step :
      (left j i : ℕ) (C : List ℕ)
      → i < 16
      → j < 16
      → IsMatrix C
      → row (suc left) j i A B C ≡ row left (j + 1) i A B (set C (i * 16 + j) (product A B i j))
  row_step left j i C hi hj hC =
      unfold row in
      rw (dot-product i j hi hj, store-eq-set C (i * 16 + j) (product A B i j) (omega arith))

  row-RowFilled :
      (left j i : ℕ) (C : List ℕ)
      → j + left ≡ 16
      → i < 16
      → IsMatrix C
      → RowFilled j i C (row left j i A B C)
  row-RowFilled zero j i C e hi hC = record {
    out = C;
    returns = unfold row in refl;
    same_length = refl;
    filled = λ k p q. absurd (omega arith);
    kept = λ m p. refl;
  }
  row-RowFilled (suc left) j i C e hi hC =
      let v = product A B i j in
      let C' = set C (i * 16 + j) v in
      let same : length C' ≡ length C = length-set C (i * 16 + j) v in
      let here : get_or C' (i * 16 + j) 0 ≡ v = get_or-set_self C (i * 16 + j) v 0 (omega arith) in
      let rest = row-RowFilled left (j + 1) i C' (omega arith) hi (same ∙ hC) in
      record {
        out = rest.out;
        returns = row_step left j i C hi (omega arith) hC ∙ rest.returns;
        same_length = rest.same_length ∙ same;
        filled = λ k p q. elim (ℕ_discrete j k) [
          | yes jk ↦ rw (← jk) (rest.kept (i * 16 + j) (inl (omega arith)) ∙ here)
          | no ne ↦ rest.filled k (omega arith) q
        ];
        kept = λ m p. rest.kept m (omega arith) ∙ get_or-set_ne C (i * 16 + j) m v 0 (omega arith);
      }

  -- Rows `i` and on are filled in.
  record Filled (i : ℕ) (C : List ℕ) (result : Option (List ℕ)) : Type 0 where
    out : List ℕ
    returns : result ≡ some out
    same_length : length out ≡ length C
    filled : (r k : ℕ) → i ≤ r → r < 16 → k < 16 → entry out r k ≡ product A B r k
    kept : (m : ℕ) → m < i * 16 → get_or out m 0 ≡ get_or C m 0

  rows_step :
      (left i : ℕ) (C C' : List ℕ)
      → row 16 0 i A B C ≡ some C'
      → rows (suc left) i A B C ≡ rows left (i + 1) A B C'
  unfolding rows
  rows_step left i C C' e = rw e

  rows-Filled :
      (left i : ℕ) (C : List ℕ) → i + left ≡ 16 → IsMatrix C → Filled i C (rows left i A B C)
  rows-Filled zero i C e hC = record {
    out = C;
    returns = unfold rows in refl;
    same_length = refl;
    filled = λ r k p q s. absurd (omega arith);
    kept = λ m p. refl;
  }
  rows-Filled (suc left) i C e hC =
      let now = row-RowFilled 16 0 i C refl (omega arith) hC in
      let rest = rows-Filled left (i + 1) now.out (omega arith) (now.same_length ∙ hC) in
      record {
        out = rest.out;
        returns = rows_step left i C now.out now.returns ∙ rest.returns;
        same_length = rest.same_length ∙ now.same_length;
        filled = λ r k p q s. elim (ℕ_discrete i r) [
          | yes ir ↦ rw (← ir) (rest.kept (i * 16 + k) (omega arith) ∙ now.filled k (omega arith) s)
          | no ne ↦ rest.filled r k (omega arith) q s
        ];
        kept = λ m p. rest.kept m (omega arith) ∙ now.kept m (inl (omega arith));
      }

-- `result` is a return with the product of `A` and `B`, entry by entry.
pub record IsProduct (A B : List ℕ) (result : Option (List ℕ)) : Type 0 where
  pub out : List ℕ
  pub returns : result ≡ some out
  pub size : IsMatrix out
  pub entries : (i j : ℕ) → i < 16 → j < 16 → entry out i j ≡ product A B i j

-- On buffers of 256 words the triple loop accesses nothing out of bounds and leaves in `C` the
-- matrix product of `A` and `B` modulo 2 ^ 32, whatever `C` held.
pub rows-IsProduct :
    (A B C : List ℕ) → IsMatrix A → IsMatrix B → IsMatrix C → IsProduct A B (rows 16 0 A B C)
rows-IsProduct A B C hA hB hC =
    let all = rows-Filled A B hA hB 16 0 C refl hC in
    record {
      out = all.out;
      returns = all.returns;
      size = all.same_length ∙ hC;
      entries = λ i j p q. all.filled i j (omega arith) p q;
    }
