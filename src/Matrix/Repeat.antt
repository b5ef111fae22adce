-- ===== src/Matrix/Repeat.antt =====
-- The repetitions of `bm_mat16` against a sequence that reads the products, and no `C`.
use inmojomni.Base.{ℕ, zero, suc, ◌+◌, ◌*◌, ◌/◌, ◌%◌, ◌≤◌, ◌<◌, ◌≡◌, refl, sym, ap, ◌∙◌, arith}
use inmojomni.Base.{bit_xor, ◌+u◌, List, some, get_or, set, length-set}
use inmojomni.Base.{get_elem?-eq-get_or, store-eq-set}
use inmojomni.Matrix.{Reps, rows, rep_step, reps}
use inmojomni.Matrix.Product.{product, IsMatrix, IsProduct, rows-IsProduct}

-- `A` after one repetition: entry `rep` in row order is mixed with that of the product.
abbrev pub mixed : ℕ → List ℕ → List ℕ → List ℕ
mixed rep A B = set A rep (bit_xor (get_or A rep 0) (product A B (rep / 16) (rep % 16)))

-- The checksum of `n` repetitions from `rep` on.
pub checksum : ℕ → ℕ → List ℕ → List ℕ → ℕ → ℕ
checksum zero rep A B acc = acc
checksum (suc n) rep A B acc =
    checksum n (rep + 1) (mixed rep A B) B (bit_xor acc (product A B 0 0 +u product A B 15 15))

at_rep :
    (rep : ℕ) (A B C : List ℕ) (p : IsProduct A B (rows 16 0 A B C))
    → rep < 256
    → get_or p.out rep 0 ≡ product A B (rep / 16) (rep % 16)
at_rep rep A B C p h =
    let split : rep / 16 * 16 + rep % 16 ≡ rep = omega arith in
    ap (λ t. get_or p.out t 0) (sym split)
    ∙ p.entries (rep / 16) (rep % 16) (omega arith) (omega arith)

module _ (rep : ℕ) (B : List ℕ) (s : Reps) (h : rep < 256) (hA : IsMatrix s.A)
    (p : IsProduct s.A B (rows 16 0 s.A B s.C)) where
  abbrev after : Reps
  after = record {
    A = mixed rep s.A B;
    C = p.out;
    acc = bit_xor s.acc (product s.A B 0 0 +u product s.A B 15 15);
  }

  rep_step-after : rep_step rep B s ≡ some after
  rep_step-after =
      unfold rep_step in
      rw (
        p.returns,
        get_elem?-eq-get_or s.A rep 0 (rw hA h),
        get_elem?-eq-get_or p.out rep 0 (rw (p.size) h),
        store-eq-set s.A rep (bit_xor (get_or s.A rep 0) (get_or p.out rep 0)) (rw hA h),
        get_elem?-eq-get_or p.out 0 0 (rw (p.size) (omega arith)),
        get_elem?-eq-get_or p.out 255 0 (rw (p.size) (omega arith)),
        at_rep rep s.A B s.C p h,
        p.entries 0 0 (omega arith) (omega arith),
        p.entries 15 15 (omega arith) (omega arith),
      )

-- The repetitions of `bm_mat16` on buffers of 256 words access nothing out of bounds as long as
-- they stay below 256, and their checksum is that of the products alone, so it does not depend on
-- what `C` held.
pub reps-checksum :
    (n rep : ℕ) (B : List ℕ) (s : Reps)
    → rep + n ≤ 256
    → IsMatrix s.A
    → IsMatrix B
    → IsMatrix s.C
    → (s' : Reps) × (reps n rep B s ≡ some s')
      × IsMatrix s'.A
      × IsMatrix s'.C
      × (s'.acc ≡ checksum n rep s.A B s.acc)
unfolding reps checksum
reps-checksum zero rep B s e hA hB hC = (s, refl, hA, hC, refl)
reps-checksum (suc n) rep B s e hA hB hC =
    let p = rows-IsProduct s.A B s.C hA hB hC in
    let size : IsMatrix (mixed rep s.A B) = length-set s.A rep _ ∙ hA in
    let (s', returns, sA, sC, acc) =
      reps-checksum n (rep + 1) B (after rep B s (omega arith) hA p) (omega arith) size hB p.size in
    (s', rw (rep_step-after rep B s (omega arith) hA p) returns, sA, sC, acc)
