-- ===== src/Qsort/Sorted.antt =====
-- `qsort_u32` of bench/bench.c against ascending order, by induction on the depth of its calls.
use native.Mathlib.Nat.{le_trans, le_refl, le_of_lt, lt_of_le_of_lt, le-add_right}
use native.Mathlib.Numerals.{add-one}
use native.Mathlib.Decide.{dec_lt, ℕ_discrete}
use mathlib.Core.Path.{subst}
use inmojomni.Base.{ℕ, zero, suc, ◌+◌, ◌-◌, ◌≤◌, ◌<◌, ◌≡◌, refl, sym, ◌∙◌, inl, inr, arith}
use inmojomni.Base.{List, Option, some, length, lt→ltb, le→ltb}
use inmojomni.Qsort.{pos, pred_ℤ, qsort_u32, partition}
use inmojomni.Qsort.Shuffle.{at, Shuffles, Shuffles-refl, Shuffles-trans, Shuffles-widen}
use inmojomni.Qsort.Partition.{Partitions, partition-Partitions}

abbrev pub IsSortedOn : ℕ → ℕ → List ℕ → Type 0
IsSortedOn lo hi a = (i j : ℕ) → lo ≤ i → i ≤ j → j < hi → at a i ≤ at a j

-- `result` is a return with the part `[lo, hi)` in ascending order, the same values in it, and
-- the rest untouched.
pub record Sorts (lo hi : ℕ) (a : List ℕ) (result : Option (List ℕ)) : Type 0 where
  pub out : List ℕ
  pub returns : result ≡ some out
  pub sorted : IsSortedOn lo hi out
  pub shuffles : Shuffles lo hi a out

-- Both sorted parts, with the pivot between them, are one sorted part.
module _ (lo hi i : ℕ) (c d e : List ℕ) (above : lo ≤ i) (within : i ≤ hi)
    (small : (k : ℕ) → lo ≤ k → k < i → at c k < at c i)
    (large : (k : ℕ) → i < k → k ≤ hi → at c i ≤ at c k) (front : Shuffles lo i c d)
    (front_sorted : IsSortedOn lo i d) (back : Shuffles (i + 1) (hi + 1) d e)
    (back_sorted : IsSortedOn (i + 1) (hi + 1) e) where
  pivot_e : at e i ≡ at c i
  pivot_e = back.outside i (inl (omega arith)) ∙ front.outside i (inr (le_refl i))

  e_front : (k : ℕ) → k < i → at e k ≡ at d k
  e_front k p = back.outside k (inl (omega arith))

  small_e : (k : ℕ) → lo ≤ k → k < i → at e k ≤ at c i
  small_e k p q =
      let (m, mp, mq, me) = front.origin k p q in rw (e_front k q, me) (le_of_lt (small m mp mq))

  large_e : (k : ℕ) → i < k → k ≤ hi → at c i ≤ at e k
  large_e k p q =
      let (m, mp, mq, me) = back.origin k (omega arith) (omega arith) in
      rw (me, front.outside m (inr (omega arith))) (large m (omega arith) (omega arith))

  join_sorted : IsSortedOn lo (hi + 1) e
  join_sorted j k p q r = elim (dec_lt k i) [
    | yes ki ↦ rw (e_front k ki, e_front j (lt_of_le_of_lt q ki)) (front_sorted j k p q ki)
    | no nk ↦ elim (dec_lt j i) [
      | yes ji ↦ le_trans (small_e j p ji) (from_pivot k (omega arith) (omega arith))
      | no nj ↦ elim (ℕ_discrete i j) [
        | yes ij ↦ rw (← ij, pivot_e) (from_pivot k (omega arith) (omega arith))
        | no nij ↦ back_sorted j k (omega arith) q r
      ]
    ]
  ]
    where
      from_pivot : (k : ℕ) → i ≤ k → k ≤ hi → at c i ≤ at e k
      from_pivot k p q = elim (ℕ_discrete i k) [
        | yes ik ↦ rw (← ik, pivot_e) (le_refl _)
        | no nik ↦ large_e k (omega arith) q
      ]

-- A part of at most one element is sorted as it is.
Sorts-short :
    (lo hi : ℕ) (a : List ℕ) (r : Option (List ℕ)) → hi ≤ lo + 1 → r ≡ some a → Sorts lo hi a r
Sorts-short lo hi a r short e = record {
  out = a;
  returns = e;
  sorted = λ i j p q s. let same : i ≡ j = omega arith in rw same (le_refl _);
  shuffles = Shuffles-refl lo hi a;
}

-- One call that partitions, from what its two calls do.
module _ (fuel lo hi : ℕ) (a : List ℕ) (lt : lo < hi)
    (split : Partitions lo hi a (partition a lo hi))
    (front : Sorts lo split.i split.c (qsort_u32 fuel split.c (pos lo) (pred_ℤ split.i)))
    (back : Sorts
      (split.i + 1)
      (hi + 1)
      front.out
      (qsort_u32 fuel front.out (pos (split.i + 1)) (pos hi))) where
  call_returns : qsort_u32 (suc fuel) a (pos lo) (pos hi) ≡ some back.out
  call_returns =
      unfold qsort_u32 in
      rw (lt→ltb lo hi lt, qsort_u32, split.returns, front.returns, back.returns)

  call_sorts : Sorts lo (hi + 1) a (qsort_u32 (suc fuel) a (pos lo) (pos hi))
  call_sorts = record {
    out = back.out;
    returns = call_returns;
    sorted =
        join_sorted lo hi split.i split.c front.out back.out split.above_lo split.within_hi
          split.small split.large front.shuffles front.sorted back.shuffles back.sorted;
    shuffles = Shuffles-trans split.shuffles (
        Shuffles-trans
          (Shuffles-widen lo split.i lo (hi + 1) (le_refl lo)
            (le_trans split.within_hi (le-add_right hi 1)) front.shuffles)
          (Shuffles-widen (split.i + 1) (hi + 1) lo (hi + 1)
            (le_trans split.above_lo (le-add_right split.i 1)) (le_refl _) back.shuffles));
  }

-- The part is `[lo, end)`, so that the last index is `end - 1`, also where that is -1.
abbrev SortsParts : ℕ → Type 0
SortsParts fuel =
    (lo end : ℕ) (a : List ℕ)
    → end ≤ length a
    → end - lo < fuel
    → Sorts lo end a (qsort_u32 fuel a (pos lo) (pred_ℤ end))

call_sorts_parts :
    (fuel lo hi : ℕ) (a : List ℕ)
    → lo < hi
    → hi < length a
    → hi - lo < fuel
    → SortsParts fuel
    → Partitions lo hi a (partition a lo hi)
    → Sorts lo (hi + 1) a (qsort_u32 (suc fuel) a (pos lo) (pos hi))
unfolding pred_ℤ
call_sorts_parts fuel lo hi a lt fits enough parts split =
    call_sorts fuel lo hi a lt split (front split) (back split (front split))
  where
    front :
        (s : Partitions lo hi a (partition a lo hi))
        → Sorts lo s.i s.c (qsort_u32 fuel s.c (pos lo) (pred_ℤ s.i))
    front s =
        let same : length s.c ≡ length a = s.shuffles.same_length in
        let within : s.i ≤ hi = s.within_hi in parts lo s.i s.c (omega arith) (omega arith)

    back :
        (s : Partitions lo hi a (partition a lo hi))
        (f : Sorts lo s.i s.c (qsort_u32 fuel s.c (pos lo) (pred_ℤ s.i)))
        → Sorts (s.i + 1) (hi + 1) f.out (qsort_u32 fuel f.out (pos (s.i + 1)) (pos hi))
    back s f =
        let same : length f.out ≡ length a = f.shuffles.same_length ∙ s.shuffles.same_length in
        let above : lo ≤ s.i = s.above_lo in
        subst (λ t. Sorts (s.i + 1) t f.out (qsort_u32 fuel f.out (pos (s.i + 1)) (pos hi)))
          (sym (add-one hi)) (parts (s.i + 1) (suc hi) f.out (omega arith) (omega arith))

sorts_part : (fuel : ℕ) → SortsParts fuel
unfolding pred_ℤ
sorts_part zero lo end a fits enough = absurd (omega arith)
sorts_part (suc fuel) lo zero a fits enough =
    Sorts-short lo 0 a _ (omega arith) (unfold qsort_u32 pred_ℤ in refl)
sorts_part (suc fuel) lo (suc hi) a fits enough = elim (dec_lt lo hi) [
  | no nlt ↦
      Sorts-short lo (suc hi) a _ (omega arith)
        (unfold qsort_u32 pred_ℤ in rw (le→ltb lo hi (omega arith), qsort_u32))
  | yes lt ↦
      subst (λ t. Sorts lo t a (qsort_u32 (suc fuel) a (pos lo) (pos hi))) (add-one hi)
        (call_sorts_parts fuel lo hi a lt fits (omega arith) (sorts_part fuel)
          (partition-Partitions a lo hi (le_of_lt lt) fits))
]

-- `qsort_u32(a, lo, hi)` with `hi` inside the array returns whenever the fuel is above the length of
-- the part: it accesses nothing out of bounds, and leaves `a[lo..hi]` in
-- ascending order, with the same values as before as often, and the rest of the array untouched.
pub qsort_u32-Sorts :
    (fuel lo hi : ℕ) (a : List ℕ)
    → hi < length a
    → hi + 1 - lo < fuel
    → Sorts lo (hi + 1) a (qsort_u32 fuel a (pos lo) (pos hi))
qsort_u32-Sorts fuel lo hi a fits enough =
    subst (λ t. Sorts lo t a (qsort_u32 fuel a (pos lo) (pos hi))) (sym (add-one hi))
      (unfold pred_ℤ in sorts_part fuel lo (suc hi) a fits (omega arith))
