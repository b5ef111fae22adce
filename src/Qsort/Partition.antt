-- ===== src/Qsort/Partition.antt =====
-- `partition` and its loop, of `qsort_u32` in bench/bench.c.
use native.Mathlib.Decide.{ℕ_discrete, dec_lt}
use native.Mathlib.Nat.{
  le_trans, le_refl, le_of_lt, lt_of_le_of_lt, lt_of_lt_of_le, lt_irrefl, le-add_right, ne_of_lt,
}
use mathlib.Core.Path.{subst}
use inmojomni.Base.{ℕ, zero, suc, ◌+◌, ◌-◌, ◌≤◌, ◌<◌, ◌≡◌, refl, ◌∙◌, inr, arith}
use inmojomni.Base.{List, some, Option, lt→ltb, le→ltb, length, get_elem?-eq-get_or}
use inmojomni.Qsort.{partition_step, partition_loop, partition}
use inmojomni.Qsort.Shuffle.{at, swapped, Shuffles, Shuffles-refl, Shuffles-trans, Shuffles-widen}
use inmojomni.Qsort.Shuffle.{
  swap-eq-swapped, at-swapped_fst, at-swapped_snd, at-swapped_ne, swapped-Shuffles,
}

-- Below the pivot in `[lo, i)`, not below it in `[i, j)`.
record Split (lo i j p : ℕ) (a : List ℕ) : Type 0 where
  small : (k : ℕ) → lo ≤ k → k < i → at a k < p
  large : (k : ℕ) → i ≤ k → k < j → p ≤ at a k

-- `result` is a return with the values below the pivot in `[lo, i')` and the others up to `j`.
record Ends (lo hi p i j : ℕ) (a : List ℕ) (result : Option (ℕ × List ℕ)) : Type 0 where
  i' : ℕ
  b : List ℕ
  returns : result ≡ some (i', b)
  grows : i ≤ i'
  within : i' ≤ j
  split : Split lo i' j p b
  shuffles : Shuffles lo hi a b

module _ (lo hi p : ℕ) where
  step_small :
      (j i : ℕ) (a : List ℕ)
      → lo ≤ i
      → i ≤ j
      → j < hi
      → hi ≤ length a
      → Split lo i j p a
      → at a j < p
      → Split lo (i + 1) (j + 1) p (swapped a i j)
  step_small j i a li ij jh fits s below = record {
    small = λ k q r. front k q r (ℕ_discrete i k);
    large = λ k q r. back k q r (ℕ_discrete j k);
  }
    where
      front : (k : ℕ) → lo ≤ k → k < i + 1 → Dec (i ≡ k) → at (swapped a i j) k < p
      front k q r (yes e) = rw (← e, at-swapped_fst a i j (omega arith) (omega arith)) below
      front k q r (no ne) =
          rw (at-swapped_ne a i j (omega arith) (omega arith) k ne (omega arith))
            (s.small k q (omega arith))

      back : (k : ℕ) → i + 1 ≤ k → k < j + 1 → Dec (j ≡ k) → p ≤ at (swapped a i j) k
      back k q r (yes e) =
          rw (← e, at-swapped_snd a i j (omega arith) (omega arith))
            (s.large i (omega arith) (omega arith))
      back k q r (no ne) =
          rw (at-swapped_ne a i j (omega arith) (omega arith) k (omega arith) ne)
            (s.large k (omega arith) (omega arith))

  step_large : (j i : ℕ) (a : List ℕ) → Split lo i j p a → p ≤ at a j → Split lo i (j + 1) p a
  step_large j i a s above = record {
    small = s.small;
    large = λ k q r. back k q r (ℕ_discrete j k);
  }
    where
      back : (k : ℕ) → i ≤ k → k < j + 1 → Dec (j ≡ k) → p ≤ at a k
      back k q r (yes e) = rw (← e) above
      back k q r (no ne) = s.large k q (omega arith)

  module _ (j i : ℕ) (a : List ℕ) (jh : j < hi) (fits : hi ≤ length a) (ij : i ≤ j) where
    partition_step_small : at a j < p → partition_step p j i a ≡ some (i + 1, swapped a i j)
    unfolding partition_step
    partition_step_small h = rw (
      get_elem?-eq-get_or a j 0 (omega arith),
      lt→ltb (at a j) p h,
      swap-eq-swapped a i j (omega arith) (omega arith),
    )

    partition_step_large : p ≤ at a j → partition_step p j i a ≡ some (i, a)
    unfolding partition_step
    partition_step_large h = rw (get_elem?-eq-get_or a j 0 (omega arith), le→ltb (at a j) p h)

    step-Ends : lo ≤ i → Split lo i j p a → Ends lo hi p i (j + 1) a (partition_step p j i a)
    step-Ends li s = elim (dec_lt (at a j) p) [
      | yes h ↦ record {
        i' = i + 1;
        b = swapped a i j;
        returns = partition_step_small h;
        grows = omega arith;
        within = omega arith;
        split = step_small j i a li ij jh fits s h;
        shuffles =
            swapped-Shuffles a i j (omega arith) (omega arith) lo hi li (omega arith) (omega arith)
              jh;
      }
      | no h ↦ record {
        i' = i;
        b = a;
        returns = partition_step_large (omega arith);
        grows = omega arith;
        within = omega arith;
        split = step_large j i a s (omega arith);
        shuffles = Shuffles-refl lo hi a;
      }
    ]

  loop-Ends :
      (left j i : ℕ) (a : List ℕ)
      → j + left ≡ hi
      → hi ≤ length a
      → lo ≤ i
      → i ≤ j
      → Split lo i j p a
      → Ends lo hi p i hi a (partition_loop left p j i a)
  loop-Ends zero j i a e fits li ij s = record {
    i' = i;
    b = a;
    returns = unfold partition_loop in refl;
    grows = omega arith;
    within = omega arith;
    split = let e' : j ≡ hi = omega arith in subst (λ t. Split lo i t p a) e' s;
    shuffles = Shuffles-refl lo hi a;
  }
  loop-Ends (suc left) j i a e fits li ij s =
      let now = step-Ends j i a (omega arith) fits ij li s in
      let rest =
        loop-Ends left (j + 1) now.i' now.b (omega arith) (rw (now.shuffles.same_length) fits)
          (le_trans li now.grows) now.within now.split in
      record {
        i' = rest.i';
        b = rest.b;
        returns = loops now.i' now.b now.returns ∙ rest.returns;
        grows = le_trans now.grows rest.grows;
        within = rest.within;
        split = rest.split;
        shuffles = Shuffles-trans now.shuffles rest.shuffles;
      }
    where
      loops :
          (i' : ℕ) (b : List ℕ)
          → partition_step p j i a ≡ some (i', b)
          → partition_loop (suc left) p j i a ≡ partition_loop left p (j + 1) i' b
      loops i' b r = unfold partition_loop in rw r

-- The result of `partition`: the pivot stands at `i`, with what is below it in front and the
-- rest behind.
pub record Partitions (lo hi : ℕ) (a : List ℕ) (result : Option (ℕ × List ℕ)) : Type 0 where
  pub i : ℕ
  pub c : List ℕ
  pub returns : result ≡ some (i, c)
  pub above_lo : lo ≤ i
  pub within_hi : i ≤ hi
  pub small : (k : ℕ) → lo ≤ k → k < i → at c k < at c i
  pub large : (k : ℕ) → i < k → k ≤ hi → at c i ≤ at c k
  pub shuffles : Shuffles lo (hi + 1) a c

-- The last swap, after the loop.
module _ (a : List ℕ) (lo hi : ℕ) (le : lo ≤ hi) (fits : hi < length a)
    (loop : Ends lo hi (at a hi) lo hi a (partition_loop (hi - lo) (at a hi) lo lo a)) where
  abbrev last : List ℕ
  last = swapped loop.b loop.i' hi

  length_b : hi < length loop.b
  length_b = rw (loop.shuffles.same_length) fits

  i_fits : loop.i' < length loop.b
  i_fits = lt_of_le_of_lt loop.within length_b

  pivot_kept : at loop.b hi ≡ at a hi
  pivot_kept = loop.shuffles.outside hi (inr (le_refl hi))

  pivot_placed : at last loop.i' ≡ at a hi
  pivot_placed = at-swapped_fst loop.b loop.i' hi i_fits length_b ∙ pivot_kept

  last_small : (k : ℕ) → lo ≤ k → k < loop.i' → at last k < at last loop.i'
  last_small k p q =
      rw
        (
          pivot_placed,
          at-swapped_ne loop.b loop.i' hi i_fits length_b k (λ e. lt_irrefl k (rw e at q))
              (λ e. lt_irrefl k (lt_of_lt_of_le q (rw e at loop.within))),
        )
        (loop.split.small k p q)

  last_large : (k : ℕ) → loop.i' < k → k ≤ hi → at last loop.i' ≤ at last k
  last_large k p q = rw pivot_placed (behind (ℕ_discrete hi k))
    where
      behind : Dec (hi ≡ k) → at a hi ≤ at last k
      behind (yes e) =
          rw (← e, at-swapped_snd loop.b loop.i' hi i_fits length_b)
            (loop.split.large loop.i' (le_refl _) (rw (← e) at p))
      behind (no ne) =
          rw (at-swapped_ne loop.b loop.i' hi i_fits length_b k (ne_of_lt p) ne)
            (loop.split.large k (le_of_lt p) (omega arith))

  returns_last : partition a lo hi ≡ some (loop.i', last)
  returns_last =
      unfold partition in
      rw (
        get_elem?-eq-get_or a hi 0 fits,
        loop.returns,
        swap-eq-swapped loop.b loop.i' hi i_fits length_b,
      )

  last-Partitions : Partitions lo hi a (partition a lo hi)
  last-Partitions = record {
    i = loop.i';
    c = last;
    returns = returns_last;
    above_lo = loop.grows;
    within_hi = loop.within;
    small = last_small;
    large = last_large;
    shuffles =
        Shuffles-trans
          (Shuffles-widen lo hi lo (hi + 1) (le_refl lo) (le-add_right hi 1) loop.shuffles)
          (swapped-Shuffles loop.b loop.i' hi i_fits length_b lo (hi + 1) loop.grows (omega arith)
            le (omega arith));
  }

-- `partition` of `[lo, hi]` inside the array accesses nothing out of bounds, rearranges only that
-- part, and returns the place where its pivot splits it.
pub partition-Partitions :
    (a : List ℕ) (lo hi : ℕ) → lo ≤ hi → hi < length a → Partitions lo hi a (partition a lo hi)
partition-Partitions a lo hi le fits = last-Partitions a lo hi le fits (
    loop-Ends lo hi (at a hi) (hi - lo) lo lo a (omega arith) (le_of_lt fits) (le_refl lo)
      (le_refl lo) (record { small = λ k q r. omega arith; large = λ k q r. omega arith }))
