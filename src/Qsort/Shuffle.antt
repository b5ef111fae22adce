-- ===== src/Qsort/Shuffle.antt =====
-- Rearrangements of the part `[lo, hi)` of an array.
use native.Mathlib.Decide.{dec_le, dec_lt, ℕ_discrete}
use inmojomni.Base.{ℕ, zero, suc, ◌+◌, ◌≤◌, ◌<◌, ◌≡◌, ◌≢◌, refl, sym, ap, ◌∙◌, ◌⊎◌, inl, inr, arith}
use inmojomni.Base.{List, [], ◌∷◌, some, ◌==◌, if◌then◌else◌}
use inmojomni.Base.{
  length, get_or, set, length-set, get_or-set_self, get_or-set_ne, get_elem?-eq-get_or,
}
use inmojomni.Base.{store-eq-set}
use inmojomni.Qsort.{swap}

abbrev pub at : List ℕ → ℕ → ℕ
at a i = get_or a i 0

abbrev pub one_if : ℕ → ℕ → ℕ
one_if v x = if x == v then 1 else 0

-- How often a value occurs.
pub count : ℕ → List ℕ → ℕ
count v [] = 0
count v (x ∷ xs) = one_if v x + count v xs

count-set :
    (v : ℕ) (a : List ℕ) (i w : ℕ)
    → i < length a
    → count v (set a i w) + one_if v (at a i) ≡ count v a + one_if v w
unfolding count
count-set v [] i w h = absurd (omega arith)
count-set v (x ∷ a) zero w h = omega arith
count-set v (x ∷ a) (suc i) w h = omega (arith, count-set v a i w (omega arith))

-- `b` is `a` with the part `[lo, hi)` rearranged.
pub record Shuffles (lo hi : ℕ) (a b : List ℕ) : Type 0 where
  pub same_length : length b ≡ length a
  pub outside : (j : ℕ) → (j < lo) ⊎ (hi ≤ j) → at b j ≡ at a j
  pub origin : (j : ℕ) → lo ≤ j → j < hi → (k : ℕ) × (lo ≤ k) × (k < hi) × (at b j ≡ at a k)
  pub same_count : (v : ℕ) → count v b ≡ count v a

pub Shuffles-refl : (lo hi : ℕ) (a : List ℕ) → Shuffles lo hi a a
Shuffles-refl lo hi a = record {
  same_length = refl;
  outside = λ j p. refl;
  origin = λ j p q. (j, p, q, refl);
  same_count = λ v. refl;
}

pub Shuffles-trans :
    {lo hi : ℕ} {a b c : List ℕ} → Shuffles lo hi a b → Shuffles lo hi b c → Shuffles lo hi a c
Shuffles-trans s t = record {
  same_length = t.same_length ∙ s.same_length;
  outside = λ j p. t.outside j p ∙ s.outside j p;
  origin = λ j p q.
      let (k, kp, kq, ke) = t.origin j p q in
      let (m, mp, mq, me) = s.origin k kp kq in (m, mp, mq, ke ∙ me);
  same_count = λ v. t.same_count v ∙ s.same_count v;
}

pub Shuffles-widen :
    (lo hi lo' hi' : ℕ) {a b : List ℕ}
    → lo' ≤ lo
    → hi ≤ hi'
    → Shuffles lo hi a b
    → Shuffles lo' hi' a b
Shuffles-widen lo hi lo' hi' {a} {b} below above s = record {
  same_length = s.same_length;
  outside = λ j p. s.outside j (still j p);
  origin = λ j p q. widened j p q (dec_le lo j) (dec_lt j hi);
  same_count = s.same_count;
}
  where
    Origin : ℕ → Type 0
    Origin j = (k : ℕ) × (lo' ≤ k) × (k < hi') × (at b j ≡ at a k)

    widened : (j : ℕ) → lo' ≤ j → j < hi' → Dec (lo ≤ j) → Dec (j < hi) → Origin j
    widened j p q (yes l) (yes h) =
        let (k, kp, kq, ke) = s.origin j l h in (k, omega arith, omega arith, ke)
    widened j p q (yes l) (no h) = (j, p, q, s.outside j (inr (omega arith)))
    widened j p q (no l) d = (j, p, q, s.outside j (inl (omega arith)))

    still : (j : ℕ) → (j < lo') ⊎ (hi' ≤ j) → (j < lo) ⊎ (hi ≤ j)
    still j p = omega arith

-- The swap of two elements, and that the code's three assignments make it.
abbrev pub swapped : List ℕ → ℕ → ℕ → List ℕ
swapped a i j = set (set a i (at a j)) j (at a i)

module _ (a : List ℕ) (i j : ℕ) (hi : i < length a) (hj : j < length a) where
  pub swap-eq-swapped : swap a i j ≡ some (swapped a i j)
  unfolding swap
  swap-eq-swapped = rw (
    get_elem?-eq-get_or a i 0 hi,
    get_elem?-eq-get_or a j 0 hj,
    store-eq-set a i (at a j) hi,
    store-eq-set (set a i (at a j)) j (at a i) (rw length-set hj),
  )

  pub at-swapped_snd : at (swapped a i j) j ≡ at a i
  at-swapped_snd = get_or-set_self (set a i (at a j)) j (at a i) 0 (rw length-set hj)

  pub at-swapped_fst : at (swapped a i j) i ≡ at a j
  at-swapped_fst = elim (ℕ_discrete j i) [
    | yes e ↦ ap (at (swapped a i j)) (sym e) ∙ at-swapped_snd ∙ ap (at a) (sym e)
    | no ne ↦ get_or-set_ne (set a i (at a j)) j i (at a i) 0 ne ∙ get_or-set_self a i (at a j) 0 hi
  ]

  pub at-swapped_ne : (k : ℕ) → i ≢ k → j ≢ k → at (swapped a i j) k ≡ at a k
  at-swapped_ne k ni nj = get_or-set_ne _ j k _ 0 nj ∙ get_or-set_ne a i k _ 0 ni

  -- The second read finds the same value, also where the two places are one.
  second_read : at (set a i (at a j)) j ≡ at a j
  second_read = elim (ℕ_discrete i j) [
    | yes e ↦ ap (at (set a i (at a j))) (sym e) ∙ get_or-set_self a i (at a j) 0 hi
    | no ne ↦ get_or-set_ne a i j (at a j) 0 ne
  ]

  pub count-swapped : (v : ℕ) → count v (swapped a i j) ≡ count v a
  count-swapped v = omega (
    arith,
    count-set v a i (at a j) hi,
    count-set v (set a i (at a j)) j (at a i) (rw length-set hj),
    ap (one_if v) second_read,
  )

  pub swapped-Shuffles :
      (lo e : ℕ) → lo ≤ i → i < e → lo ≤ j → j < e → Shuffles lo e a (swapped a i j)
  swapped-Shuffles lo e li ie lj je = record {
    same_length = length-set (set a i (at a j)) j (at a i) ∙ length-set a i (at a j);
    outside = λ k p. at-swapped_ne k (λ q. elsewhere k p li ie q) (λ q. elsewhere k p lj je q);
    origin = λ k p q. place k p q (ℕ_discrete i k) (ℕ_discrete j k);
    same_count = count-swapped;
  }
    where
      elsewhere : (k : ℕ) {m : ℕ} → (k < lo) ⊎ (e ≤ k) → lo ≤ m → m < e → m ≡ k → ⊥
      elsewhere k p lm me q = omega arith

      place :
          (k : ℕ)
          → lo ≤ k
          → k < e
          → Dec (i ≡ k)
          → Dec (j ≡ k)
          → (m : ℕ) × (lo ≤ m) × (m < e) × (at (swapped a i j) k ≡ at a m)
      place k p q (yes ei) dj = (j, lj, je, ap (at (swapped a i j)) (sym ei) ∙ at-swapped_fst)
      place k p q (no ni) (yes ej) = (i, li, ie, ap (at (swapped a i j)) (sym ej) ∙ at-swapped_snd)
      place k p q (no ni) (no nj) = (k, p, q, at-swapped_ne k ni nj)
