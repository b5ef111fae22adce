-- ===== src/IrqLatency/Samples.antt =====
-- The statistics of a run of bench/irq_latency.c against the list of its samples.
use inmojomni.Base.{ℕ, ◌+◌, ◌%◌, ◌^◌, ◌≤◌, ◌<◌, ◌≡◌, refl, ◌∙◌, arith, ◌⊎◌, inl, inr}
use inmojomni.Base.{List, [], ◌∷◌, IsIn}
use inmojomni.IrqLatency.{Stats, no_samples, add_sample}

-- The statistics after a list of samples, in order.
unfoldable pub add_samples : List ℕ → Stats → Stats
add_samples [] st = st
add_samples (n ∷ ns) st = add_samples ns (add_sample n st)

unfoldable pub total_of : List ℕ → ℕ
total_of [] = 0
total_of (n ∷ ns) = n + total_of ns

-- Every element has the property.
abbrev pub AllOf : (ℕ → Type 0) → List ℕ → Type 0
AllOf p [] = Unit {0}
AllOf p (n ∷ ns) = p n × AllOf p ns

abbrev pub AllWords : List ℕ → Type 0
AllWords [] = Unit {0}
AllWords (n ∷ ns) = (n < 2 ^ 32) × AllWords ns

-- What `st` becomes after `ns`.
record Summary (ns : List ℕ) (st out : Stats) : Type 0 where
  mn_bound : (x : ℕ) → IsIn x ns → out.mn ≤ x
  mn_start : out.mn ≤ st.mn
  mn_attained : IsIn out.mn ns ⊎ (out.mn ≡ st.mn)
  mx_bound : (x : ℕ) → IsIn x ns → x ≤ out.mx
  mx_start : st.mx ≤ out.mx
  mx_attained : IsIn out.mx ns ⊎ (out.mx ≡ st.mx)
  sum : out.sum ≡ (st.sum + total_of ns) % 2 ^ 32

add_sample-mn :
    (n : ℕ) (st : Stats)
    → ((add_sample n st).mn ≤ n)
      × ((add_sample n st).mn ≤ st.mn)
      × (((add_sample n st).mn ≡ n) ⊎ ((add_sample n st).mn ≡ st.mn))
unfolding add_sample
add_sample-mn n st = (ground arith, ground arith, ground arith)

add_sample-mx :
    (n : ℕ) (st : Stats)
    → (n ≤ (add_sample n st).mx)
      × (st.mx ≤ (add_sample n st).mx)
      × (((add_sample n st).mx ≡ n) ⊎ ((add_sample n st).mx ≡ st.mx))
unfolding add_sample
add_sample-mx n st = (ground arith, ground arith, ground arith)

add_sample-sum : (n : ℕ) (st : Stats) → (add_sample n st).sum < 2 ^ 32
unfolding add_sample
add_sample-sum n st = omega arith

module _ (n : ℕ) (ns : List ℕ) (st : Stats)
    (rest : Summary ns (add_sample n st) (add_samples ns (add_sample n st))) where
  abbrev out : Stats
  out = add_samples ns (add_sample n st)

  mn_next : (x : ℕ) → IsIn x (n ∷ ns) → out.mn ≤ x
  mn_next x (inl e) = omega (arith, rest.mn_start, add_sample-mn n st)
  mn_next x (inr i) = rest.mn_bound x i

  mx_next : (x : ℕ) → IsIn x (n ∷ ns) → x ≤ out.mx
  mx_next x (inl e) = omega (arith, rest.mx_start, add_sample-mx n st)
  mx_next x (inr i) = rest.mx_bound x i

  mn_from :
      IsIn out.mn ns ⊎ (out.mn ≡ (add_sample n st).mn) → IsIn out.mn (n ∷ ns) ⊎ (out.mn ≡ st.mn)
  mn_from (inl i) = inl (inr i)
  mn_from (inr e) = elim (add_sample-mn n st).2 [ inl p ↦ inl (inl (e ∙ p)) | inr p ↦ inr (e ∙ p) ]

  mx_from :
      IsIn out.mx ns ⊎ (out.mx ≡ (add_sample n st).mx) → IsIn out.mx (n ∷ ns) ⊎ (out.mx ≡ st.mx)
  mx_from (inl i) = inl (inr i)
  mx_from (inr e) = elim (add_sample-mx n st).2 [ inl p ↦ inl (inl (e ∙ p)) | inr p ↦ inr (e ∙ p) ]

  sum_next : out.sum ≡ (st.sum + (n + total_of ns)) % 2 ^ 32
  unfolding add_sample
  sum_next = rest.sum ∙ omega arith

  Summary-next : Summary (n ∷ ns) st out
  unfolding total_of
  Summary-next = record {
    mn_bound = mn_next;
    mn_start = omega (arith, rest.mn_start, add_sample-mn n st);
    mn_attained = mn_from rest.mn_attained;
    mx_bound = mx_next;
    mx_start = omega (arith, rest.mx_start, add_sample-mx n st);
    mx_attained = mx_from rest.mx_attained;
    sum = sum_next;
  }

add_samples_lem : (ns : List ℕ) (st : Stats) → st.sum < 2 ^ 32 → Summary ns st (add_samples ns st)
unfolding add_samples total_of
add_samples_lem [] st h = record {
  mn_bound = λ x e. absurd e;
  mn_start = omega arith;
  mn_attained = inr refl;
  mx_bound = λ x e. absurd e;
  mx_start = omega arith;
  mx_attained = inr refl;
  sum = omega arith;
}
add_samples_lem (n ∷ ns) st h =
    Summary-next n ns st (add_samples_lem ns (add_sample n st) (add_sample-sum n st))

-- The statistics of a run, which starts with mn = 0xFFFFFFFF, mx = 0 and sum = 0, over at least one
-- uint32_t sample: `mn` is the least of the samples, `mx` the greatest, and `sum` their sum modulo
-- 2 ^ 32.
pub add_samples-least-greatest :
    (n : ℕ) (ns : List ℕ)
    → AllWords (n ∷ ns)
    → (let out = add_samples (n ∷ ns) no_samples in
        IsIn out.mn (n ∷ ns)
        × IsIn out.mx (n ∷ ns)
        × ((x : ℕ) → IsIn x (n ∷ ns) → (out.mn ≤ x) × (x ≤ out.mx))
        × (out.sum ≡ total_of (n ∷ ns) % 2 ^ 32))
unfolding no_samples
add_samples-least-greatest n ns words =
    let all = add_samples_lem (n ∷ ns) no_samples (omega arith) in
    (
      least all.mn_attained (all.mn_bound n (inl refl)),
      greatest all.mx_attained (all.mx_bound n (inl refl)),
      λ x i. (all.mn_bound x i, all.mx_bound x i),
      all.sum ∙ omega arith,
    )
  where
    least : {x : ℕ} → IsIn x (n ∷ ns) ⊎ (x ≡ 0xFFFFFFFF) → x ≤ n → IsIn x (n ∷ ns)
    least (inl i) le = i
    least (inr e) le = inl (omega (arith, words.0))

    greatest : {x : ℕ} → IsIn x (n ∷ ns) ⊎ (x ≡ 0) → n ≤ x → IsIn x (n ∷ ns)
    greatest (inl i) le = i
    greatest (inr e) le = inl (omega arith)
