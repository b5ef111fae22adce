-- ===== src/IrqLatency/Interrupts/Host.antt =====
-- What a host reads in SRAM after the runs of bench/irq_latency.c.
use mathlib.Core.Path.{subst}
use inmojomni.Base.{
  ℕ, zero, suc, ◌+◌, ◌*◌, ◌≤◌, ◌<◌, ◌≡◌, ◌≢◌, ◌%◌, refl, sym, ap, ◌∙◌, arith, inl, inr,
}
use inmojomni.Base.{List, [], ◌∷◌, length, some, get_elem?, ◌+u◌, ◌*u◌}
use inmojomni.Machine.{InSram}
use inmojomni.IrqLatency.{irq_count, no_samples}
use inmojomni.IrqLatency.Samples.{add_samples, AllOf}
use inmojomni.IrqLatency.Interrupts.Quiet.{put}
use inmojomni.IrqLatency.Interrupts.Images.{put_samples, put_stats, put_runs, AllRuns}
use inmojomni.IrqLatency.Interrupts.Lookup.{
  put_ne, put_at, last-ne, last_sample, second-keeps, first_sample, put_stats-ne,
}

-- The three words of run `r` are the statistics of the samples.
abbrev pub HasStats : (ℕ → ℕ) → ℕ → List ℕ → Type 0
HasStats w r vs =
    let st = add_samples vs no_samples in
    (w (0x20030030 + 12 * r) ≡ st.mn)
    × (w (0x20030034 + 12 * r) ≡ st.mx)
    × (w (0x20030038 + 12 * r) ≡ st.sum)

put_stats-HasStats :
    (r : ℕ) (vs : List ℕ) (w : ℕ → ℕ)
    → r < 3
    → HasStats (put_stats r (add_samples vs no_samples) w) r vs
put_stats-HasStats r vs w small =
    let base = 0x20030030 +u 12 *u r in
    let st = add_samples vs no_samples in
    let w1 = put base st.mn w in
    let w2 = put (base +u 4) st.mx w1 in
    (
      put_ne (base +u 8) st.sum (0x20030030 + 12 * r) w2 (omega arith)
          ∙ put_ne (base +u 4) st.mx (0x20030030 + 12 * r) w1 (omega arith)
          ∙ put_at base st.mn (0x20030030 + 12 * r) w (omega arith),
      put_ne (base +u 8) st.sum (0x20030034 + 12 * r) w2 (omega arith)
          ∙ put_at (base +u 4) st.mx (0x20030034 + 12 * r) w1 (omega arith),
      put_at (base +u 8) st.sum (0x20030038 + 12 * r) w2 (omega arith),
    )

HasStats-same :
    (r : ℕ) (vs : List ℕ) (w w' : ℕ → ℕ)
    → ((x : ℕ) → 0x20030030 + 12 * r ≤ x → x < 0x2003003C + 12 * r → x % 4 ≡ 0 → w' x ≡ w x)
    → HasStats w r vs
    → HasStats w' r vs
HasStats-same r vs w w' same (mn, mx, sum) = (
  same (0x20030030 + 12 * r) (omega arith) (omega arith) (omega arith) ∙ mn,
  same (0x20030034 + 12 * r) (omega arith) (omega arith) (omega arith) ∙ mx,
  same (0x20030038 + 12 * r) (omega arith) (omega arith) (omega arith) ∙ sum,
)

first_present :
    (us : List ℕ) (w : ℕ → ℕ)
    → length us ≡ 10000
    → get_elem? us 0 ≡ some (put_samples 0 0 us w 0x20030018)
first_present [] w h = absurd (omega arith)
first_present (u ∷ us) w h = ap some (sym (first_sample (u ∷ us) u w refl))

-- The words at 0x20010000, from the one numbered `i` on.
unfoldable pub read_samples : (ℕ → ℕ) → ℕ → ℕ → List ℕ
read_samples w zero i = []
read_samples w (suc left) i = w (0x20010000 + 4 * i) ∷ read_samples w left (i + 1)

read_samples-put_samples :
    (vs : List ℕ) (i : ℕ) (w : ℕ → ℕ)
    → i + length vs ≤ 10000
    → read_samples (put_samples 2 i vs w) (length vs) i ≡ vs
unfolding read_samples
read_samples-put_samples [] i w fits = refl
read_samples-put_samples (v ∷ vs) i w fits =
    let later = put (0x20010000 +u 4 *u i) v w in
    let place : 0x20010000 + 4 * i ≡ 0x20010000 + 4 * (i + 0) = omega arith in
    let here = ap (put_samples 2 (i + 1) vs later) place ∙ last_sample (v ∷ vs) i 0 v w fits refl in
    ap (λ x. x ∷ read_samples (put_samples 2 (i + 1) vs later) (length vs) (i + 1)) here
    ∙ ap (λ l. v ∷ l) (read_samples-put_samples vs (i + 1) later (omega arith))

read_samples-same :
    (w w' : ℕ → ℕ) (left i : ℕ)
    → i + left ≤ 10000
    → ((j : ℕ) → j < 10000 → w' (0x20010000 + 4 * j) ≡ w (0x20010000 + 4 * j))
    → read_samples w' left i ≡ read_samples w left i
unfolding read_samples
read_samples-same w w' zero i fits same = refl
read_samples-same w w' (suc left) i fits same =
    ap (λ x. x ∷ read_samples w' left (i + 1)) (same i (omega arith))
    ∙ ap (λ l. w (0x20010000 + 4 * i) ∷ l) (read_samples-same w w' left (i + 1) (omega arith) same)

-- What a host finds: the statistics of the last run are those of the samples that are there, and those
-- of the other runs are of 10,000 samples each, the first of which is in its place. `p` holds of all of
-- the samples.
pub record HostReads (p : ℕ → Type 0) (w : ℕ → ℕ) : Type 0 where
  pub first_run : List ℕ
  pub second_run : List ℕ
  pub first_whole : length first_run ≡ 10000
  pub second_whole : length second_run ≡ 10000
  pub first_samples : AllOf p first_run
  pub second_samples : AllOf p second_run
  pub last_samples : AllOf p (read_samples w 10000 0)
  pub first_sample : get_elem? first_run 0 ≡ some (w 0x20030018)
  pub first_stats : HasStats w 0 first_run
  pub second_stats : HasStats w 1 second_run
  pub last_stats : HasStats w 2 (read_samples w 10000 0)

three-HostReads :
    (p : ℕ → Type 0) (us ts vs : List ℕ) (w : ℕ → ℕ)
    → length us ≡ 10000
    → length ts ≡ 10000
    → length vs ≡ 10000
    → AllOf p us
    → AllOf p ts
    → AllOf p vs
    → HostReads p (put_runs 0 (us ∷ ts ∷ vs ∷ []) w)
unfolding put_runs
three-HostReads p us ts vs w many0 many1 many2 all0 all1 all2 =
    let st0 = add_samples us no_samples in
    let st1 = add_samples ts no_samples in
    let st2 = add_samples vs no_samples in
    let w0 = put_samples 0 0 us w in
    let w1 = put_stats 0 st0 w0 in
    let w2 = put_samples 1 0 ts w1 in
    let w3 = put_stats 1 st1 w2 in
    let w4 = put_samples 2 0 vs w3 in
    let there =
      read_samples-same w4 (put_stats 2 st2 w4) 10000 0 (omega arith)
        (λ j lt. put_stats-ne 2 (0x20010000 + 4 * j) st2 w4 (omega arith) (inl (omega arith)))
      ∙ ap (λ n. read_samples w4 n 0) (sym many2)
      ∙ read_samples-put_samples vs 0 w3 (omega arith) in
    record {
      first_run = us;
      second_run = ts;
      first_whole = many0;
      second_whole = many1;
      first_samples = all0;
      second_samples = all1;
      last_samples = subst (λ l. AllOf p l) (sym there) all2;
      first_sample =
          first_present us w many0
          ∙ ap some (
              sym (
                put_stats-ne 2 0x20030018 st2 w4 (omega arith) (inl (omega arith))
                ∙ last-ne vs 0 0x20030018 w3 (omega arith) (inr (omega arith))
                ∙ put_stats-ne 1 0x20030018 st1 w2 (omega arith) (inl (omega arith))
                ∙ second-keeps ts 0 0x20030018 w1
                ∙ put_stats-ne 0 0x20030018 st0 w0 (omega arith) (inl (omega arith))));
      first_stats =
          HasStats-same 0 us w1 (put_stats 2 st2 w4)
            (λ x low high word.
              put_stats-ne 2 x st2 w4 (omega arith) (inl (omega arith))
              ∙ last-ne vs 0 x w3 (omega arith) (inr (omega arith))
              ∙ put_stats-ne 1 x st1 w2 (omega arith) (inl (omega arith))
              ∙ second-keeps ts 0 x w1)
            (put_stats-HasStats 0 us w0 (omega arith));
      second_stats =
          HasStats-same 1 ts w3 (put_stats 2 st2 w4)
            (λ x low high word.
              put_stats-ne 2 x st2 w4 (omega arith) (inl (omega arith))
              ∙ last-ne vs 0 x w3 (omega arith) (inr (omega arith)))
            (put_stats-HasStats 1 ts w2 (omega arith));
      last_stats =
          subst (λ l. HasStats (put_stats 2 st2 w4) 2 l) (sym there)
            (put_stats-HasStats 2 vs w4 (omega arith));
    }

pub HostReads-same :
    (p : ℕ → Type 0) (w w' : ℕ → ℕ)
    → ((x : ℕ) → InSram x → x ≢ irq_count → x ≢ 0x20030004 → x ≢ 0x2003001C → w' x ≡ w x)
    → HostReads p w
    → HostReads p w'
HostReads-same p w w' same h =
    let samples =
      read_samples-same w w' 10000 0 (omega arith) (λ j lt.
        same (0x20010000 + 4 * j) (omega arith) (omega arith) (omega arith) (omega arith)) in
    record {
      first_run = h.first_run;
      second_run = h.second_run;
      first_whole = h.first_whole;
      second_whole = h.second_whole;
      first_samples = h.first_samples;
      second_samples = h.second_samples;
      last_samples = subst (λ l. AllOf p l) (sym samples) h.last_samples;
      first_sample =
          h.first_sample
          ∙ ap some (sym (same 0x20030018 (omega arith) (omega arith) (omega arith) (omega arith)));
      first_stats = stats 0 h.first_run (omega arith) h.first_stats;
      second_stats = stats 1 h.second_run (omega arith) h.second_stats;
      last_stats =
          subst (λ l. HasStats w' 2 l) (sym samples)
            (stats 2 (read_samples w 10000 0) (omega arith) h.last_stats);
    }
  where
    stats : (r : ℕ) (vs : List ℕ) → r < 3 → HasStats w r vs → HasStats w' r vs
    stats r vs small =
        HasStats-same r vs w w'
          (λ x low high word. same x (omega arith) (omega arith) (omega arith) (omega arith))

-- What three whole runs leave.
pub put_runs-HostReads :
    (p : ℕ → Type 0) (runs : List (List ℕ)) (w : ℕ → ℕ)
    → length runs ≡ 3
    → AllRuns p runs
    → HostReads p (put_runs 0 runs w)
put_runs-HostReads p [] w n whole = absurd (omega arith)
put_runs-HostReads p (us ∷ []) w n whole = absurd (omega arith)
put_runs-HostReads p (us ∷ ts ∷ []) w n whole = absurd (omega arith)
put_runs-HostReads p (us ∷ ts ∷ vs ∷ []) w n whole =
    three-HostReads p us ts vs w (whole.0) (whole.2.0) (whole.2.2.0) (whole.1) (whole.2.1)
      (whole.2.2.1)
put_runs-HostReads p (us ∷ ts ∷ vs ∷ xs ∷ runs) w n whole = absurd (omega arith)
