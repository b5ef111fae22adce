-- ===== src/IrqLatency/Interrupts/Images.antt =====
-- What the measurement of bench/irq_latency.c leaves in SRAM, as a function of its samples.
use inmojomni.Base.{ℕ, ◌+◌, ◌≡◌, ◌==◌, if◌then◌else◌, List, [], ◌∷◌, length, ◌+u◌, ◌*u◌}
use inmojomni.IrqLatency.{Stats, no_samples}
use inmojomni.IrqLatency.Samples.{add_samples, AllOf}
use inmojomni.IrqLatency.Interrupts.Quiet.{put}

-- The sample `v` of run `r` at `i`.
abbrev pub put_sample : ℕ → ℕ → ℕ → (ℕ → ℕ) → ℕ → ℕ
put_sample r i v w =
    let kept = if r == 2 then put (0x20010000 +u 4 *u i) v w else w in
    if r == 0 then (if i == 0 then put 0x20030018 v kept else kept) else kept

abbrev pub put_samples : ℕ → ℕ → List ℕ → (ℕ → ℕ) → ℕ → ℕ
put_samples r i [] w = w
put_samples r i (v ∷ vs) w = put_samples r (i + 1) vs (put_sample r i v w)

-- The minimum, the maximum and the sum of run `r`.
abbrev pub put_stats : ℕ → Stats → (ℕ → ℕ) → ℕ → ℕ
put_stats r st w =
    let base = 0x20030030 +u 12 *u r in
    put (base +u 8) st.sum (put (base +u 4) st.mx (put base st.mn w))

-- The runs from `r` on, each as the list of its samples.
unfoldable pub put_runs : ℕ → List (List ℕ) → (ℕ → ℕ) → ℕ → ℕ
put_runs r [] w = w
put_runs r (vs ∷ runs) w =
    put_runs (r + 1) runs (put_stats r (add_samples vs no_samples) (put_samples r 0 vs w))

-- Runs of 10,000 samples, of each of which something holds.
abbrev pub AllRuns : (ℕ → Type 0) → List (List ℕ) → Type 0
AllRuns p [] = Unit {0}
AllRuns p (vs ∷ runs) = (length vs ≡ 10000) × AllOf p vs × AllRuns p runs
