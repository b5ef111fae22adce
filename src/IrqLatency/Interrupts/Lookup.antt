-- ===== src/IrqLatency/Interrupts/Lookup.antt =====
-- Single words of what the runs of bench/irq_latency.c leave in SRAM.
use inmojomni.Base.{ℕ, zero, suc, ◌+◌, ◌*◌, ◌≤◌, ◌<◌, ◌≡◌, ◌≢◌, refl, ap, ◌∙◌, arith, ◌⊎◌, inl}
use inmojomni.Base.{false, ◌==◌, if◌then◌else◌, List, [], ◌∷◌, length, some, get_elem?, ◌+u◌, ◌*u◌}
use inmojomni.IrqLatency.{Stats}
use inmojomni.IrqLatency.Interrupts.Quiet.{put}
use inmojomni.IrqLatency.Interrupts.Images.{put_samples, put_stats}

pub put_ne : (a v x : ℕ) (w : ℕ → ℕ) → a ≢ x → put a v w x ≡ w x
put_ne a v x w h = ground arith

pub put_at : (a v x : ℕ) (w : ℕ → ℕ) → a ≡ x → put a v w x ≡ v
put_at a v x w h = ground arith

-- The last run writes its samples.
pub last-ne :
    (vs : List ℕ) (i x : ℕ) (w : ℕ → ℕ)
    → i + length vs ≤ 10000
    → (x < 0x20010000 + 4 * i) ⊎ (0x20020000 ≤ x)
    → put_samples 2 i vs w x ≡ w x
last-ne [] i x w fits away = refl
last-ne (v ∷ vs) i x w fits away =
    last-ne vs (i + 1) x (put (0x20010000 +u 4 *u i) v w) (omega arith) (omega arith)
    ∙ put_ne (0x20010000 +u 4 *u i) v x w (omega arith)

pub last_sample :
    (vs : List ℕ) (i j v : ℕ) (w : ℕ → ℕ)
    → i + length vs ≤ 10000
    → get_elem? vs j ≡ some v
    → put_samples 2 i vs w (0x20010000 + 4 * (i + j)) ≡ v
last_sample [] i j v w fits h = absurd (cc)
last_sample (u ∷ vs) i zero v w fits h =
    let same : u ≡ v = cc in
    last-ne vs (i + 1) (0x20010000 + 4 * (i + 0)) (put (0x20010000 +u 4 *u i) u w) (omega arith)
      (inl (omega arith))
    ∙ put_at (0x20010000 +u 4 *u i) u (0x20010000 + 4 * (i + 0)) w (omega arith)
    ∙ same
last_sample (u ∷ vs) i (suc j) v w fits h =
    let next : 0x20010000 + 4 * (i + suc j) ≡ 0x20010000 + 4 * (i + 1 + j) = omega arith in
    ap (put_samples 2 (i + 1) vs (put (0x20010000 +u 4 *u i) u w)) next
    ∙ last_sample vs (i + 1) j v (put (0x20010000 +u 4 *u i) u w) (omega arith) h

-- The second run writes none.
pub second-keeps : (vs : List ℕ) (i x : ℕ) (w : ℕ → ℕ) → put_samples 1 i vs w x ≡ w x
second-keeps [] i x w = refl
second-keeps (v ∷ vs) i x w = second-keeps vs (i + 1) x w

-- The first run writes the first.
pub first-keeps : (vs : List ℕ) (i x : ℕ) (w : ℕ → ℕ) → 1 ≤ i → put_samples 0 i vs w x ≡ w x
first-keeps [] i x w h = refl
first-keeps (v ∷ vs) i x w h =
    let later : (i == 0) ≡ false = ground arith in
    first-keeps vs (i + 1) x _ (omega arith)
    ∙ ap (λ t. (if t then put 0x20030018 v w else w) x) later

pub first_sample :
    (vs : List ℕ) (v : ℕ) (w : ℕ → ℕ)
    → get_elem? vs 0 ≡ some v
    → put_samples 0 0 vs w 0x20030018 ≡ v
first_sample [] v w h = absurd (cc)
first_sample (u ∷ vs) v w h =
    let same : u ≡ v = cc in
    first-keeps vs 1 0x20030018 (put 0x20030018 u w) (omega arith)
    ∙ put_at 0x20030018 u 0x20030018 w refl
    ∙ same

-- The three words of a run, and every other word.
pub put_stats-ne :
    (r x : ℕ) (st : Stats) (w : ℕ → ℕ)
    → r < 3
    → (x < 0x20030030 + 12 * r) ⊎ (0x2003003C + 12 * r ≤ x)
    → put_stats r st w x ≡ w x
put_stats-ne r x st w small away =
    let base = 0x20030030 +u 12 *u r in
    put_ne (base +u 8) st.sum x (put (base +u 4) st.mx (put base st.mn w)) (omega arith)
    ∙ put_ne (base +u 4) st.mx x (put base st.mn w) (omega arith)
    ∙ put_ne base st.mn x w (omega arith)
