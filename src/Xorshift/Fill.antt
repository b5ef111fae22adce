-- ===== src/Xorshift/Fill.antt =====
-- `for (i = 0; i < n; i++) { x = step(x); buf[i] = x; }`, as `bm_crc32`, `bm_sort` and `bm_mat16`
-- fill their buffers.
use mathlib.Core.List.{append_assoc, append-nil}
use native.Mathlib.Numerals.{add-one}
use inmojomni.Base.{ℕ, zero, suc, ◌+◌, ◌^◌, ◌<◌, ◌≡◌, refl, ◌∙◌, ap, arith}
use inmojomni.Base.{List, [], ◌∷◌, ◌++◌, Option, none, some}
use inmojomni.Base.{length, set, store, lt→ltb, length-set, take, take-set, take-length, get_or}
use inmojomni.Xorshift.{step, xorshift_loop}
use inmojomni.Xorshift.Inverse.{step-lt}

-- The loop at index `i` with `left` rounds to go; a write out of bounds is `none`.
unfoldable pub fill : ℕ → ℕ → ℕ → List ℕ → Option (ℕ × List ℕ)
fill zero i x buf = some (x, buf)
fill (suc left) i x buf =
    let x' = step x in elim (store buf i x') [ none ↦ none | some buf' ↦ fill left (i + 1) x' buf' ]

-- The `n` states after `x`.
pub stream : ℕ → ℕ → List ℕ
stream zero x = []
stream (suc n) x = step x ∷ stream n (step x)

pub length-stream : (n x : ℕ) → length (stream n x) ≡ n
unfolding stream
length-stream zero x = refl
length-stream (suc n) x = ap suc (length-stream n (step x))

pub stream-lt : (n x i : ℕ) → x < 2 ^ 32 → get_or (stream n x) i 0 < 2 ^ 32
unfolding stream
stream-lt zero x i h = omega arith
stream-lt (suc n) x zero h = step-lt x h
stream-lt (suc n) x (suc i) h = stream-lt n (step x) i (step-lt x h)

fill_from :
    (left i x : ℕ) (buf : List ℕ)
    → i + left ≡ length buf
    → fill left i x buf ≡ some (xorshift_loop left x, take i buf ++ stream left x)
unfolding fill stream xorshift_loop
fill_from zero i x buf e =
    let whole : i ≡ length buf = omega arith in rw (whole, take-length buf, append-nil buf)
fill_from (suc left) i x buf e =
    let inside : i < length buf = omega arith in
    let buf' = set buf i (step x) in
    rw (lt→ltb i (length buf) inside, fill)
      (fill_from left (i + 1) (step x) buf' (omega (arith, length-set buf i (step x)))
        ∙ ap (λ (l : List ℕ). some (xorshift_loop left (step x), l)) (taken inside))
  where
    taken :
        i < length buf
        → take (i + 1) (set buf i (step x)) ++ stream left (step x)
          ≡ take i buf ++ step x ∷ stream left (step x)
    taken h = rw (add-one i, take-set i buf (step x) h, append_assoc)

-- Filling a whole buffer forgets what it held.
pub fill_lem :
    (n x : ℕ) (buf : List ℕ)
    → length buf ≡ n
    → fill n 0 x buf ≡ some (xorshift_loop n x, stream n x)
fill_lem n x buf e = fill_from n 0 x buf (omega arith)
