-- ===== src/Kernels/Rams.antt =====
-- The steps of the kernels of bench/bench.c on the scratch buffers, and their values.
use mathlib.Core.Path.{subst, ap₂}
use inmojomni.Base.{ℕ, zero, suc, ◌+◌, ◌<◌, ◌≡◌, refl, sym, ap, ◌∙◌, arith}
use inmojomni.Base.{bit_xor, ◌+u◌, List, [], Option, none, some, length, get_or, get_elem?}
use inmojomni.Base.{get_elem?-eq-get_or}
use inmojomni.World.{Ram, IsRam}
use inmojomni.Xorshift.{xorshift_loop}
use inmojomni.Xorshift.Fill.{stream, fill_lem, length-stream}
use inmojomni.Crc.{crc_passes}
use inmojomni.Crc.Table.{crc_passes-table, joined, bytes_of}
use inmojomni.Qsort.{qsort_u32, pos}
use inmojomni.Qsort.Sorted.{Sorts, qsort_u32-Sorts}
use inmojomni.Matrix.{Reps, reps}
use inmojomni.Matrix.Repeat.{checksum, reps-checksum}
use inmojomni.Kernels.{keeping, fill_crc, sort_rep, sort_reps, fill_mats, mat_reps}

-- A step on well-formed buffers that returns `a` and leaves them well formed, with `Q` of them.
pub record StepsTo {A : Type 0} (Q : Ram → Type 0) (a : A) (result : Option (A × Ram))
    : Type 0 where
  pub ram : Ram
  pub returns : result ≡ some (a, ram)
  pub is_ram : IsRam ram
  pub holds : Q ram

abbrev pub Any : Ram → Type 0
Any r = Unit {0}

-- The words of the CRC buffer and of the matrices.
pub crc_words : List ℕ
crc_words = stream 1024 0x12345678

pub mat_a_words : List ℕ
mat_a_words = stream 256 0x600D5EED

pub mat_b_words : List ℕ
mat_b_words = stream 256 (xorshift_loop 256 0x600D5EED)

pub fill_crc_lem : (r : Ram) → IsRam r → StepsTo (λ r'. r'.crc_buf ≡ crc_words) tt (fill_crc r)
unfolding fill_crc crc_words
fill_crc_lem r v = record {
  ram = record r { crc_buf = stream 1024 0x12345678 };
  returns = rw (fill_lem 1024 0x12345678 r.crc_buf v.crc_size, fill_crc);
  is_ram = record {
    crc_size = length-stream 1024 0x12345678;
    sort_size = v.sort_size;
    a_size = v.a_size;
    b_size = v.b_size;
    c_size = v.c_size;
  };
  holds = refl;
}

crc_passes_sized :
    (n passes k : ℕ) (buf : List ℕ) (acc : ℕ)
    → length buf ≡ n
    → crc_passes n passes k buf acc ≡ some (joined passes k (bytes_of buf) acc)
crc_passes_sized n passes k buf acc e =
    subst (λ t. crc_passes t passes k buf acc ≡ some (joined passes k (bytes_of buf) acc)) e
      (crc_passes-table passes k buf acc)

pub crc_lem :
    (r : Ram)
    → IsRam r
    → r.crc_buf ≡ crc_words
    → StepsTo Any (joined 4 0 (bytes_of crc_words) 0) (keeping (crc_passes 1024 4 0 r.crc_buf 0) r)
crc_lem r v e = record {
  ram = r;
  returns =
      ap (λ t. keeping t r)
        (crc_passes_sized 1024 4 0 r.crc_buf 0 v.crc_size
          ∙ ap (λ t. some (joined 4 0 (bytes_of t) 0)) e);
  is_ram = v;
  holds = tt;
}

pub fill_mats_lem :
    (r : Ram)
    → IsRam r
    → StepsTo (λ r'. (r'.mat_a ≡ mat_a_words) × (r'.mat_b ≡ mat_b_words)) tt (fill_mats r)
unfolding fill_mats mat_a_words mat_b_words
fill_mats_lem r v =
    let x = xorshift_loop 256 0x600D5EED in
    record {
      ram = record r { mat_a = stream 256 0x600D5EED; mat_b = stream 256 x };
      returns =
          rw (fill_lem 256 0x600D5EED r.mat_a v.a_size, fill_mats, fill_lem 256 x r.mat_b v.b_size);
      is_ram = record {
        crc_size = v.crc_size;
        sort_size = v.sort_size;
        a_size = length-stream 256 0x600D5EED;
        b_size = length-stream 256 x;
        c_size = v.c_size;
      };
      holds = (refl, refl);
    }

mat_returns :
    (r : Ram) (s' : Reps)
    → reps 50 0 r.mat_b (record { A = r.mat_a; C = r.mat_c; acc = 0 }) ≡ some s'
    → mat_reps r ≡ some (s'.acc, record r { mat_a = s'.A; mat_c = s'.C })
unfolding mat_reps
mat_returns r s' e = rw (e, mat_reps)

pub mat_reps_lem :
    (r : Ram)
    → IsRam r
    → (r.mat_a ≡ mat_a_words) × (r.mat_b ≡ mat_b_words)
    → StepsTo Any (checksum 50 0 mat_a_words mat_b_words 0) (mat_reps r)
unfolding mat_reps
mat_reps_lem r v e =
    let start : Reps = record { A = r.mat_a; C = r.mat_c; acc = 0 } in
    let (s', returns, sA, sC, acc) =
      reps-checksum 50 0 r.mat_b start (omega arith) v.a_size v.b_size v.c_size in
    record {
      ram = record r { mat_a = s'.A; mat_c = s'.C };
      returns =
          mat_returns r s' returns
          ∙ ap (λ t. some (t, record r { mat_a = s'.A; mat_c = s'.C }))
              (acc ∙ ap₂ (λ a b. checksum 50 0 a b 0) (e.0) (e.1));
      is_ram = record {
        crc_size = v.crc_size;
        sort_size = v.sort_size;
        a_size = sA;
        b_size = v.b_size;
        c_size = sC;
      };
      holds = tt;
    }

-- The sorted words of repetition `rep`.
pub ordered : ℕ → List ℕ
ordered rep = elim (qsort_u32 513 (stream 512 (0x00C0FFEE +u rep)) (pos 0) (pos 511)) [
  | none ↦ []
  | some a ↦ a
]

-- The least, the 256th and the greatest word, mixed and added.
abbrev pub add_mixed : ℕ → ℕ → ℕ
add_mixed rep acc =
    acc
    +u bit_xor (bit_xor (get_or (ordered rep) 0 0) (get_or (ordered rep) 255 0))
        (get_or (ordered rep) 511 0)

-- The sum over `n` repetitions from `rep` on.
pub sort_sum : ℕ → ℕ → ℕ → ℕ
sort_sum zero rep acc = acc
sort_sum (suc n) rep acc = sort_sum n (rep + 1) (add_mixed rep acc)

module _ (rep : ℕ) where
  abbrev words : List ℕ
  words = stream 512 (0x00C0FFEE +u rep)

  sorts_words : Sorts 0 512 words (qsort_u32 513 words (pos 0) (pos 511))
  sorts_words = qsort_u32-Sorts 513 0 511 words (rw length-stream (omega arith)) (omega arith)

  out-eq-ordered : sorts_words.out ≡ ordered rep
  out-eq-ordered = unfold ordered in rw (sorts_words.returns, ordered)

  ordered_returns : qsort_u32 513 words (pos 0) (pos 511) ≡ some (ordered rep)
  ordered_returns = sorts_words.returns ∙ ap some out-eq-ordered

  length-ordered : length (ordered rep) ≡ 512
  length-ordered =
      ap length (sym out-eq-ordered)
      ∙ sorts_words.shuffles.same_length
      ∙ length-stream 512 (0x00C0FFEE +u rep)

  ordered-get : (i : ℕ) → i < 512 → get_elem? (ordered rep) i ≡ some (get_or (ordered rep) i 0)
  ordered-get i h = get_elem?-eq-get_or (ordered rep) i 0 (rw length-ordered h)

  sort_rep_lem :
      (acc : ℕ) (r : Ram) → IsRam r → StepsTo Any (add_mixed rep acc) (sort_rep rep acc r)
  sort_rep_lem acc r v = record {
    ram = record r { sort_buf = ordered rep };
    returns =
        unfold sort_rep in
        rw (
          fill_lem 512 (0x00C0FFEE +u rep) r.sort_buf v.sort_size,
          sort_rep,
          ordered_returns,
          ordered-get 0 (omega arith),
          ordered-get 255 (omega arith),
          ordered-get 511 (omega arith),
        );
    is_ram = record {
      crc_size = v.crc_size;
      sort_size = length-ordered;
      a_size = v.a_size;
      b_size = v.b_size;
      c_size = v.c_size;
    };
    holds = tt;
  }

pub sort_reps_lem :
    (n rep acc : ℕ) (r : Ram) → IsRam r → StepsTo Any (sort_sum n rep acc) (sort_reps n rep acc r)
unfolding sort_reps sort_sum
sort_reps_lem zero rep acc r v = record { ram = r; returns = refl; is_ram = v; holds = tt }
sort_reps_lem (suc n) rep acc r v =
    let now = sort_rep_lem rep acc r v in
    let rest = sort_reps_lem n (rep + 1) (add_mixed rep acc) now.ram now.is_ram in
    record {
      ram = rest.ram;
      returns = rw (now.returns, sort_reps) (rest.returns);
      is_ram = rest.is_ram;
      holds = tt;
    }
