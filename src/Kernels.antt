-- ===== src/Kernels.antt =====
-- The benchmark kernels, `bm_gpio_toggle` aside. bench/bench.c and bench/bench_rp2350.c hold the
-- same text, with `time_us` and `read_mcycle` for `now`.
pub mod Rams
pub mod Checksums
pub mod SinglePrecision
use inmojomni.Base.{ℕ, zero, suc, ◌+◌, bit_xor, bit_or, ◌+u◌, true, false, Bool}
use inmojomni.Base.{List, Option, none, some, get_elem?, if◌then◌else◌}
use inmojomni.Machine.{Bus, Prog, pure, reg, ◌>>=◌, ◌>>◌}
use inmojomni.World.{Ram, World, on_dev, on_ram, timed}
use inmojomni.Xorshift.{xorshift_loop}
use inmojomni.Xorshift.Fill.{fill}
use inmojomni.Crc.{crc_passes}
use inmojomni.Qsort.{qsort_u32, pos}
use inmojomni.Scalar.{div_loop, call_loop, fib}
use inmojomni.Matrix.{Reps, reps}

-- IEEE single precision, which the compiler and its runtime supply.
pub record Floats : Type 1 where
  pub F : Type 0
  pub add : F → F → F
  pub mul : F → F → F
  pub gt : F → F → Bool
  pub lit_0_0 : F
  pub lit_0_5 : F
  pub lit_1_0 : F
  pub lit_1_000119 : F
  pub lit_1_5 : F

-- `sum += a * 1.000119f; a = sum * 0.5f + a;`, n times: the last `sum`.
unfoldable pub f32_loop : (f : Floats) → ℕ → f.F → f.F → f.F
f32_loop f zero sum a = sum
f32_loop f (suc n) sum a =
    let sum' = f.add sum (f.mul a f.lit_1_000119) in
    f32_loop f n sum' (f.add (f.mul sum' f.lit_0_5) a)

-- A step that only reads the buffers.
abbrev pub keeping : Option ℕ → Ram → Option (ℕ × Ram)
keeping none r = none
keeping (some a) r = some (a, r)

-- The first loop of `bm_crc32`.
unfoldable pub fill_crc : Ram → Option (Unit {0} × Ram)
fill_crc r = elim (fill 1024 0 0x12345678 r.crc_buf) [
  | none ↦ none
  | some (x, buf) ↦ some (tt, record r { crc_buf = buf })
]

-- The body of the loop over `rep` in `bm_sort`; 513 nested calls are enough for 512 elements.
unfoldable pub sort_rep : ℕ → ℕ → Ram → Option (ℕ × Ram)
sort_rep rep acc r = elim (fill 512 0 (0x00C0FFEE +u rep) r.sort_buf) [
  | none ↦ none
  | some (x, a) ↦ elim (qsort_u32 513 a (pos 0) (pos 511)) [
    | none ↦ none
    | some a' ↦ elim (get_elem? a' 0) [
      | none ↦ none
      | some p ↦ elim (get_elem? a' 255) [
        | none ↦ none
        | some q ↦ elim (get_elem? a' 511) [
          | none ↦ none
          | some t ↦ some (acc +u bit_xor (bit_xor p q) t, record r { sort_buf = a' })
        ]
      ]
    ]
  ]
]

unfoldable pub sort_reps : ℕ → ℕ → ℕ → Ram → Option (ℕ × Ram)
sort_reps zero rep acc r = some (acc, r)
sort_reps (suc left) rep acc r = elim (sort_rep rep acc r) [
  | none ↦ none
  | some (acc', r') ↦ sort_reps left (rep + 1) acc' r'
]

-- The two filling loops of `bm_mat16`; the second goes on with the first one's `x`.
unfoldable pub fill_mats : Ram → Option (Unit {0} × Ram)
fill_mats r = elim (fill 256 0 0x600D5EED r.mat_a) [
  | none ↦ none
  | some (x, a) ↦ elim (fill 256 0 x r.mat_b) [
    | none ↦ none
    | some (y, b) ↦ some (tt, record r { mat_a = a; mat_b = b })
  ]
]

unfoldable pub mat_reps : Ram → Option (ℕ × Ram)
mat_reps r = elim (reps 50 0 r.mat_b (record { A = r.mat_a; C = r.mat_c; acc = 0 })) [
  | none ↦ none
  | some s ↦ some (s.acc, record r { mat_a = s.A; mat_c = s.C })
]

module _ {S : Type 0} (b : Bus S) (now : Prog (World S) ℕ) where
  unfoldable pub bm_xorshift : Prog (World S) (ℕ × ℕ)
  bm_xorshift = timed now (pure (xorshift_loop 200000 0xDEADBEEF))

  unfoldable pub bm_div : Prog (World S) (ℕ × ℕ)
  bm_div = timed now (on_ram (keeping (div_loop 50000 0 0 1)))

  unfoldable pub bm_f32 : Floats → Prog (World S) (ℕ × ℕ)
  bm_f32 f =
      timed now (pure (if f.gt (f32_loop f 20000 f.lit_0_0 f.lit_1_5) f.lit_1_0 then 1 else 0))

  unfoldable pub bm_call : Prog (World S) (ℕ × ℕ)
  bm_call = timed now (pure (call_loop 100000 0))

  unfoldable pub bm_crc32 : Prog (World S) (ℕ × ℕ)
  bm_crc32 = do
    on_ram fill_crc
    timed now (on_ram (λ r. keeping (crc_passes 1024 4 0 r.crc_buf 0) r))

  unfoldable pub bm_sort : Prog (World S) (ℕ × ℕ)
  bm_sort = timed now (on_ram (sort_reps 20 0 0))

  unfoldable pub bm_mat16 : Prog (World S) (ℕ × ℕ)
  bm_mat16 = do on_ram fill_mats; timed now (on_ram mat_reps)

  -- `fib(n)` nests at most n + 1 calls.
  unfoldable pub bm_fib : Prog (World S) (ℕ × ℕ)
  bm_fib = do n ← reg (on_dev b) 0x20023000; timed now (on_ram (keeping (fib (n + 1) n)))
