-- ===== src/Kernels/Checksums.antt =====
-- The kernels of bench/bench.c as runs: their ends and their checksums.
use mathlib.Core.Path.{subst}
use inmojomni.Base.{ℕ, ◌+◌, ◌%◌, ◌^◌, ◌≡◌, refl, sym, ap, ◌∙◌, arith}
use inmojomni.Base.{Option, none, some, if◌then◌else◌}
use inmojomni.Machine.{Bus, Prog, Run, done, pure, reg, Memory}
use inmojomni.Machine.Ends.{Ends, ends, Ends-bind, Ends-mono}
use inmojomni.Machine.Keeps.{Keeps, Keeps-refl, Keeps-trans, Keeps-read}
use inmojomni.World.{Ram, IsRam, World, on_ram, timed}
use inmojomni.Xorshift.{xorshift_loop}
use inmojomni.Crc.Table.{joined, bytes_of}
use inmojomni.Scalar.{div_loop, call_loop, fib}
use inmojomni.Scalar.Quotients.{add_quotients, div_loop-add_quotients, call_loop-add}
use inmojomni.Scalar.Fibonacci.{pair, fibonacci, fib-fibonacci}
use inmojomni.Matrix.Repeat.{checksum}
use inmojomni.Kernels.{Floats, f32_loop, keeping, fill_crc, fill_mats}
use inmojomni.Kernels.{bm_xorshift, bm_div, bm_f32, bm_call, bm_crc32, bm_sort, bm_mat16, bm_fib}
use inmojomni.Kernels.Rams.{StepsTo, Any, crc_words, mat_a_words, mat_b_words, sort_sum}
use inmojomni.Kernels.Rams.{fill_crc_lem, crc_lem, fill_mats_lem, mat_reps_lem, sort_reps_lem}

Keeps-same : {S : Type 0} (b : Bus S) (m : Memory b) {s s' : S} → s' ≡ s → Keeps b m s s'
Keeps-same b m {s} e = subst (λ t. Keeps b m s t) (sym e) (Keeps-refl b m s)

fib_24 : fib 25 24 ≡ some 46368
fib_24 = fib-fibonacci 25 24 (omega arith) (omega arith) ∙ ap some value
  where
    value : fibonacci 24 % 2 ^ 32 ≡ 46368
    value = unfold fibonacci pair in refl

on_ram-Ends :
    {S A : Type 0} {Q : Ram → Type 0} (f : Ram → Option (A × Ram)) (w : World S) (a : A)
    → StepsTo Q a (f w.ram)
    → Ends (λ a' w'. (a' ≡ a) × IsRam w'.ram × Q w'.ram × (w'.dev ≡ w.dev)) (on_ram f w)
unfolding on_ram
on_ram-Ends {S} {A} {Q} f w a st = go (f w.ram) st.returns
  where
    go :
        (r : Option (A × Ram))
        → r ≡ some (a, st.ram)
        → Ends
            (λ a' w'. (a' ≡ a) × IsRam w'.ram × Q w'.ram × (w'.dev ≡ w.dev))
            (elim r [ none ↦ Run.fault w | some (a, r) ↦ done a (record w { ram = r }) ])
    go r e = rw e (ends (refl, st.is_ram, st.holds, refl))

module _ {S : Type 0} (b : Bus S) (m : Memory b) where
  -- A run that ends with the checksum `ck`, well-formed buffers and the words of SRAM kept.
  abbrev pub Gives : World S → ℕ → Run (World S) (ℕ × ℕ) → Type 0
  Gives w ck r = Ends (λ t w'. (t.1 ≡ ck) × IsRam w'.ram × Keeps b m w.dev w'.dev) r

  -- Reading the time changes neither the buffers nor SRAM.
  abbrev pub Ticks : Prog (World S) ℕ → Type 0
  Ticks now = (w : World S) → Ends (λ _ w'. (w'.ram ≡ w.ram) × Keeps b m w.dev w'.dev) (now w)

  abbrev pub BodyGives : World S → ℕ → Prog (World S) ℕ → Type 0
  BodyGives w ck body =
      (w1 : World S)
      → w1.ram ≡ w.ram
      → Ends (λ c w'. (c ≡ ck) × IsRam w'.ram × Keeps b m w1.dev w'.dev) (body w1)

  module _ (now : Prog (World S) ℕ) (ticks : Ticks now) where
    pub timed-Gives :
        (w : World S) (ck : ℕ) (body : Prog (World S) ℕ)
        → BodyGives w ck body
        → Gives w ck (timed now body w)
    unfolding timed
    timed-Gives w ck body h = Ends-bind now _ w (ticks w) λ t0 w1 p.
        Ends-bind body _ w1 (h w1 (p.0)) λ c w2 q. Ends-bind now _ w2 (ticks w2) λ t1 w3 r.
          ends (
            q.0,
            subst IsRam (sym (r.0)) (q.1),
            Keeps-trans b m (p.1) (Keeps-trans b m (q.2) (r.1)),
          )

    pure-Gives : (w : World S) (ck : ℕ) → IsRam w.ram → Gives w ck (timed now (pure ck) w)
    pure-Gives w ck v =
        timed-Gives w ck (pure ck) λ w1 e. ends (refl, subst IsRam (sym e) v, Keeps-refl b m w1.dev)

    ram-Gives :
        {Q : Ram → Type 0} (f : Ram → Option (ℕ × Ram)) (w : World S) (ck : ℕ)
        → StepsTo Q ck (f w.ram)
        → Gives w ck (timed now (on_ram f) w)
    ram-Gives {Q} f w ck st = timed-Gives w ck (on_ram f) λ w1 e.
        Ends-mono (on_ram-Ends f w1 ck (subst (λ r. StepsTo Q ck (f r)) (sym e) st))
          λ c w2 q. (q.0, q.1, Keeps-same b m (q.3))

    pub bm_xorshift-Gives :
        (w : World S)
        → IsRam w.ram
        → Gives w (xorshift_loop 200000 0xDEADBEEF) (bm_xorshift b now w)
    unfolding bm_xorshift
    bm_xorshift-Gives w v = pure-Gives w (xorshift_loop 200000 0xDEADBEEF) v

    pub bm_div-Gives :
        (w : World S) → IsRam w.ram → Gives w (add_quotients 50000 0 0) (bm_div b now w)
    unfolding bm_div
    bm_div-Gives w v =
        ram-Gives {Q = Any} (keeping (div_loop 50000 0 0 1)) w (add_quotients 50000 0 0) (record {
          ram = w.ram;
          returns = ap (λ t. keeping t w.ram) (div_loop-add_quotients 50000 0 0 (omega arith));
          is_ram = v;
          holds = tt;
        })

    pub bm_f32-Gives :
        (f : Floats) (w : World S)
        → IsRam w.ram
        → Gives w
            (if f.gt (f32_loop f 20000 f.lit_0_0 f.lit_1_5) f.lit_1_0 then 1 else 0)
            (bm_f32 b now f w)
    unfolding bm_f32
    bm_f32-Gives f w v = pure-Gives w _ v

    pub bm_call-Gives : (w : World S) → IsRam w.ram → Gives w 100000 (bm_call b now w)
    unfolding bm_call
    bm_call-Gives w v =
        subst (λ t. Gives w t (timed now (pure (call_loop 100000 0)) w))
          (call_loop-add 100000 0 (omega arith)) (pure-Gives w (call_loop 100000 0) v)

    pub bm_crc32-Gives :
        (w : World S) → IsRam w.ram → Gives w (joined 4 0 (bytes_of crc_words) 0) (bm_crc32 b now w)
    unfolding bm_crc32
    bm_crc32-Gives w v =
        Ends-bind (on_ram fill_crc) _ w (on_ram-Ends fill_crc w tt (fill_crc_lem w.ram v)) λ _ w1 p.
          Ends-mono
            (ram-Gives _ w1 (joined 4 0 (bytes_of crc_words) 0) (crc_lem w1.ram (p.1) (p.2)))
            λ t w2 q. (q.0, q.1, Keeps-trans b m (Keeps-same b m (p.3)) (q.2))

    pub bm_sort-Gives : (w : World S) → IsRam w.ram → Gives w (sort_sum 20 0 0) (bm_sort b now w)
    unfolding bm_sort
    bm_sort-Gives w v = ram-Gives _ w (sort_sum 20 0 0) (sort_reps_lem 20 0 0 w.ram v)

    pub bm_mat16-Gives :
        (w : World S)
        → IsRam w.ram
        → Gives w (checksum 50 0 mat_a_words mat_b_words 0) (bm_mat16 b now w)
    unfolding bm_mat16
    bm_mat16-Gives w v =
        Ends-bind (on_ram fill_mats) _ w (on_ram-Ends fill_mats w tt (fill_mats_lem w.ram v))
          λ _ w1 p.
            Ends-mono
              (ram-Gives _ w1 (checksum 50 0 mat_a_words mat_b_words 0)
                (mat_reps_lem w1.ram (p.1) (p.2)))
              λ t w2 q. (q.0, q.1, Keeps-trans b m (Keeps-same b m (p.3)) (q.2))

    fib-Gives :
        (n : ℕ) (w : World S)
        → n ≡ 24
        → IsRam w.ram
        → Gives w 46368 (timed now (on_ram (keeping (fib (n + 1) n))) w)
    fib-Gives n w e v = ram-Gives {Q = Any} (keeping (fib (n + 1) n)) w 46368 (record {
      ram = w.ram;
      returns = ap (λ t. keeping (fib (t + 1) t) w.ram) e ∙ ap (λ t. keeping t w.ram) fib_24;
      is_ram = v;
      holds = tt;
    })

    -- With 24 in the word at FIB_N.
    pub bm_fib-Gives :
        (w : World S) → IsRam w.ram → m.peek 0x20023000 w.dev ≡ 24 → Gives w 46368 (bm_fib b now w)
    unfolding bm_fib reg
    bm_fib-Gives w v e =
        let w1 = record w { dev = (b.read 0x20023000 w.dev).1 } in
        let read : (b.read 0x20023000 w.dev).0 ≡ 24 =
          m.read-peek 0x20023000 w.dev (omega arith) ∙ e in
        Ends-mono (fib-Gives (b.read 0x20023000 w.dev).0 w1 read v)
          λ t w2 q. (q.0, q.1, Keeps-trans b m (Keeps-read b m 0x20023000 w.dev) (q.2))
