-- ===== src/World.antt =====
-- The state of the benchmark programs: the scratch buffers, which the C code reaches through plain
-- pointers at fixed addresses, beside the device behind the volatile accesses. Layout has the
-- addresses of the buffers.
use inmojomni.Base.{ℕ, ◌≡◌, refl, ◌∙◌, List, Option, none, some, length, ◌-u◌}
use inmojomni.Machine.{Bus, Prog, done, fault, pure, ◌>>=◌, Memory}
use inmojomni.Machine.Keeps.{Keeps, Keeps-refl, Keeps-trans, Keeps-read, Keeps-write, Frame}

pub record Ram : Type 0 where
  pub crc_buf : List ℕ
  pub sort_buf : List ℕ
  pub mat_a : List ℕ
  pub mat_b : List ℕ
  pub mat_c : List ℕ

pub record IsRam (r : Ram) : Type 0 where
  pub crc_size : length r.crc_buf ≡ 1024
  pub sort_size : length r.sort_buf ≡ 512
  pub a_size : length r.mat_a ≡ 256
  pub b_size : length r.mat_b ≡ 256
  pub c_size : length r.mat_c ≡ 256

pub record World (S : Type 0) : Type 0 where
  pub ram : Ram
  pub dev : S

-- The bus of the device, in the larger state.
abbrev pub on_dev : {S : Type 0} → Bus S → Bus (World S)
on_dev b = record {
  read = λ a w. let (v, s) = b.read a w.dev in (v, record w { dev = s });
  write = λ a v w. record w { dev = b.write a v w.dev };
}

abbrev pub on_dev_memory : {S : Type 0} (b : Bus S) → Memory b → Memory (on_dev b)
on_dev_memory b m = record {
  peek = λ a w. m.peek a w.dev;
  peek-read = λ a r w h. m.peek-read a r w.dev h;
  read-peek = λ a w h. m.read-peek a w.dev h;
  peek-write = λ a w v x h k. m.peek-write a w v x.dev h k;
}

-- Device accesses change neither the buffers nor SRAM.
abbrev pub apart_frame : {S : Type 0} (b : Bus S) → Memory b → Frame (on_dev b)
apart_frame b m = record {
  Rel = λ w w'. (w'.ram ≡ w.ram) × Keeps b m w.dev w'.dev;
  same = λ w. (refl, Keeps-refl b m w.dev);
  chain = λ p q. (q.0 ∙ p.0, Keeps-trans b m (p.1) (q.1));
  on_read = λ a w. (refl, Keeps-read b m a w.dev);
  on_write = λ a v w d. (refl, Keeps-write b m a v w.dev d);
}

-- A step on the buffers, which faults where it is `none`.
unfoldable pub on_ram : {S A : Type 0} → (Ram → Option (A × Ram)) → Prog (World S) A
on_ram f w = elim (f w.ram) [ none ↦ fault w | some (a, r) ↦ done a (record w { ram = r }) ]

-- `t0 = now(); body; dt = now() - t0;`: the time taken and the body's checksum.
unfoldable pub timed : {S : Type 0} → Prog (World S) ℕ → Prog (World S) ℕ → Prog (World S) (ℕ × ℕ)
timed now body = do t0 ← now; ck ← body; t1 ← now; pure (t1 -u t0, ck)
