-- ===== src/Results.antt =====
-- The result table in the mailbox: the two loops of `mojo_main` over the runs and the kernels, of
-- bench/bench.c and bench/bench_rp2350.c, which differ in where the table starts.
pub mod Words
pub mod Recorded
use inmojomni.Base.{ℕ, zero, suc, ◌+◌, ◌+u◌, ◌*u◌, List, none, some, get_elem?}
use inmojomni.Machine.{Bus, Prog, fault, pure, set_reg, ◌>>=◌, ◌>>◌}
use inmojomni.World.{World, on_dev}

module _ {S : Type 0} (b : Bus S) (bms : List (Prog (World S) (ℕ × ℕ))) (table : ℕ) where
  -- `us = BMS[i](&ck); base = table + (run * COUNT + i) * 8; REG(base) = us; REG(base + 4) = ck;`
  unfoldable pub run_one : ℕ → ℕ → Prog (World S) (Unit {0})
  run_one run i w = elim (get_elem? bms i) [
    | none ↦ fault w
    | some bm ↦
        (bm >>= λ (us, ck).
        let base = table +u (run *u 9 +u i) *u 8 in
        set_reg (on_dev b) base us >> set_reg (on_dev b) (base +u 4) ck)
          w
  ]

  -- `for (i = 0; i < COUNT; i++)` at `i`
  unfoldable pub run_kernels : ℕ → ℕ → ℕ → Prog (World S) (Unit {0})
  run_kernels run zero i = pure tt
  run_kernels run (suc left) i = run_one run i >> run_kernels run left (i + 1)

  -- `for (run = 0; run < RUNS; run++)` at `run`
  unfoldable pub run_all : ℕ → ℕ → Prog (World S) (Unit {0})
  run_all zero run = pure tt
  run_all (suc left) run = run_kernels run 9 0 >> run_all left (run + 1)
