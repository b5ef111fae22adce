-- ===== src/Results/Recorded.antt =====
-- The loops of `mojo_main` that fill the table, slot by slot.
use native.Mathlib.Nat.{add_assoc}
use mathlib.Core.Path.{subst}
use native.Mathlib.Decide.{ℕ_discrete}
use inmojomni.Base.{ℕ, zero, suc, ◌+◌, ◌*◌, ◌%◌, ◌≤◌, ◌<◌, ◌≡◌, refl, ap, ◌∙◌, arith}
use inmojomni.Base.{◌+u◌, ◌*u◌, List, some, get_elem?, get_or}
use inmojomni.Machine.{Bus, Prog, set_reg, Memory}
use inmojomni.Machine.Ends.{Ends, ends, Ends-bind}
use inmojomni.Machine.Keeps.{Keeps}
use inmojomni.World.{IsRam, World}
use inmojomni.Kernels.Checksums.{Gives}
use inmojomni.Results.Words.{Fixed, Apart, peek-write_ne, peek-write_self, Fixed-Keeps, Fixed-write}
use inmojomni.Results.{run_one, run_kernels, run_all}

-- A table inside SRAM.
abbrev pub IsTable : ℕ → Type 0
IsTable table = (0x20000000 ≤ table) × (table + 216 ≤ 0x20042000) × (table % 4 ≡ 0)

-- The address of a slot's checksum.
abbrev pub slot : ℕ → ℕ → ℕ
slot table k = table + k * 8 + 4

module _ {S : Type 0} (b : Bus S) (m : Memory b) (table : ℕ) (expected : List ℕ)
    (fixed : List (ℕ × ℕ)) where
  -- Of the state after `p` results: the buffers are well formed, the fixed words stand, and each
  -- of the first `p` slots holds the checksum of its kernel.
  pub record Recorded (p : ℕ) (w : World S) : Type 0 where
    pub is_ram : IsRam w.ram
    pub header : Fixed b m fixed w.dev
    pub slots : (k : ℕ) → k < p → m.peek (slot table k) w.dev ≡ get_or expected (k % 9) 0

module _ {S : Type 0} (b : Bus S) (m : Memory b) (bms : List (Prog (World S) (ℕ × ℕ))) (table : ℕ)
    (expected : List ℕ) (fixed : List (ℕ × ℕ)) (is_table : IsTable table)
    (apart : Apart table fixed) where
  -- Every kernel ends with the checksum that is expected of it, from any state with well-formed
  -- buffers and the fixed words.
  abbrev pub KernelsGive : Type 0
  KernelsGive =
      (i : ℕ)
      → i < 9
      → (bm : Prog (World S) (ℕ × ℕ)) × (get_elem? bms i ≡ some bm)
        × ((w : World S)
            → IsRam w.ram
            → Fixed b m fixed w.dev
            → Gives b m w (get_or expected i 0) (bm w))

  -- The state after the two writes of a result.
  abbrev written : ℕ → ℕ → ℕ → World S → World S
  written p us ck w = record w {
    dev = b.write (slot table p) ck (b.write (table + p * 8) us w.dev);
  }

  Recorded-next :
      (p us ck : ℕ) (w : World S)
      → p < 27
      → ck ≡ get_or expected (p % 9) 0
      → Recorded b m table expected fixed p w
      → Recorded b m table expected fixed (p + 1) (written p us ck w)
  Recorded-next p us ck w h e r = record {
    is_ram = r.is_ram;
    header = Fixed-write b m fixed table _ ck _ apart (omega arith) (omega arith) (omega arith) (
        Fixed-write b m fixed table _ us _ apart (omega arith) (omega arith) (omega arith)
          r.header);
    slots = λ k q. slot_next k q (ℕ_discrete p k);
  }
    where
      slot_next :
          (k : ℕ)
          → k < p + 1
          → Dec (p ≡ k)
          → m.peek (slot table k) (written p us ck w).dev ≡ get_or expected (k % 9) 0
      slot_next k q (yes pk) =
          subst (λ t. m.peek (slot table t) (written p us ck w).dev ≡ get_or expected (t % 9) 0) pk
            (peek-write_self b m (slot table p) ck _ (omega arith) ∙ e)
      slot_next k q (no ne) =
          peek-write_ne b m (slot table k) (slot table p) ck _ (omega arith) (omega arith)
            (omega arith)
          ∙ peek-write_ne b m (slot table k) (table + p * 8) us _ (omega arith) (omega arith)
              (omega arith)
          ∙ r.slots k (omega arith)

  slot_base :
      (run i : ℕ) → run < 3 → i < 9 → (table +u (run *u 9 +u i) *u 8) ≡ table + (run * 9 + i) * 8
  slot_base run i p q = omega arith

  slot_end :
      (run i : ℕ)
      → run < 3
      → i < 9
      → ((table +u (run *u 9 +u i) *u 8) +u 4) ≡ slot table (run * 9 + i)
  slot_end run i p q = omega arith

  written_at :
      (p us ck base last : ℕ) (w : World S)
      → base ≡ table + p * 8
      → last ≡ slot table p
      → Recorded b m table expected fixed (p + 1) (written p us ck w)
      → Recorded b m table expected fixed
          (p + 1)
          (record w { dev = b.write last ck (b.write base us w.dev) })
  written_at p us ck base last w e f r = rw (e, f) r

  Recorded-Keeps :
      (p : ℕ) (w w' : World S)
      → p < 28
      → IsRam w'.ram
      → Keeps b m w.dev w'.dev
      → Recorded b m table expected fixed p w
      → Recorded b m table expected fixed p w'
  Recorded-Keeps p w w' h v q r = record {
    is_ram = v;
    header = Fixed-Keeps b m fixed table apart q r.header;
    slots = λ k l. q (slot table k) (omega arith) ∙ r.slots k l;
  }

  run_one-Recorded :
      (run i : ℕ) (w : World S)
      → KernelsGive
      → run < 3
      → i < 9
      → Recorded b m table expected fixed (run * 9 + i) w
      → Ends
          (λ _ w'. Recorded b m table expected fixed (run * 9 + i + 1) w')
          (run_one b bms table run i w)
  unfolding run_one set_reg
  run_one-Recorded run i w gives p q r =
      let (bm, is, give) = gives i q in
      rw (is, run_one)
        (Ends-bind bm _ w (give w r.is_ram r.header) λ t w1 h. ends (
          written_at (run * 9 + i) (t.0) (t.1) _ _ w1 (slot_base run i p q) (slot_end run i p q) (
            Recorded-next (run * 9 + i) (t.0) (t.1) w1 (omega arith)
              (h.0 ∙ ap (λ n. get_or expected n 0) (omega arith))
              (Recorded-Keeps (run * 9 + i) w w1 (omega arith) (h.1) (h.2) r))))

  run_kernels-Recorded :
      (left run i : ℕ) (w : World S)
      → KernelsGive
      → run < 3
      → i + left ≡ 9
      → Recorded b m table expected fixed (run * 9 + i) w
      → Ends
          (λ _ w'. Recorded b m table expected fixed (run * 9 + 9) w')
          (run_kernels b bms table run left i w)
  unfolding run_kernels
  run_kernels-Recorded zero run i w gives p e r =
      let all : run * 9 + i ≡ run * 9 + 9 = omega arith in
      ends (subst (λ n. Recorded b m table expected fixed n w) all r)
  run_kernels-Recorded (suc left) run i w gives p e r =
      Ends-bind (run_one b bms table run i) _ w (run_one-Recorded run i w gives p (omega arith) r)
        λ _ w1 h.
          run_kernels-Recorded left run (i + 1) w1 gives p (omega arith)
            (subst (λ n. Recorded b m table expected fixed n w1) (add_assoc (run * 9) i 1) h)

  -- All the runs.
  pub run_all-Recorded :
      (left run : ℕ) (w : World S)
      → KernelsGive
      → run + left ≡ 3
      → Recorded b m table expected fixed (run * 9) w
      → Ends (λ _ w'. Recorded b m table expected fixed 27 w') (run_all b bms table left run w)
  unfolding run_all
  run_all-Recorded zero run w gives e r =
      let all : run * 9 ≡ 27 = omega arith in
      ends (subst (λ n. Recorded b m table expected fixed n w) all r)
  run_all-Recorded (suc left) run w gives e r =
      let first : run * 9 ≡ run * 9 + 0 = omega arith in
      Ends-bind (run_kernels b bms table run 9 0) _ w
        (run_kernels-Recorded 9 run 0 w gives (omega arith) refl
          (subst (λ n. Recorded b m table expected fixed n w) first r))
        λ _ w1 h.
          let next : run * 9 + 9 ≡ (run + 1) * 9 = omega arith in
          run_all-Recorded left (run + 1) w1 gives (omega arith)
            (subst (λ n. Recorded b m table expected fixed n w1) next h)
