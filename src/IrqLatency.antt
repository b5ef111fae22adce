-- ===== src/IrqLatency.antt =====
-- bench/irq_latency.c: the handler, the configuration of the pins and of the PIO, and the
-- measurement. `board_init`, `sys_clock_125mhz`, `measure_khz` and `sleep_us` are those of Board.
pub mod Fields
pub mod Samples
pub mod Handler
pub mod Await
pub mod Popped
pub mod Runs
pub mod Program
pub mod Interrupts
use inmojomni.Base.{ℕ, zero, suc, ◌+◌, ◌*◌, bit_and, bit_or, ◌<<u◌, ◌>>u◌, ◌+u◌, ◌*u◌, not_u}
use inmojomni.Base.{
  Bool, true, false, ltb, ◌==◌, if◌then◌else◌, List, [], ◌∷◌, none, some, get_elem?,
}
use inmojomni.Machine.{Bus, Prog, spinning, fault, pure, halt, reg, set_reg, poll, ◌>>=◌, ◌>>◌}
use inmojomni.Board
use inmojomni.Board.{any_set, sys_clock_125mhz, measure_khz, sleep_us}

-- The text of bench/bench.c.
abbrev pub board_init : {S : Type 0} → Bus S → ℕ → Prog S (Unit {0})
board_init = Board.board_init

-- The PIO program.
abbrev pub program_words : List ℕ
program_words = 0x200F ∷ 0x208F ∷ 0xA02B ∷ 0x00C5 ∷ 0x0043 ∷ 0x4020 ∷ 0x8020 ∷ []

abbrev pub irq_count : ℕ
irq_count = 0x20024000

abbrev pub intr1 : ℕ
intr1 = 0x40014000 + 0xF4

abbrev pub inte1 : ℕ
inte1 = 0x40014000 + 0x104

-- `(v & ~(0x1Fu << 24)) | (PIN_C << 24)`
unfoldable pub with_jmp_pin : ℕ → ℕ
with_jmp_pin v = bit_or (bit_and v (not_u (0x1F <<u 24))) (16 <<u 24)

-- `mn`, `mx` and `sum` of one run.
pub record Stats : Type 0 where
  pub mn : ℕ
  pub mx : ℕ
  pub sum : ℕ

unfoldable pub no_samples : Stats
no_samples = record { mn = 0xFFFFFFFF; mx = 0; sum = 0 }

-- `if (n < mn) mn = n; if (n > mx) mx = n; sum += n;`
unfoldable pub add_sample : ℕ → Stats → Stats
add_sample n st = record {
  mn = if ltb n st.mn then n else st.mn;
  mx = if ltb st.mx n then n else st.mx;
  sum = st.sum +u n;
}

module _ {S : Type 0} (b : Bus S) where
  unfoldable pub isr_irq13 : Prog S (Unit {0})
  isr_irq13 = do
    set_reg b 0xD0000014 (1 <<u 16)
    set_reg b intr1 (1 <<u 31)
    v ← reg b irq_count
    set_reg b irq_count (v +u 1)

  unfoldable pub fail : ℕ → Prog S (Unit {0})
  fail code = do set_reg b (0x20030000 + 0x20) code; set_reg b (0x20030000 + 0x04) 3; halt

  -- `while (stay(REG(a))) if (++spins > 1000000u) fail(code);` at `spins`
  unfoldable pub await : ℕ → ℕ → (ℕ → Bool) → ℕ → ℕ → Prog S (Unit {0})
  await zero a stay code spins s = spinning s
  await (suc fuel) a stay code spins s =
      let (v, s') = b.read a s in
      elim (stay v) [
        | true ↦ elim (ltb 1000000 (spins +u 1)) [
          | true ↦ fail code s'
          | false ↦ await fuel a stay code (spins +u 1) s'
        ]
        | false ↦ pure tt s'
      ]

  -- `for (i = 0; i < n; i++) REG(base + 4 * i) = PROG[i];` at `i`
  unfoldable pub store_program : ℕ → ℕ → ℕ → Prog S (Unit {0})
  store_program base zero i s = pure tt s
  store_program base (suc left) i s = elim (get_elem? program_words i) [
    | none ↦ fault s
    | some w ↦ (set_reg b (base +u 4 *u i) w >> store_program base left (i + 1)) s
  ]

  -- `fuel` bounds the reads of each polling loop.
  module _ (fuel : ℕ) where
    -- From the pins to the PIO program and its copy in the mailbox.
    unfoldable pub configure : Prog S (Unit {0})
    configure = do
      set_reg b (0x40014000 + 8 * 15 + 4) 5
      set_reg b (0x40014000 + 8 * 16 + 4) 5
      set_reg b 0xD0000018 (bit_or (1 <<u 15) (1 <<u 16))
      set_reg b 0xD0000024 (bit_or (1 <<u 15) (1 <<u 16))
      set_reg b (0x4000C000 + 0x3000) (1 <<u 10)
      poll b fuel 0x4000C008 (any_set (1 <<u 10))
      store_program (0x50200000 + 0x048) 7 0
      set_reg b (0x50200000 + 0x0CC) (6 <<u 12)
      set_reg b (0x50200000 + 0x0C8) (1 <<u 16)
      v ← reg b (0x50200000 + 0x0CC)
      set_reg b (0x50200000 + 0x0CC) (with_jmp_pin v)
      set_reg b (0x20030000 + 0x60) 7
      store_program (0x20030000 + 0x64) 7 0
      e ← reg b (0x50200000 + 0x000)
      set_reg b (0x50200000 + 0x000) (bit_or e 1)

    unfoldable pub route_interrupt : Prog S (Unit {0})
    route_interrupt = do
      set_reg b irq_count 0
      set_reg b intr1 (0xF <<u 28)
      set_reg b (inte1 + 0x2000) (1 <<u 31)
      set_reg b 0xE000E100 (1 <<u 13)
      sleep_us b fuel 10

    -- The body of the loop over `i`, in run `r`: the new `total` and the new statistics.
    unfoldable pub measure_one : ℕ → ℕ → ℕ → Stats → Prog S (ℕ × Stats)
    measure_one r i total0 st = do
      let total = total0 +u 1
      set_reg b 0xD0000014 (1 <<u 15)
      await fuel irq_count (λ v. if v == total then false else true) 1 0
      await fuel (0x50200000 + 0x004) (λ v. if bit_and (v >>u 8) 1 == 0 then false else true) 2 0
      v ← reg b (0x50200000 + 0x020)
      let n = not_u v
      set_reg b 0xD0000018 (1 <<u 16)
      set_reg b 0xD0000018 (1 <<u 15)
      if r == 2 then set_reg b (0x20010000 +u 4 *u i) n else pure tt
      if r == 0 then (if i == 0 then set_reg b (0x20030000 + 0x18) n else pure tt) else pure tt
      sleep_us b fuel 5
      pure (total, add_sample n st)

    -- `for (i = 0; i < N; i++)` at `i`, with `left` rounds to go.
    unfoldable pub measure_run : ℕ → ℕ → ℕ → ℕ → Stats → Prog S (ℕ × Stats)
    measure_run zero r i total st = pure (total, st)
    measure_run (suc left) r i total st =
        measure_one r i total st >>= λ (total', st'). measure_run left r (i + 1) total' st'

    -- `for (r = 0; r < RUNS; r++)` at `r`: the last `total`.
    unfoldable pub measure_runs : ℕ → ℕ → ℕ → Prog S ℕ
    measure_runs zero r total = pure total
    measure_runs (suc left) r total = measure_run 10000 r 0 total no_samples >>= λ (total', st).
        let base = (0x20030000 + 0x30) +u 12 *u r in
        set_reg b base st.mn
        >> set_reg b (base +u 4) st.mx
        >> set_reg b (base +u 8) st.sum
        >> measure_runs left (r + 1) total'

    -- After the runs, up to the status 2.
    unfoldable pub finish : ℕ → Prog S (Unit {0})
    finish total = do
      set_reg b 0xE000E180 (1 <<u 13)
      set_reg b (inte1 + 0x3000) (0xF <<u 28)
      set_reg b (0x20030000 + 0x1C) total
      set_reg b (0x20030000 + 0x04) 2

    -- The first `rounds` rounds of `for (;;)`, which has no end of its own.
    unfoldable pub led_loop : ℕ → Prog S (Unit {0})
    led_loop zero = pure tt
    led_loop (suc rounds) =
        set_reg b 0xD000001C (1 <<u 25) >> sleep_us b fuel 250000 >> led_loop rounds

    -- LANG_ID is given by the build.
    unfoldable pub mojo_main : ℕ → ℕ → Prog S (Unit {0})
    mojo_main lang_id rounds = do
      board_init b fuel
      set_reg b (0x20030000 + 0x00) 0x4952514C
      set_reg b (0x20030000 + 0x04) 1
      set_reg b (0x20030000 + 0x08) 10000
      set_reg b (0x20030000 + 0x0C) 3
      set_reg b (0x20030000 + 0x10) lang_id
      set_reg b (0x20030000 + 0x1C) 0
      set_reg b (0x20030000 + 0x20) 0
      sys_clock_125mhz b fuel
      khz ← measure_khz b fuel 9
      set_reg b (0x20030000 + 0x14) khz
      configure
      route_interrupt
      total ← measure_runs 3 0 0
      finish total
      set_reg b (0x40014000 + 8 * 25 + 4) 5
      set_reg b 0xD0000024 (1 <<u 25)
      led_loop rounds
