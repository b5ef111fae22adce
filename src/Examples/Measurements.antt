-- ===== src/Examples/Measurements.antt =====
-- bench/blink.c and bench/irq_latency.c on the chip of Chip, and the layout of the buffers.
use inmojomni.Base.{IsIn, ℕ, refl, ◌+◌, ◌*◌, ◌/◌, ◌%◌, ◌^◌, ◌≤◌, ◌≡◌, ◌≢◌, arith, Bool, true, false}
use inmojomni.Base.{List, [], ◌∷◌, length, ◌==◌, if◌then◌else◌, ◌+u◌}
use inmojomni.Machine.{done, InSram}
use inmojomni.Machine.Ends.{Ends}
use inmojomni.Blink.{blink_loop}
use inmojomni.Blink.Period.{blink_loop-Timed}
use inmojomni.IrqLatency.{with_jmp_pin, no_samples, isr_irq13, irq_count, await, measure_run}
use inmojomni.IrqLatency.Fields.{with_jmp_pin-fields}
use inmojomni.IrqLatency.Samples.{AllOf, total_of, add_samples, add_samples-least-greatest}
use inmojomni.IrqLatency.Handler.{isr_irq13-counts, isr_irq13-releases}
use inmojomni.IrqLatency.Await.{Outcome, await-Outcome}
use inmojomni.IrqLatency.Popped.{Popped}
use inmojomni.IrqLatency.Runs.{Ending, measure_run-Ending}
use inmojomni.Layout.{words_of, crc_buf, sort_buf, word_address, word_address-distinct}
use inmojomni.Examples.Chip.{chip, memory, blank, chip_clock, chip_writes}

blink_loop-Timed_example :
    Ends
      (λ _ s'.
        (chip_clock.now blank + 3 * 250000 ≤ chip_clock.now s')
        × (chip_clock.now s' ≤ chip_clock.now blank + 3 * (250000 + 3 * 1)))
      (blink_loop chip 1000004 3 blank)
blink_loop-Timed_example =
    blink_loop-Timed chip 4 1 chip_clock 1000004 3 blank chip_writes (omega arith) (omega arith)

with_jmp_pin-fields_example :
    (with_jmp_pin 0x1F006000 / 2 ^ 24 % 2 ^ 5 ≡ 16)
    × (with_jmp_pin 0x1F006000 % 2 ^ 24 ≡ 0x1F006000 % 2 ^ 24)
    × (with_jmp_pin 0x1F006000 / 2 ^ 29 ≡ 0x1F006000 / 2 ^ 29)
with_jmp_pin-fields_example = with_jmp_pin-fields 0x1F006000 (omega arith)

add_samples-least-greatest_example :
    (let out = add_samples (7 ∷ 3 ∷ 9 ∷ []) no_samples in
      IsIn out.mn (7 ∷ 3 ∷ 9 ∷ [])
      × IsIn out.mx (7 ∷ 3 ∷ 9 ∷ [])
      × ((x : ℕ) → IsIn x (7 ∷ 3 ∷ 9 ∷ []) → (out.mn ≤ x) × (x ≤ out.mx))
      × (out.sum ≡ total_of (7 ∷ 3 ∷ 9 ∷ []) % 2 ^ 32))
add_samples-least-greatest_example =
    add_samples-least-greatest 7 (3 ∷ 9 ∷ []) (omega arith, (omega arith, (omega arith, tt)))

isr_irq13-counts_example :
    Ends
      (λ _ s'.
        (memory.peek irq_count s' ≡ (memory.peek irq_count blank +u 1))
        × ((a : ℕ) → InSram a → a ≢ irq_count → memory.peek a s' ≡ memory.peek a blank))
      (isr_irq13 chip blank)
isr_irq13-counts_example = isr_irq13-counts chip memory blank

isr_irq13-releases_example :
    Ends
      (λ _ s'.
        await chip 1 irq_count (λ v. if v == (0 +u 1) then false else true) 1 0 s'
        ≡ done tt (chip.read irq_count s').1)
      (isr_irq13 chip blank)
isr_irq13-releases_example = isr_irq13-releases chip memory 0 0 blank refl

-- The loop that waits for the handler to have run once.
abbrev not_one : ℕ → Bool
not_one v = if v == 1 then false else true

await-Outcome_example :
    Outcome chip irq_count not_one 1 1000000 blank (await chip 1000001 irq_count not_one 1 0 blank)
await-Outcome_example =
    await-Outcome chip irq_count not_one 1 1000001 0 blank (omega arith) (omega arith)

measure_run-Ending_example :
    Ending chip
      (λ t _.
        (t.0 ≡ (0 + 10000) % 2 ^ 32)
        × (ns : List ℕ) × (length ns ≡ 10000)
        × AllOf (Popped chip) ns
        × (t.1 ≡ add_samples ns no_samples))
      (measure_run chip 1000001 10000 0 0 0 no_samples blank)
measure_run-Ending_example =
    measure_run-Ending chip 4 1 chip_clock 1000001 (omega arith) (omega arith) (omega arith) 10000 0
      0 0 no_samples blank (omega arith)

word_address-distinct_example :
    InSram (word_address crc_buf 1023)
    × (word_address crc_buf 1023 ≡ word_address sort_buf 0
        → (crc_buf ≡ sort_buf) × (◌≡◌ {A = ℕ} 1023 0))
word_address-distinct_example =
    word_address-distinct crc_buf sort_buf 1023 0 (unfold words_of in omega arith)
      (unfold words_of in omega arith)
