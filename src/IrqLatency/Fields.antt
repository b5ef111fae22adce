-- ===== src/IrqLatency/Fields.antt =====
-- EXECCTRL.JMP_PIN, which bench/irq_latency.c sets by read, mask and write.
use inmojomni.Base.{ℕ, ◌/◌, ◌%◌, ◌^◌, ◌<◌, ◌≡◌, ◌∙◌, ap, arith}
use inmojomni.Base.{bit_and, bit_or}
use inmojomni.Bits.{and-shr, and-mod, or-shr, or-mod, and-mask, and-zero, or-zero}
use inmojomni.IrqLatency.{with_jmp_pin}

-- The three fields of a word around bits 24 to 28.
or_low : (v : ℕ) → with_jmp_pin v % 2 ^ 24 ≡ bit_and v 0xE0FFFFFF % 2 ^ 24
unfolding with_jmp_pin
or_low v = or-mod 24 (bit_and v 0xE0FFFFFF) 0x10000000 ∙ or-zero _

low : (v : ℕ) → bit_and v 0xE0FFFFFF % 2 ^ 24 ≡ v % 2 ^ 24
low v = and-mod 24 v 0xE0FFFFFF ∙ and-mask 24 (v % 2 ^ 24) ∙ omega arith

or_high : (v : ℕ) → with_jmp_pin v / 2 ^ 29 ≡ bit_and v 0xE0FFFFFF / 2 ^ 29
unfolding with_jmp_pin
or_high v = or-shr 29 (bit_and v 0xE0FFFFFF) 0x10000000 ∙ or-zero _

high : (v : ℕ) → v < 2 ^ 32 → bit_and v 0xE0FFFFFF / 2 ^ 29 ≡ v / 2 ^ 29
high v h = and-shr 29 v 0xE0FFFFFF ∙ and-mask 3 (v / 2 ^ 29) ∙ omega arith

field : (v : ℕ) → bit_and v 0xE0FFFFFF / 2 ^ 24 % 2 ^ 5 ≡ 0
field v =
    ap (λ (t : ℕ). t % 2 ^ 5) (and-shr 24 v 0xE0FFFFFF) ∙ and-mod 5 (v / 2 ^ 24) 0xE0 ∙ and-zero _

middle : (v : ℕ) → with_jmp_pin v / 2 ^ 24 % 2 ^ 5 ≡ 16
unfolding with_jmp_pin
middle v =
    ap (λ (t : ℕ). t % 2 ^ 5) (or-shr 24 (bit_and v 0xE0FFFFFF) 0x10000000)
    ∙ or-mod 5 (bit_and v 0xE0FFFFFF / 2 ^ 24) 16
    ∙ ap (λ (t : ℕ). bit_or t 16) (field v)

-- The register's new value has 16, the pin, in JMP_PIN (bits 24 to 28), and every other bit as it
-- was read.
pub with_jmp_pin-fields :
    (v : ℕ)
    → v < 2 ^ 32
    → (with_jmp_pin v / 2 ^ 24 % 2 ^ 5 ≡ 16)
      × (with_jmp_pin v % 2 ^ 24 ≡ v % 2 ^ 24)
      × (with_jmp_pin v / 2 ^ 29 ≡ v / 2 ^ 29)
with_jmp_pin-fields v h = (middle v, or_low v ∙ low v, or_high v ∙ high v h)
