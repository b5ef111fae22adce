-- ===== src/Board/Counter.antt =====
-- The frequency counter that `measure_khz` of bench/irq_latency.c runs.
use inmojomni.Base.{ℕ, ◌/◌, ◌%◌, ◌^◌, ◌≤◌, ◌≡◌, ◌<<u◌}
use inmojomni.Base.{Bool, ◌==◌, if◌then◌else◌, true}
use inmojomni.Machine.{Bus}
use inmojomni.Machine.Ends.{Ends}
use inmojomni.Board.{any_set}

-- The registers of the counter, FC0_REF_KHZ up to FC0_SRC.
abbrev pub IsCounterRegister : ℕ → Type 0
IsCounterRegister a = (0x40008080 ≤ a) × (a ≤ 0x40008094) × (a % 4 ≡ 0)

-- The counter as the datasheet has it. The registers keep what was last written to them. The source
-- `src` has the frequency `khz src s`, which no access of the counter changes, and the crystal is the
-- reference. When FC0_REF_KHZ holds the frequency of the crystal and FC0_STATUS has just shown DONE,
-- FC0_RESULT has the frequency of the source in FC0_SRC in bits 5 to 29, above a fraction of 5 bits.
pub record Counter {S : Type 0} (b : Bus S) : Type 0 where
  pub latched : ℕ → S → ℕ
  pub khz : ℕ → S → ℕ
  pub crystal : ℕ
  pub latched-read :
      (a r : ℕ) (s : S) → IsCounterRegister a → latched a (b.read r s).1 ≡ latched a s
  pub latched-write :
      (a w v : ℕ) (s : S)
      → IsCounterRegister a
      → latched a (b.write w v s) ≡ (if w == a then v else latched a s)
  pub khz-read : (src r : ℕ) (s : S) → khz src (b.read r s).1 ≡ khz src s
  pub khz-write : (src w v : ℕ) (s : S) → IsCounterRegister w → khz src (b.write w v s) ≡ khz src s
  pub result :
      (s : S)
      → latched 0x40008080 s ≡ crystal
      → any_set (1 <<u 4) (b.read 0x40008098 s).0 ≡ true
      → (b.read 0x4000809C (b.read 0x40008098 s).1).0 / 2 ^ 5 ≡ khz (latched 0x40008094 s) s

module _ {S : Type 0} (b : Bus S) (Q : S → Type 0)
    (stable : (a : ℕ) (s : S) → Q s → Q (b.read a s).1) where
  -- After a polling loop, the last read was of a state with the property, and passed the test.
  abbrev Last : ℕ → (ℕ → Bool) → S → Type 0
  Last a test t = (s : S) × Q s × (test (b.read a s).0 ≡ true) × (t ≡ (b.read a s).1)

module _ {S : Type 0} (b : Bus S) (k : Counter b) (src hz : ℕ) where
  -- The frequency of the source is `hz`, and the two registers hold the reference and the source.
  abbrev Steady : S → Type 0
  Steady s = k.khz src s ≡ hz

  abbrev Runs : S → Type 0
  Runs s = Steady s × (k.latched 0x40008080 s ≡ 12000) × (k.latched 0x40008094 s ≡ src)
