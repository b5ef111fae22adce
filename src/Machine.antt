-- ===== src/Machine.antt =====
-- What the C programs do to the chip: `REG(a)` reads and writes on a bus that is a parameter, and
-- endless loops as outcomes. `Memory` states what the programs rely on of the SRAM behind the bus.
pub mod Ends
pub mod Keeps
use inmojomni.Base.{
  ℕ, zero, suc, ◌+◌, ◌*◌, ◌%◌, ◌≤◌, ◌<◌, ◌≡◌, Bool, true, false, ◌==◌, if◌then◌else◌,
}

-- A volatile read may change the device (a FIFO is popped, a timer goes on).
pub record Bus (S : Type 0) : Type 0 where
  pub read : ℕ → S → ℕ × S
  pub write : ℕ → ℕ → S → S

-- `spinning`: a polling loop has used up its fuel. `stopped`: the code is in a `for (;;) {}`.
-- `fault`: an access out of bounds of an array, or a division by 0.
pub data Run (S A : Type 0) : Type 0 where
  done : A → S → Run S A
  spinning stopped fault : S → Run S A

abbrev pub Prog : Type 0 → Type 0 → Type 0
Prog S A = S → Run S A

abbrev pub pure : {S A : Type 0} → A → Prog S A
pure a s = done a s

infixl 5 ◌>>=◌ ◌>>◌
abbrev pub ◌>>=◌ : {S A B : Type 0} → Prog S A → (A → Prog S B) → Prog S B
◌>>=◌ m k s = elim (m s) [
  | done a s' ↦ k a s'
  | spinning s' ↦ spinning s'
  | stopped s' ↦ stopped s'
  | fault s' ↦ fault s'
]

abbrev pub ◌>>◌ : {S B : Type 0} → Prog S (Unit {0}) → Prog S B → Prog S B
m >> k = m >>= λ _. k

-- `for (;;) {}`
unfoldable pub halt : {S A : Type 0} → Prog S A
halt s = stopped s

module _ {S : Type 0} (b : Bus S) where
  -- `REG(a)` read, and `REG(a) = v`.
  unfoldable pub reg : ℕ → Prog S ℕ
  reg a s = let (v, s') = b.read a s in done v s'

  unfoldable pub set_reg : ℕ → ℕ → Prog S (Unit {0})
  set_reg a v s = done tt (b.write a v s)

  -- `while (!test(REG(a))) {}`, on fuel for the number of reads.
  unfoldable pub poll : ℕ → ℕ → (ℕ → Bool) → Prog S (Unit {0})
  poll zero a test s = spinning s
  poll (suc fuel) a test s =
      let (v, s') = b.read a s in elim (test v) [ true ↦ done tt s' | false ↦ poll fuel a test s' ]

-- The SRAM of addressmap.h, by words: SRAM_BASE up to SRAM_END.
abbrev pub InSram : ℕ → Type 0
InSram a = (0x20000000 ≤ a) × (a < 0x20042000) × (a % 4 ≡ 0)

-- What is relied on of the words of SRAM, seen by a debug probe as `peek`: a read gives the word,
-- a write at an aligned address sets that word and no other, and no read changes a word.
pub record Memory {S : Type 0} (b : Bus S) : Type 0 where
  pub peek : ℕ → S → ℕ
  pub peek-read : (a r : ℕ) (s : S) → InSram a → peek a (b.read r s).1 ≡ peek a s
  pub read-peek : (a : ℕ) (s : S) → InSram a → (b.read a s).0 ≡ peek a s
  pub peek-write :
      (a w v : ℕ) (s : S)
      → InSram a
      → w % 4 ≡ 0
      → peek a (b.write w v s) ≡ (if w == a then v else peek a s)
