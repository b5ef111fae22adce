-- ===== src/Results/Words.antt =====
-- Words of SRAM that keep their values through writes elsewhere, and words that have been written.
use inmojomni.Base.{ℕ, ◌+◌, ◌%◌, ◌≤◌, ◌<◌, ◌≡◌, ◌≢◌, ap, ◌∙◌, arith}
use inmojomni.Base.{◌⊎◌, List, [], ◌∷◌, ◌==◌}
use inmojomni.Base.{if◌then◌else◌, true, false}
use inmojomni.Machine.{Bus, Memory, InSram}
use inmojomni.Machine.Keeps.{Keeps}

module _ {S : Type 0} (b : Bus S) (m : Memory b) where
  -- Words that have the values listed.
  abbrev pub Fixed : List (ℕ × ℕ) → S → Type 0
  Fixed [] s = Unit {0}
  Fixed ((a, v) ∷ l) s = (m.peek a s ≡ v) × Fixed l s

-- Words of SRAM outside the 27 slots of 8 bytes that start at `table`.
abbrev pub Apart : ℕ → List (ℕ × ℕ) → Type 0
Apart table [] = Unit {0}
Apart table ((a, v) ∷ l) =
    (0x20000000 ≤ a)
    × (a < 0x20042000)
    × (a % 4 ≡ 0)
    × ((a < table) ⊎ (table + 216 ≤ a))
    × Apart table l

module _ {S : Type 0} (b : Bus S) (m : Memory b) where
  pub peek-write_ne :
      (a w v : ℕ) (s : S) → InSram a → w % 4 ≡ 0 → ¬ (w ≡ a) → m.peek a (b.write w v s) ≡ m.peek a s
  peek-write_ne a w v s h k ne =
      let other : (w == a) ≡ false = ground arith in
      m.peek-write a w v s h k ∙ ap (λ t. if t then v else m.peek a s) other

  pub peek-write_self : (a v : ℕ) (s : S) → InSram a → m.peek a (b.write a v s) ≡ v
  peek-write_self a v s h =
      let same : (a == a) ≡ true = ground arith in
      m.peek-write a a v s h (h.2) ∙ ap (λ t. if t then v else m.peek a s) same

  pub Fixed-Keeps :
      (l : List (ℕ × ℕ)) (table : ℕ) {s s' : S}
      → Apart table l
      → Keeps b m s s'
      → Fixed b m l s
      → Fixed b m l s'
  Fixed-Keeps [] table h q f = tt
  Fixed-Keeps ((a, v) ∷ l) table h q f =
      (q a (h.0, h.1, h.2) ∙ f.0, Fixed-Keeps l table (h.4) q (f.1))

  pub Fixed-write :
      (l : List (ℕ × ℕ)) (table w v : ℕ) (s : S)
      → Apart table l
      → table ≤ w
      → w < table + 216
      → w % 4 ≡ 0
      → Fixed b m l s
      → Fixed b m l (b.write w v s)
  Fixed-write [] table w v s h p q k f = tt
  Fixed-write ((a, x) ∷ l) table w v s h p q k f = (
    peek-write_ne a w v s (h.0, h.1, h.2) k (omega arith) ∙ f.0,
    Fixed-write l table w v s (h.4) p q k (f.1),
  )

-- An aligned word of SRAM that is none of those listed.
abbrev pub Clear : ℕ → List (ℕ × ℕ) → Type 0
Clear w [] = InSram w
Clear w ((a, v) ∷ l) = InSram a × (w ≢ a) × Clear w l

Clear-InSram : (l : List (ℕ × ℕ)) (w : ℕ) → Clear w l → InSram w
Clear-InSram [] w h = h
Clear-InSram (x ∷ l) w h = Clear-InSram l w (h.2)

module _ {S : Type 0} (b : Bus S) (m : Memory b) where
  pub Fixed-write_ne :
      (l : List (ℕ × ℕ)) (w v : ℕ) (s : S) → Clear w l → Fixed b m l s → Fixed b m l (b.write w v s)
  Fixed-write_ne [] w v s h f = tt
  Fixed-write_ne ((a, x) ∷ l) w v s h f =
      let (low, high, aligned) = Clear-InSram l w (h.2) in
      (peek-write_ne b m a w v s (h.0) aligned (h.1) ∙ f.0, Fixed-write_ne l w v s (h.2) (f.1))

  -- A write to one more word.
  pub Fixed-cons :
      (l : List (ℕ × ℕ)) (w v : ℕ) (s : S)
      → Clear w l
      → Fixed b m l s
      → Fixed b m ((w, v) ∷ l) (b.write w v s)
  Fixed-cons l w v s h f =
      (peek-write_self b m w v s (Clear-InSram l w h), Fixed-write_ne l w v s h f)
