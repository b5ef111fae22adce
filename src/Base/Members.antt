-- ===== src/Base/Members.antt =====
-- Membership in a list, and tests of all its members.
use mathlib.Core.Path.{◌≡◌, refl, ap, ◌∙◌}
use mathlib.Core.Logic.{◌⊎◌, inl, inr}
use mathlib.Core.List.{List, [], ◌∷◌}
use mathlib.Core.Bool.{Bool, true, false, ◌&&◌}

pub &&-eq-true : (a b : Bool) → a && b ≡ true → (a ≡ true) × (b ≡ true)
&&-eq-true true b h = (refl, h)
&&-eq-true false b h = absurd (cc)

module _ {A : Type 0} where
  abbrev pub IsIn : A → List A → Type 0
  IsIn x [] = ⊥
  IsIn x (y ∷ l) = (x ≡ y) ⊎ IsIn x l

  unfoldable pub all_of : (A → Bool) → List A → Bool
  all_of p [] = true
  all_of p (x ∷ l) = p x && all_of p l

  pub all_of-IsIn : (p : A → Bool) (l : List A) (x : A) → all_of p l ≡ true → IsIn x l → p x ≡ true
  unfolding all_of
  all_of-IsIn p [] x h i = elim i [ ]
  all_of-IsIn p (y ∷ l) x h (inl e) = ap p e ∙ (&&-eq-true (p y) (all_of p l) h).0
  all_of-IsIn p (y ∷ l) x h (inr i) = all_of-IsIn p l x (&&-eq-true (p y) (all_of p l) h).1 i
