-- ===== src/Base/Intervals.antt =====
-- Lists of things that each take up an interval of numbers, in ascending order.
use Prim.Native.Nat.{ℕ, ◌≤◌, ◌<◌}
use mathlib.Core.Path.{◌≡◌, sym, ap, ◌∙◌}
use mathlib.Core.Logic.{◌⊎◌, inl, inr}
use mathlib.Core.List.{List, [], ◌∷◌}
use mathlib.Core.Bool.{Bool, true, ◌&&◌}
use native.Mathlib.Omega.{arith}
use inmojomni.Base.Tests.{ltb, leb, ltb→lt, leb→le}
use inmojomni.Base.Members.{IsIn, &&-eq-true}

module _ {A : Type 0} (lo hi : A → ℕ) where
  -- From `start` on, no interval is empty and none meets the one before.
  unfoldable pub ascends : ℕ → List A → Bool
  ascends start [] = true
  ascends start (x ∷ l) = leb start (lo x) && (ltb (lo x) (hi x) && ascends (hi x) l)

  ascends-cons :
      (start : ℕ) (x : A) (l : List A)
      → ascends start (x ∷ l) ≡ true
      → (start ≤ lo x) × (lo x < hi x) × (ascends (hi x) l ≡ true)
  unfolding ascends
  ascends-cons start x l h =
      let (first, rest) = &&-eq-true (leb start (lo x)) _ h in
      let (proper, next) = &&-eq-true (ltb (lo x) (hi x)) _ rest in
      (leb→le _ _ first, ltb→lt _ _ proper, next)

  pub ascends_bounds :
      (start : ℕ) (l : List A) (x : A)
      → ascends start l ≡ true
      → IsIn x l
      → (start ≤ lo x) × (lo x < hi x)
  ascends_bounds start [] x h i = elim i [ ]
  ascends_bounds start (y ∷ l) x h (inl e) =
      omega (arith, ap lo e, ap hi e, ascends-cons start y l h)
  ascends_bounds start (y ∷ l) x h (inr i) =
      let (first, proper, next) = ascends-cons start y l h in
      omega (arith, ascends_bounds (hi y) l x next i)

  -- Two members are the same, or one ends before the other starts.
  pub ascends_apart :
      (start : ℕ) (l : List A) (x y : A)
      → ascends start l ≡ true
      → IsIn x l
      → IsIn y l
      → (y ≡ x) ⊎ ((hi y ≤ lo x) ⊎ (hi x ≤ lo y))
  ascends_apart start [] x y h i j = elim i [ ]
  ascends_apart start (z ∷ l) x y h (inl e) (inl d) = inl (d ∙ sym e)
  ascends_apart start (z ∷ l) x y h (inl e) (inr j) =
      let next = (ascends-cons start z l h).2 in
      inr (inr (omega (arith, ap hi e, ascends_bounds (hi z) l y next j)))
  ascends_apart start (z ∷ l) x y h (inr i) (inl d) =
      let next = (ascends-cons start z l h).2 in
      inr (inl (omega (arith, ap hi d, ascends_bounds (hi z) l x next i)))
  ascends_apart start (z ∷ l) x y h (inr i) (inr j) =
      ascends_apart (hi z) l x y (ascends-cons start z l h).2 i j
