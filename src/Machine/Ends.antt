-- ===== src/Machine/Ends.antt =====
-- Total correctness: a run that comes to its end, in a state of which something holds.
use inmojomni.Base.{◌≡◌, refl}
use inmojomni.Machine.{Run, done, stopped, Prog, ◌>>=◌}

pub data Ends {S A : Type 0} (Q : A → S → Type 0) : Run S A → Type 0 where
  ends : {a : A} {s : S} → Q a s → Ends Q (done a s)

module _ {S A : Type 0} {Q : A → S → Type 0} where
  pub Ends-bind :
      {B : Type 0} {R : B → S → Type 0} (m : Prog S A) (k : A → Prog S B) (s : S)
      → Ends Q (m s)
      → ((a : A) (s' : S) → Q a s' → Ends R (k a s'))
      → Ends R ((m >>= k) s)
  Ends-bind {R} m k s e next = go (m s) e
    where
      go :
          (r : Run S A)
          → Ends Q r
          → Ends R (elim r [
            | Run.done a s' ↦ k a s'
            | Run.spinning s' ↦ Run.spinning s'
            | Run.stopped s' ↦ Run.stopped s'
            | Run.fault s' ↦ Run.fault s'
          ])
      go r (ends q) = next _ _ q

  pub Ends-mono :
      {R : A → S → Type 0} {r : Run S A} → Ends Q r → ((a : A) (s : S) → Q a s → R a s) → Ends R r
  Ends-mono (ends q) weaken = ends (weaken _ _ q)

  -- The end of a run, as a value.
  pub Ends-value : (r : Run S A) → Ends Q r → (a : A) × (s : S) × (r ≡ done a s) × Q a s
  Ends-value r (ends {a} {s} q) = (a, s, refl, q)

-- A run that reaches an endless loop, in a state of which something holds.
pub data Stops {S A : Type 0} (Q : S → Type 0) : Run S A → Type 0 where
  stops : {s : S} → Q s → Stops Q (stopped s)

module _ {S A B : Type 0} {Q : A → S → Type 0} where
  -- After a run that comes to its end, the whole run is what follows.
  pub Ends-then :
      (X : Run S B → Type 0) (m : Prog S A) (k : A → Prog S B) (s : S)
      → Ends Q (m s)
      → ((a : A) (s' : S) → Q a s' → X (k a s'))
      → X ((m >>= k) s)
  Ends-then X m k s e next = go (m s) e
    where
      go :
          (r : Run S A)
          → Ends Q r
          → X (elim r [
            | Run.done a s' ↦ k a s'
            | Run.spinning s' ↦ Run.spinning s'
            | Run.stopped s' ↦ Run.stopped s'
            | Run.fault s' ↦ Run.fault s'
          ])
      go r (ends q) = next _ _ q

  pub Stops-bind :
      {R : S → Type 0} (m : Prog S A) (k : A → Prog S B) (s : S)
      → Ends Q (m s)
      → ((a : A) (s' : S) → Q a s' → Stops R (k a s'))
      → Stops R ((m >>= k) s)
  Stops-bind {R} m k s e next = Ends-then (Stops R) m k s e next
