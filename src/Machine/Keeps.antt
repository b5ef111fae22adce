-- ===== src/Machine/Keeps.antt =====
-- Runs that leave every word of SRAM as it was, and devices that answer a polling loop in time.
use inmojomni.Base.{ℕ, zero, suc, ◌%◌, ◌≤◌, ◌≡◌, refl, ◌∙◌, ap, arith}
use inmojomni.Base.{Bool, true, false, ◌==◌, if◌then◌else◌}
use inmojomni.Machine.{Bus, Run, done, Prog, set_reg, poll, ◌>>◌, Memory, InSram}
use inmojomni.Machine.Ends.{Ends, ends, Ends-bind}

-- An aligned address above SRAM: every peripheral of the chip.
abbrev pub IsDevice : ℕ → Type 0
IsDevice w = (0x20042000 ≤ w) × (w % 4 ≡ 0)

module _ {S : Type 0} (b : Bus S) where
  -- The device makes the polled test pass within `fuel` reads.
  abbrev pub Answers : ℕ → ℕ → (ℕ → Bool) → S → Type 0
  Answers fuel a test s = Ends (λ _ _. Unit {0}) (poll b fuel a test s)

module _ {S : Type 0} (b : Bus S) (m : Memory b) where
  abbrev pub Keeps : S → S → Type 0
  Keeps s s' = (a : ℕ) → InSram a → m.peek a s' ≡ m.peek a s

  pub Keeps-refl : (s : S) → Keeps s s
  Keeps-refl s a h = refl

  pub Keeps-trans : {s t u : S} → Keeps s t → Keeps t u → Keeps s u
  Keeps-trans p q a h = q a h ∙ p a h

  pub Keeps-read : (r : ℕ) (s : S) → Keeps s (b.read r s).1
  Keeps-read r s a h = m.peek-read a r s h

  pub Keeps-write : (w v : ℕ) (s : S) → IsDevice w → Keeps s (b.write w v s)
  Keeps-write w v s d a h =
      let other : (w == a) ≡ false = ground arith in
      m.peek-write a w v s h (d.1) ∙ ap (λ t. if t then v else m.peek a s) other

module _ {S : Type 0} (b : Bus S) (Q : S → Type 0)
    (stable : (a : ℕ) (s : S) → Q s → Q (b.read a s).1) where
  -- A polling loop keeps what reads keep.
  pub poll_holds :
      (fuel a : ℕ) (test : ℕ → Bool) (s : S)
      → Answers b fuel a test s
      → Q s
      → Ends (λ _ s'. Q s') (poll b fuel a test s)
  unfolding poll
  poll_holds zero a test s h q = elim h [ ]
  poll_holds (suc fuel) a test s h q =
      now (test (b.read a s).0) (poll_holds fuel a test (b.read a s).1) h
    where
      now :
          (t : Bool)
          → (Answers b fuel a test (b.read a s).1
              → Q (b.read a s).1
              → Ends (λ _ s'. Q s') (poll b fuel a test (b.read a s).1))
          → Ends
              (λ (_ : Unit {0}) (_ : S). Unit {0})
              (elim t [ true ↦ done tt (b.read a s).1 | false ↦ poll b fuel a test (b.read a s).1 ])
          → Ends
              (λ (_ : Unit {0}) s'. Q s')
              (elim t [ true ↦ done tt (b.read a s).1 | false ↦ poll b fuel a test (b.read a s).1 ])
      now true again h = ends (stable a s q)
      now false again h = again h (stable a s q)

-- A relation of states that every read and every write to a device keeps up.
pub record Frame {S : Type 0} (b : Bus S) : Type 1 where
  pub Rel : S → S → Type 0
  pub same : (s : S) → Rel s s
  pub chain : {s t u : S} → Rel s t → Rel t u → Rel s u
  pub on_read : (a : ℕ) (s : S) → Rel s (b.read a s).1
  pub on_write : (w v : ℕ) (s : S) → IsDevice w → Rel s (b.write w v s)

abbrev pub keeps_frame : {S : Type 0} (b : Bus S) → Memory b → Frame b
keeps_frame b m = record {
  Rel = Keeps b m;
  same = Keeps-refl b m;
  chain = Keeps-trans b m;
  on_read = Keeps-read b m;
  on_write = Keeps-write b m;
}

module _ {S : Type 0} (b : Bus S) (f : Frame b) where
  -- A run that comes to its end in a state that is related to `s0`.
  abbrev pub EndsKeeping : {A : Type 0} → S → Run S A → Type 0
  EndsKeeping s0 r = Ends (λ _ s'. f.Rel s0 s') r

  pub poll_keeps :
      (fuel a : ℕ) (test : ℕ → Bool) (s : S)
      → Answers b fuel a test s
      → EndsKeeping s (poll b fuel a test s)
  poll_keeps fuel a test s h =
      poll_holds b (f.Rel s) (λ a t q. f.chain q (f.on_read a t)) fuel a test s h (f.same s)

  pub then_write :
      {A : Type 0} (w v : ℕ) (k : Prog S A) (s0 s : S)
      → IsDevice w
      → f.Rel s0 s
      → (f.Rel s0 (b.write w v s) → EndsKeeping s0 (k (b.write w v s)))
      → EndsKeeping s0 ((set_reg b w v >> k) s)
  unfolding set_reg
  then_write w v k s0 s d h next = next (f.chain h (f.on_write w v s d))

  pub then_poll :
      {A : Type 0} (fuel a : ℕ) (test : ℕ → Bool) (k : Prog S A) (s0 s : S)
      → Answers b fuel a test s
      → f.Rel s0 s
      → ((s' : S) → f.Rel s0 s' → EndsKeeping s0 (k s'))
      → EndsKeeping s0 ((poll b fuel a test >> k) s)
  then_poll fuel a test k s0 s h p next =
      Ends-bind (poll b fuel a test) (λ _. k) s (poll_keeps fuel a test s h)
        (λ _ s' q. next s' (f.chain p q))

  pub set_reg_keeps :
      (w v : ℕ) (s0 s : S) → IsDevice w → f.Rel s0 s → EndsKeeping s0 (set_reg b w v s)
  unfolding set_reg
  set_reg_keeps w v s0 s d h = ends (f.chain h (f.on_write w v s d))
