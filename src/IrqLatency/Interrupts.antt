-- ===== src/IrqLatency/Interrupts.antt =====
-- The main program of bench/irq_latency.c with its interrupt: between any two accesses of the
-- program the core may run the handler, when the edge of GPIO 15 is latched, the interrupt is on, and the schedule
-- says that the interrupt is taken now.
pub mod Quiet
pub mod Waits
pub mod Images
pub mod Lookup
pub mod Host
pub mod Sampled
pub mod Rounds
pub mod Reported
pub mod Enabled
pub mod Finished
use inmojomni.Base.{ℕ, ◌+◌, ◌≤◌, ◌<◌, ◌≡◌, ◌⊎◌, Bool, true, false, ◌&&◌, if◌then◌else◌, ◌<<u◌}
use inmojomni.Machine.{Bus, Run, done, spinning, stopped, fault, InSram}
use inmojomni.IrqLatency.{isr_irq13, intr1, inte1}

-- Where the program writes once the interrupt is on: memory, SIO and INTR1.
abbrev pub IsPlain : ℕ → Type 0
IsPlain a = InSram a ⊎ ((a ≡ intr1) ⊎ ((0xD0000000 ≤ a) × (a < 0xD0001000)))

-- GPIO 15 and the latch of its rising edge (INTR1.GPIO15_EDGE_HIGH) behind the bus, once `configure` has
-- made it an output of SIO, and whether that edge interrupts the core: INTE1 routes it, and the NVIC takes
-- it.
pub record Edge {S : Type 0} (b : Bus S) : Type 0 where
  pub pin : S → Bool
  pub latched : S → Bool
  pub enabled : S → Bool
  pub plain : (a v : ℕ) (s : S) → IsPlain a → enabled (b.write a v s) ≡ enabled s
  pub look : (a : ℕ) (s : S) → enabled (b.read a s).1 ≡ enabled s
  pub acknowledge_all :
      (s : S)
      → (pin (b.write intr1 (0xF <<u 28) s) ≡ pin s)
        × (latched (b.write intr1 (0xF <<u 28) s) ≡ false)
  pub route :
      (s : S)
      → (pin (b.write (inte1 + 0x2000) (1 <<u 31) s) ≡ pin s)
        × (latched (b.write (inte1 + 0x2000) (1 <<u 31) s) ≡ latched s)
  pub take :
      (s : S)
      → (pin (b.write 0xE000E100 (1 <<u 13) s) ≡ pin s)
        × (latched (b.write 0xE000E100 (1 <<u 13) s) ≡ latched s)
  pub leave : (s : S) → latched (b.write 0xE000E180 (1 <<u 13) s) ≡ latched s
  pub unroute : (s : S) → latched (b.write (inte1 + 0x3000) (0xF <<u 28) s) ≡ latched s
  pub enable :
      (s : S)
      → enabled (b.write 0xE000E100 (1 <<u 13) (b.write (inte1 + 0x2000) (1 <<u 31) s)) ≡ true
  pub raise :
      (s : S)
      → pin s ≡ false
      → (pin (b.write 0xD0000014 (1 <<u 15) s) ≡ true)
        × (latched (b.write 0xD0000014 (1 <<u 15) s) ≡ true)
  pub lower :
      (s : S)
      → (pin (b.write 0xD0000018 (1 <<u 15) s) ≡ false)
        × (latched (b.write 0xD0000018 (1 <<u 15) s) ≡ latched s)
  pub acknowledge :
      (s : S)
      → (pin (b.write intr1 (1 <<u 31) s) ≡ pin s) × (latched (b.write intr1 (1 <<u 31) s) ≡ false)
  -- GPIO 16 goes up and down, memory is written, or anything is read.
  pub set_other :
      (s : S)
      → (pin (b.write 0xD0000014 (1 <<u 16) s) ≡ pin s)
        × (latched (b.write 0xD0000014 (1 <<u 16) s) ≡ latched s)
  pub clear_other :
      (s : S)
      → (pin (b.write 0xD0000018 (1 <<u 16) s) ≡ pin s)
        × (latched (b.write 0xD0000018 (1 <<u 16) s) ≡ latched s)
  pub store :
      (a v : ℕ) (s : S)
      → InSram a
      → (pin (b.write a v s) ≡ pin s) × (latched (b.write a v s) ≡ latched s)
  pub load : (a : ℕ) (s : S) → (pin (b.read a s).1 ≡ pin s) × (latched (b.read a s).1 ≡ latched s)

-- The device, and the number of accesses that the main program has made.
pub record Core (S : Type 0) : Type 0 where
  pub dev : S
  pub time : ℕ

module _ {S : Type 0} (b : Bus S) where
  -- The state when the handler returns.
  unfoldable pub after_isr : S → S
  after_isr s = elim (isr_irq13 b s) [
    | done t s' ↦ s'
    | spinning s' ↦ s'
    | stopped s' ↦ s'
    | fault s' ↦ s'
  ]

  module _ (e : Edge b) (schedule : ℕ → Bool) where
    -- The state that the access numbered `time` finds.
    abbrev pub entered : ℕ → S → S
    entered time s = if e.latched s && e.enabled s && schedule time then after_isr s else s

    -- The bus of the main program.
    abbrev pub interruptible : Bus (Core S)
    interruptible = record {
      read = λ a c.
          let (v, s) = b.read a (entered c.time c.dev) in
          (v, record { dev = s; time = c.time + 1 });
      write = λ a v c. record { dev = b.write a v (entered c.time c.dev); time = c.time + 1 };
    }

-- The interrupt is not put off for more than a million accesses.
abbrev pub Fair : (ℕ → Bool) → Type 0
Fair schedule = (t : ℕ) → (k : ℕ) × (k ≤ 1000000) × (schedule (t + k) ≡ true)
