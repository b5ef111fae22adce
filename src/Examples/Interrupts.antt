-- ===== src/Examples/Interrupts.antt =====
-- The chip of Chip with GPIO 15 and its edge, and a core that takes each interrupt at once.
use inmojomni.Base.{
  inl, inr, ℕ, ◌≡◌, refl, ap, arith, Bool, true, false, ◌==◌, ◌&&◌, if◌then◌else◌, bit_and,
}
use inmojomni.Machine.{◌>>◌, Bus, Memory, InSram}
use inmojomni.Board.Sleep.{Clock}
use inmojomni.IrqLatency.{intr1, route_interrupt, measure_runs}
use inmojomni.IrqLatency.Interrupts.{IsPlain, Edge, Core, Fair, interruptible}
use inmojomni.IrqLatency.Interrupts.Waits.{QuietAt}
use inmojomni.IrqLatency.Interrupts.Sampled.{Sampled}
use inmojomni.IrqLatency.Interrupts.Reported.{RunsDone, measure_runs-Sampled}
use inmojomni.IrqLatency.Popped.{Popped}
use inmojomni.IrqLatency.Interrupts.Images.{put_runs, AllRuns}
use inmojomni.Base.{List, length}
use inmojomni.IrqLatency.Interrupts.Enabled.{measure_interrupts-Sampled}
use inmojomni.IrqLatency.Interrupts.Finished.{Complete, measurement-Complete}
use inmojomni.IrqLatency.{finish}
use inmojomni.Machine.{◌>>=◌}
use inmojomni.Examples.Chip.{chip_clock, Chip, chip, memory, blank}

record Pins : Type 0 where
  words : Chip
  pin : Bool
  latched : Bool
  routed : Bool
  taken : Bool

-- Whether the write sets the bit of the register.
abbrev sets : ℕ → ℕ → ℕ → ℕ → Bool
sets register bit a v = a == register && (if bit_and v bit == 0 then false else true)

abbrev next_pin : ℕ → ℕ → Bool → Bool
next_pin a v pin =
    if sets 0xD0000014 0x8000 a v then true else (if sets 0xD0000018 0x8000 a v then false else pin)

abbrev next_latched : ℕ → ℕ → Bool → Bool → Bool
next_latched a v pin latched =
    if sets intr1 0x80000000 a v
    then false
    else (if sets 0xD0000014 0x8000 a v then (if pin then latched else true) else latched)

abbrev pins : Bus Pins
pins = record {
  read = λ a s. let (v, w) = chip.read a s.words in (v, record s { words = w });
  write = λ a v s. record {
    words = chip.write a v s.words;
    pin = next_pin a v s.pin;
    latched = next_latched a v s.pin s.latched;
    routed = if sets 0x40016104 0x80000000 a v then true else s.routed;
    taken = if sets 0xE000E100 0x2000 a v then true else s.taken;
  };
}

pins_memory : Memory pins
pins_memory = record {
  peek = λ a s. memory.peek a s.words;
  peek-read = λ a r s h. refl;
  read-peek = λ a s h. memory.read-peek a s.words h;
  peek-write = λ a w v s h k. refl;
}

pins_clock : Clock pins 4 1
pins_clock = record {
  now = λ s. chip_clock.now s.words;
  phase = λ s. chip_clock.phase s.words;
  shows = λ s. chip_clock.shows s.words;
  parts = λ s. chip_clock.parts s.words;
  advances = λ s. chip_clock.advances s.words;
  at_most = λ s. chip_clock.at_most s.words;
}

no_pin : (a v : ℕ) (pin : Bool) → InSram a → next_pin a v pin ≡ pin
no_pin a v pin h = ground arith

no_edge : (a v : ℕ) (pin latched : Bool) → InSram a → next_latched a v pin latched ≡ latched
no_edge a v pin latched h = ground arith

abbrev both_on : Pins → Bool
both_on s = s.routed && s.taken

still_on : (a v : ℕ) (s : Pins) → IsPlain a → both_on (pins.write a v s) ≡ both_on s
still_on a v s (inl h) = ground arith
still_on a v s (inr (inl e)) = ground arith
still_on a v s (inr (inr h)) = ground arith

pins_edge : Edge pins
pins_edge = record {
  pin = λ s. s.pin;
  latched = λ s. s.latched;
  enabled = both_on;
  plain = still_on;
  look = λ a s. refl;
  acknowledge_all = λ s. (refl, refl);
  route = λ s. (refl, refl);
  take = λ s. (refl, refl);
  leave = λ s. refl;
  unroute = λ s. refl;
  enable = λ s. refl;
  raise = λ s h. (refl, ap (λ t. if t then s.latched else true) h);
  lower = λ s. (refl, refl);
  acknowledge = λ s. (refl, refl);
  set_other = λ s. (refl, refl);
  clear_other = λ s. (refl, refl);
  store = λ a v s h. (no_pin a v s.pin h, no_edge a v s.pin s.latched h);
  load = λ a s. (refl, refl);
}

abbrev at_once : ℕ → Bool
at_once t = true

at_once-Fair : Fair at_once
at_once-Fair = λ t. (0, omega arith, refl)

abbrev no_words : ℕ → ℕ
no_words a = 0

abbrev before : Core Pins
before = record {
  dev = record { words = blank; pin = false; latched = false; routed = true; taken = true };
  time = 0;
}

before-QuietAt : QuietAt pins pins_memory pins_edge at_once no_words 0 false before
unfolding pins_memory pins_edge
before-QuietAt = record {
  count = refl;
  level = refl;
  edge = refl;
  on = refl;
  others = λ a h ne. refl;
}

measure_runs-Sampled_example :
    Sampled pins pins_edge at_once
      (λ t c. RunsDone pins pins_memory pins_edge at_once no_words 3 0 0 t c)
      (measure_runs (interruptible pins pins_edge at_once) 1000001 3 0 0 before)
measure_runs-Sampled_example =
    measure_runs-Sampled pins pins_memory pins_edge at_once 4 1 pins_clock at_once-Fair 1000001
      (omega arith) (omega arith) (omega arith) 3 no_words 0 0 before (omega arith) (omega arith)
      before-QuietAt

-- Before the interrupt is routed.
abbrev powered : Core Pins
powered = record {
  dev = record { words = blank; pin = false; latched = false; routed = false; taken = false };
  time = 0;
}

measure_interrupts-Sampled_example :
    Sampled pins pins_edge at_once
      (λ total c.
        (total ≡ 30000)
        × (runs : List (List ℕ)) × (length runs ≡ 3)
        × AllRuns (Popped (interruptible pins pins_edge at_once)) runs
        × QuietAt pins pins_memory pins_edge at_once
            (put_runs 0 runs (λ a. pins_memory.peek a powered.dev))
            30000
            false
            c)
      ((route_interrupt (interruptible pins pins_edge at_once) 1000001
          >> measure_runs (interruptible pins pins_edge at_once) 1000001 3 0 0)
        powered)
unfolding pins_edge
measure_interrupts-Sampled_example =
    measure_interrupts-Sampled pins pins_memory pins_edge at_once 4 1 pins_clock at_once-Fair
      1000001 (omega arith) (omega arith) (omega arith) powered refl refl

measurement-Complete_example :
    Sampled pins pins_edge at_once
      (λ _ c. Complete pins pins_memory pins_edge at_once c.dev)
      (((route_interrupt (interruptible pins pins_edge at_once) 1000001
            >> measure_runs (interruptible pins pins_edge at_once) 1000001 3 0 0)
          >>= λ total. finish (interruptible pins pins_edge at_once) 1000001 total)
        powered)
unfolding pins_edge
measurement-Complete_example =
    measurement-Complete pins pins_memory pins_edge at_once 4 1 pins_clock at_once-Fair 1000001
      powered (omega arith) (omega arith) (omega arith) refl refl
