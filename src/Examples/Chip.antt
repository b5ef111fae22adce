-- ===== src/Examples/Chip.antt =====
-- A chip of a few words: SRAM, a clock of four reads a microsecond, and status registers that always
-- answer.
use inmojomni.Base.{
  ◌<◌, ◌⊎◌, ℕ, zero, suc, ◌+◌, ◌*◌, ◌/◌, ◌%◌, ◌^◌, ◌≡◌, refl, arith, List, [], ◌∷◌,
}
use inmojomni.Base.{ltb, true, ◌==◌, if◌then◌else◌}
use inmojomni.Machine.{Bus, Memory, InSram, poll}
use inmojomni.Machine.Ends.{ends}
use inmojomni.World.{Ram, IsRam, World, on_dev}
use inmojomni.Board.Start.{Starts, Locks, Counts}
use inmojomni.Board.Sleep.{Clock}
use inmojomni.Blink.Period.{WritesWithin}
use inmojomni.IrqLatency.Program.{StartsPio}
use inmojomni.Kernels.{Floats}
use inmojomni.Kernels.SinglePrecision.{IeeeLaws}
use inmojomni.Rp2350.Committed.{StartsBanks}

pub record Chip : Type 0 where
  pub words : ℕ → ℕ
  pub clk_sys : ℕ
  pub quarters : ℕ

-- The status registers, a frequency of 125,000 kHz, the timer, and words for the rest.
abbrev pub answer : ℕ → Chip → ℕ
answer a s =
    if a == 0x40024004
    then 0x80000000
    else (if a == 0x40008038
        then 4
        else (if a == 0x40008044
            then s.clk_sys
            else (if a == 0x4000C008
                then 0xFFFFFFFF
                else (if a == 0x40020008
                    then 0xFFFFFFFF
                    else (if a == 0x40028000
                        then 0x80000000
                        else (if a == 0x40008098
                            then 16
                            else (if a == 0x4000809C
                                then 4000007
                                else (if a == 0x40054028
                                    then s.quarters / 4 % 2 ^ 32
                                    else s.words a))))))))

abbrev pub next_clk_sys : ℕ → Chip → ℕ
next_clk_sys a s = if a == 0x4000803C then 1 else (if a == 0x4000A03C then 2 else s.clk_sys)

abbrev pub chip : Bus Chip
chip = record {
  read = λ a s. (answer a s, record s { quarters = s.quarters + 1 });
  write = λ a v s. record s {
    words = λ x. if a == x then v else s.words x;
    clk_sys = next_clk_sys a s;
  };
}

pub sram_answer : (a : ℕ) (s : Chip) → InSram a → answer a s ≡ s.words a
sram_answer a s h = ground arith

abbrev pub memory : Memory chip
memory = record {
  peek = λ a s. s.words a;
  peek-read = λ a r s h. refl;
  read-peek = sram_answer;
  peek-write = λ a w v s h k. refl;
}

abbrev pub blank : Chip
blank = record { words = λ a. 0; clk_sys = 0; quarters = 17179869160 }

abbrev pub zeros : ℕ → List ℕ
zeros zero = []
zeros (suc n) = 0 ∷ zeros n

abbrev pub ram : Ram
ram = record {
  crc_buf = zeros 1024;
  sort_buf = zeros 512;
  mat_a = zeros 256;
  mat_b = zeros 256;
  mat_c = zeros 256;
}

pub ram-IsRam : IsRam ram
ram-IsRam = record {
  crc_size = refl;
  sort_size = refl;
  a_size = refl;
  b_size = refl;
  c_size = refl;
}

abbrev pub world : World Chip
world = record { ram = ram; dev = blank }

pub world-Starts : Starts (on_dev chip) 1
unfolding poll
world-Starts = record {
  crystal = λ s. ends tt;
  clk_ref = λ s. ends tt;
  clk_sys = λ s. ends tt;
  resets = λ s. ends tt;
}

pub chip-Starts : (n : ℕ) → Starts chip (suc n)
unfolding poll
chip-Starts n = record {
  crystal = λ s. ends tt;
  clk_ref = λ s. ends tt;
  clk_sys = λ s. ends tt;
  resets = λ s. ends tt;
}

pub chip-Locks : (n : ℕ) → Locks chip (suc n)
unfolding poll
chip-Locks n = record { out_of_reset = λ s. ends tt; lock = λ s. ends tt; clk_sys = λ s. ends tt }

pub chip-Counts : (n : ℕ) → Counts chip (suc n) 9
unfolding poll
chip-Counts n = record { idle = λ s. ends tt; finished = λ s. ends tt }

pub world_banks : StartsBanks (on_dev chip) 1
unfolding poll
world_banks = λ s. ends tt

a_quarter_on : (n : ℕ) → (n / 4 < (n + 1) / 4) ⊎ (((n + 1) / 4 ≡ n / 4) × (n % 4 < (n + 1) % 4))
a_quarter_on n = omega arith

pub chip_clock : Clock chip 4 1
chip_clock = record {
  now = λ s. s.quarters / 4;
  phase = λ s. s.quarters % 4;
  shows = λ s. refl;
  parts = λ s. omega arith;
  advances = λ s. a_quarter_on s.quarters;
  at_most = λ s. omega arith;
}

-- Thousandths, in place of IEEE single precision.
abbrev pub thousandths : Floats
thousandths = record {
  F = ℕ;
  add = λ x y. x + y;
  mul = λ x y. x * y / 1000;
  gt = λ x y. ltb y x;
  lit_0_0 = 0;
  lit_0_5 = 500;
  lit_1_0 = 1000;
  lit_1_000119 = 1000;
  lit_1_5 = 1500;
}

-- A write takes no time on this chip.
pub chip_writes : WritesWithin chip 4 1 chip_clock
unfolding chip_clock
chip_writes = λ a v s. (omega arith, omega arith)

pub chip-StartsPio : (n : ℕ) → StartsPio chip (suc n)
unfolding poll
chip-StartsPio n = λ s. ends tt

above_sum : (x y c : ℕ) → ltb c x ≡ true → ltb c (x + y) ≡ true
above_sum x y c h = ground arith

pub thousandths-IeeeLaws : IeeeLaws thousandths
thousandths-IeeeLaws = record {
  NonNeg = λ x. Unit {0};
  zero_nonneg = tt;
  one_half_more = tt;
  add_nonneg = λ x y p q. tt;
  scale_nonneg = λ x p. tt;
  half_nonneg = λ x p. tt;
  zero_add = λ x p. omega arith;
  add_gt = λ x y c p q h. above_sum x y c h;
  first_product = refl;
}
