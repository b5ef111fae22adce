-- ===== src/PlatformDefs/Clocks.antt =====
-- The three frequencies of a clock after platform_defs.h.
use inmojomni.Base.{ℕ, ◌*◌, ◌/◌, ◌%◌, ◌^◌, ◌<◌, ◌≡◌, refl, arith, ◌==◌, if◌then◌else◌}
use inmojomni.Base.{none, some}
use inmojomni.PlatformDefs.{ClockDefs, define_hz, define_khz, define_mhz, define_clock}

-- What a build defines of a clock: at most one of the three, below 2 ^ 32 Hz.
pub data Given : ClockDefs → Type 0 where
  nothing : Given (record { hz = none; khz = none; mhz = none })
  in_hz : (hz : ℕ) → hz < 2 ^ 32 → Given (record { hz = some hz; khz = none; mhz = none })
  in_khz : (k : ℕ) → k * 1000 < 2 ^ 32 → Given (record { hz = none; khz = some k; mhz = none })
  in_mhz : (m : ℕ) → m * 1000000 < 2 ^ 32 → Given (record { hz = none; khz = none; mhz = some m })

-- The frequency in Hz that is meant.
unfoldable pub frequency : {d : ClockDefs} → ℕ → Given d → ℕ
frequency default nothing = default
frequency default (in_hz hz h) = hz
frequency default (in_khz k h) = k * 1000
frequency default (in_mhz m h) = m * 1000000

-- The frequencies agree, and each of the smaller units is defined exactly when it divides.
pub record Agrees (hz : ℕ) (d : ClockDefs) : Type 0 where
  pub in_hertz : d.hz ≡ some hz
  pub in_kilohertz : d.khz ≡ (if hz % 1000 == 0 then some (hz / 1000) else none)
  pub in_megahertz : d.mhz ≡ (if hz % 1000000 == 0 then some (hz / 1000000) else none)

-- Where a build defines at most one of the three frequencies of a clock, the header defines the one
-- in Hz that is meant, and those in kHz and in MHz exactly when they are whole numbers, and the
-- three agree.
pub define_clock-Agrees :
    (default : ℕ) {d : ClockDefs} (g : Given d)
    → Agrees (frequency default g) (define_clock default d)
unfolding define_clock define_hz define_khz define_mhz frequency
define_clock-Agrees default nothing = record {
  in_hertz = refl;
  in_kilohertz = refl;
  in_megahertz = ground arith;
}
define_clock-Agrees default (in_hz hz h) = record {
  in_hertz = refl;
  in_kilohertz = refl;
  in_megahertz = ground arith;
}
define_clock-Agrees default (in_khz k h) = record {
  in_hertz = ground arith;
  in_kilohertz = ground arith;
  in_megahertz = ground arith;
}
define_clock-Agrees default (in_mhz m h) = record {
  in_hertz = ground arith;
  in_kilohertz = ground arith;
  in_megahertz = ground arith;
}
