-- ===== src/PlatformDefs.antt =====
-- runtime/boot2/hardware/platform_defs.h: the numbers of the RP2040's parts, and the clock frequencies
-- that a build may define in Hz, kHz or MHz.
pub mod Clocks
use inmojomni.Base.{ℕ, ◌-◌, ◌/◌, ◌%◌, ◌*u◌, ◌==◌, if◌then◌else◌, Option, none, some}

abbrev pub num_cores : ℕ
num_cores = 2

abbrev pub num_dma_channels : ℕ
num_dma_channels = 12

abbrev pub num_dma_timers : ℕ
num_dma_timers = 4

abbrev pub num_dma_irqs : ℕ
num_dma_irqs = 2

abbrev pub num_irqs : ℕ
num_irqs = 32

abbrev pub num_user_irqs : ℕ
num_user_irqs = 6

abbrev pub num_pios : ℕ
num_pios = 2

abbrev pub num_pio_state_machines : ℕ
num_pio_state_machines = 4

abbrev pub num_pio_irqs : ℕ
num_pio_irqs = 2

abbrev pub num_pwm_slices : ℕ
num_pwm_slices = 8

abbrev pub num_pwm_irqs : ℕ
num_pwm_irqs = 1

abbrev pub num_spin_locks : ℕ
num_spin_locks = 32

abbrev pub num_uarts : ℕ
num_uarts = 2

abbrev pub num_i2cs : ℕ
num_i2cs = 2

abbrev pub num_spis : ℕ
num_spis = 2

abbrev pub num_generic_timers : ℕ
num_generic_timers = 1

abbrev pub num_alarms : ℕ
num_alarms = 4

abbrev pub adc_base_pin : ℕ
adc_base_pin = 26

abbrev pub num_adc_channels : ℕ
num_adc_channels = 5

abbrev pub num_resets : ℕ
num_resets = 24

abbrev pub num_bank0_gpios : ℕ
num_bank0_gpios = 30

abbrev pub num_qspi_gpios : ℕ
num_qspi_gpios = 6

abbrev pub pio_instruction_count : ℕ
pio_instruction_count = 32

abbrev pub usbctrl_dpram_size : ℕ
usbctrl_dpram_size = 4096

abbrev pub has_sio_divider : ℕ
has_sio_divider = 1

abbrev pub has_rp2040_rtc : ℕ
has_rp2040_rtc = 1

-- `#define FIRST_USER_IRQ (NUM_IRQS - NUM_USER_IRQS)`
abbrev pub first_user_irq : ℕ
first_user_irq = num_irqs - num_user_irqs

abbrev pub vtable_first_irq : ℕ
vtable_first_irq = 16

-- What is defined of a clock: `CLK_HZ`, `CLK_KHZ` and `CLK_MHZ`.
pub record ClockDefs : Type 0 where
  pub hz : Option ℕ
  pub khz : Option ℕ
  pub mhz : Option ℕ

-- `#ifndef CLK_HZ … #endif`, with the frequency that is the default.
unfoldable pub define_hz : ℕ → ClockDefs → ℕ
define_hz default d = elim d.hz [
  | some hz ↦ hz
  | none ↦ elim d.khz [
    | some khz ↦ khz *u 1000
    | none ↦ elim d.mhz [ some mhz ↦ mhz *u 1000000 | none ↦ default ]
  ]
]

-- `#if defined(CLK_HZ) && !defined(CLK_KHZ) && (CLK_HZ % 1000 == 0)`
unfoldable pub define_khz : ℕ → Option ℕ → Option ℕ
define_khz hz (some khz) = some khz
define_khz hz none = if hz % 1000 == 0 then some (hz / 1000) else none

-- `#if defined(CLK_KHZ) && !defined(CLK_MHZ) && (CLK_KHZ % 1000 == 0)`
unfoldable pub define_mhz : Option ℕ → Option ℕ → Option ℕ
define_mhz khz (some mhz) = some mhz
define_mhz none none = none
define_mhz (some khz) none = if khz % 1000 == 0 then some (khz / 1000) else none

-- What is defined after the header.
unfoldable pub define_clock : ℕ → ClockDefs → ClockDefs
define_clock default d =
    let hz = define_hz default d in
    let khz = define_khz hz d.khz in record { hz = some hz; khz = khz; mhz = define_mhz khz d.mhz }

unfoldable pub xosc_clock : ClockDefs → ClockDefs
xosc_clock d = define_clock 12000000 d

unfoldable pub sys_clock : ClockDefs → ClockDefs
sys_clock d = define_clock 125000000 d

unfoldable pub usb_clock : ClockDefs → ClockDefs
usb_clock d = define_clock 48000000 d

-- A build that defines nothing of a clock.
abbrev pub no_defs : ClockDefs
no_defs = record { hz = none; khz = none; mhz = none }
