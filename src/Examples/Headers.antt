-- ===== src/Examples/Headers.antt =====
-- The constants of runtime/boot2/hardware at concrete registers, addresses and clocks.
use inmojomni.Base.{ℕ, ◌%◌, ◌^◌, ◌<◌, ◌≡◌, refl, arith, ◌⊎◌, inl, inr, IsIn, some, none, [], ◌∷◌}
use inmojomni.Machine.Ends.{Ends}
use inmojomni.AddressMap.{Region, xip_ssi, resets, clr_alias, apb_regions}
use inmojomni.AddressMap.{apb_address-distinct}
use inmojomni.Registers.{Field, Register, rw_access, field, get_field, set_field}
use inmojomni.Registers.Ssi.Transfers.{ctrlr0, ssienr}
use inmojomni.Registers.Headers.{
  header_registers, address_of, header_fields-update, header_fields-reset,
  header_registers-distinct,
}
use inmojomni.PlatformDefs.{define_clock, sys_clock, xosc_clock, define_hz, no_defs}
use inmojomni.PlatformDefs.Clocks.{in_khz, frequency, Agrees, define_clock-Agrees}
use inmojomni.Board.{sys_clock_125mhz}
use inmojomni.Board.Counter.{Counter}
use inmojomni.Board.Pll.{Pll, pll_output, sys_clock_125mhz-pll_output}
use inmojomni.Examples.Chip.{chip, blank, chip-Locks}

-- CTRLR0 and its field SPI_FRF.
abbrev ssi_ctrlr0 : Region × Register
ssi_ctrlr0 = (xip_ssi, ctrlr0)

abbrev spi_frf : Field
spi_frf = field "SPI_FRF" 0x600000 22 21 0 rw_access (0 ∷ 1 ∷ 2 ∷ [])

ctrlr0-IsIn : IsIn ssi_ctrlr0 header_registers
ctrlr0-IsIn = inl refl

spi_frf-IsIn : IsIn spi_frf ctrlr0.fields
spi_frf-IsIn = inr (inl refl)

-- The word that the second stage of the boot writes for its first transfer.
header_fields-update_example :
    (get_field spi_frf (set_field spi_frf 2 0x001F0300) ≡ 2)
    × ((g : Field)
        → IsIn g ctrlr0.fields
        → (g ≡ spi_frf) ⊎ (get_field g (set_field spi_frf 2 0x001F0300) ≡ get_field g 0x001F0300))
header_fields-update_example =
    header_fields-update ssi_ctrlr0 spi_frf 2 0x001F0300 ctrlr0-IsIn spi_frf-IsIn (omega arith)
      (omega arith)

header_fields-reset_example :
    (get_field spi_frf 0 ≡ 0) × (0 < 2 ^ 2) × ((v : ℕ) → IsIn v spi_frf.values → v < 2 ^ 2)
header_fields-reset_example = header_fields-reset ssi_ctrlr0 spi_frf ctrlr0-IsIn spi_frf-IsIn

abbrev ssi_ssienr : Region × Register
ssi_ssienr = (xip_ssi, ssienr)

header_registers-distinct_example :
    (address_of ssi_ctrlr0 % 4 ≡ 0)
    × (address_of ssi_ctrlr0 ≡ address_of ssi_ssienr → ssi_ssienr ≡ ssi_ctrlr0)
header_registers-distinct_example =
    header_registers-distinct ssi_ctrlr0 ssi_ssienr ctrlr0-IsIn (inr (inr (inl refl)))

resets-IsIn : IsIn resets apb_regions
resets-IsIn = inr (inr (inr (inl refl)))

xosc_hz : (xosc_clock no_defs).hz ≡ some 12000000
unfolding xosc_clock define_clock define_hz
xosc_hz = refl

-- RESETS_RESET.
abbrev reset_offset : ℕ
reset_offset = 0

-- The write of bench/irq_latency.c that takes the blocks out of reset.
apb_address-distinct_example :
    (resets ≡ resets) × (clr_alias ≡ clr_alias) × (reset_offset ≡ reset_offset)
apb_address-distinct_example =
    apb_address-distinct resets resets clr_alias clr_alias reset_offset reset_offset resets-IsIn
      resets-IsIn (omega arith) (omega arith) refl

define_clock-Agrees_example :
    Agrees 133000000 (define_clock 125000000 (record { hz = none; khz = some 133000; mhz = none }))
unfolding frequency
define_clock-Agrees_example = define_clock-Agrees 125000000 (in_khz 133000 (omega arith))

-- The registers of the PLL are words of the chip.
pll : Pll chip
pll = record {
  latched = λ a s. s.words a;
  latched-read = λ a r s h. refl;
  latched-write = λ a w v s h. refl;
}

sys_clock_125mhz-pll_output_example :
    Ends
      (λ _ s'.
        (sys_clock no_defs).hz
        ≡ some (
            pll_output 12000000
              (pll.latched 0x40028000 s')
              (pll.latched 0x40028008 s')
              (pll.latched 0x4002800C s')))
      (sys_clock_125mhz chip 1 blank)
sys_clock_125mhz-pll_output_example =
    sys_clock_125mhz-pll_output chip pll 1 12000000 blank (chip-Locks 0) xosc_hz

-- Every source has 125,000 kHz.
counter : Counter chip
counter = record {
  latched = λ a s. s.words a;
  khz = λ src s. 125000;
  crystal = 12000;
  latched-read = λ a r s h. refl;
  latched-write = λ a w v s h. refl;
  khz-read = λ src r s. refl;
  khz-write = λ src w v s h. refl;
  result = λ s h k. refl;
}
