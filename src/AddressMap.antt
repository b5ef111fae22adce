-- ===== src/AddressMap.antt =====
-- runtime/boot2/hardware/regs/addressmap.h: where the parts of the RP2040 lie.
use inmojomni.Base.{ℕ, ◌+◌, ◌%◌, ◌≤◌, ◌<◌, ◌≡◌, refl, sym, ap, ◌∙◌, arith, ◌<<u◌, ◌⊎◌, inl, inr}
use inmojomni.Base.{List, [], ◌∷◌, true, ◌==◌, if◌then◌else◌, IsIn, ascends, ascends_apart}

-- `REG_ALIAS_RW_BITS`, `REG_ALIAS_XOR_BITS`, `REG_ALIAS_SET_BITS`, `REG_ALIAS_CLR_BITS`.
pub data Alias : Type 0 where
  rw_alias xor_alias set_alias clr_alias : Alias

unfoldable pub reg_alias_bits : Alias → ℕ
reg_alias_bits rw_alias = 0x0 <<u 12
reg_alias_bits xor_alias = 0x1 <<u 12
reg_alias_bits set_alias = 0x2 <<u 12
reg_alias_bits clr_alias = 0x3 <<u 12

-- What has a base address.
pub data Region : Type 0 where
  rom xip xip_main xip_noalloc xip_nocache xip_nocache_noalloc xip_ctrl xip_sram xip_ssi : Region
  sram sram_striped sram4 sram5 sram0 sram1 sram2 sram3 sysinfo syscfg clocks resets psm : Region
  io_bank0 io_qspi pads_bank0 pads_qspi xosc pll_sys pll_usb busctrl uart0 uart1 spi0 : Region
  spi1 i2c0 i2c1 adc pwm timer watchdog rtc rosc vreg_and_chip_reset tbman dma : Region
  usbctrl_dpram usbctrl usbctrl_regs pio0 pio1 xip_aux sio ppb : Region

unfoldable pub base_address : Region → ℕ
base_address rom = 0x00000000
base_address xip = 0x10000000
base_address xip_main = 0x10000000
base_address xip_noalloc = 0x11000000
base_address xip_nocache = 0x12000000
base_address xip_nocache_noalloc = 0x13000000
base_address xip_ctrl = 0x14000000
base_address xip_sram = 0x15000000
base_address xip_ssi = 0x18000000
base_address sram = 0x20000000
base_address sram_striped = 0x20000000
base_address sram4 = 0x20040000
base_address sram5 = 0x20041000
base_address sram0 = 0x21000000
base_address sram1 = 0x21010000
base_address sram2 = 0x21020000
base_address sram3 = 0x21030000
base_address sysinfo = 0x40000000
base_address syscfg = 0x40004000
base_address clocks = 0x40008000
base_address resets = 0x4000c000
base_address psm = 0x40010000
base_address io_bank0 = 0x40014000
base_address io_qspi = 0x40018000
base_address pads_bank0 = 0x4001c000
base_address pads_qspi = 0x40020000
base_address xosc = 0x40024000
base_address pll_sys = 0x40028000
base_address pll_usb = 0x4002c000
base_address busctrl = 0x40030000
base_address uart0 = 0x40034000
base_address uart1 = 0x40038000
base_address spi0 = 0x4003c000
base_address spi1 = 0x40040000
base_address i2c0 = 0x40044000
base_address i2c1 = 0x40048000
base_address adc = 0x4004c000
base_address pwm = 0x40050000
base_address timer = 0x40054000
base_address watchdog = 0x40058000
base_address rtc = 0x4005c000
base_address rosc = 0x40060000
base_address vreg_and_chip_reset = 0x40064000
base_address tbman = 0x4006c000
base_address dma = 0x50000000
base_address usbctrl_dpram = 0x50100000
base_address usbctrl = 0x50100000
base_address usbctrl_regs = 0x50110000
base_address pio0 = 0x50200000
base_address pio1 = 0x50300000
base_address xip_aux = 0x50400000
base_address sio = 0xd0000000
base_address ppb = 0xe0000000

abbrev pub xip_sram_end : ℕ
xip_sram_end = 0x15004000

abbrev pub sram_striped_end : ℕ
sram_striped_end = 0x20040000

abbrev pub sram_end : ℕ
sram_end = 0x20042000

-- The peripherals on the APB bus, of which each register also answers at the three aliases.
abbrev pub apb_regions : List Region
apb_regions =
    sysinfo ∷ syscfg ∷ clocks ∷ resets ∷ psm ∷ io_bank0 ∷ io_qspi ∷ pads_bank0 ∷ pads_qspi ∷ xosc
    ∷ pll_sys ∷ pll_usb ∷ busctrl ∷ uart0 ∷ uart1 ∷ spi0 ∷ spi1 ∷ i2c0 ∷ i2c1 ∷ adc ∷ pwm ∷ timer
    ∷ watchdog ∷ rtc ∷ rosc ∷ vreg_and_chip_reset ∷ tbman ∷ []

-- The place that a peripheral takes up, its aliases included.
abbrev pub apb_end : Region → ℕ
apb_end p = base_address p + 0x4000

apb_regions-ascends : ascends base_address apb_end 0x40000000 apb_regions ≡ true
unfolding ascends base_address
apb_regions-ascends = refl

abbrev pub apb_address : Region → Alias → ℕ → ℕ
apb_address p k o = base_address p + reg_alias_bits k + o

alias_bound : (k : Alias) → (reg_alias_bits k ≤ 0x3000) × (reg_alias_bits k % 0x1000 ≡ 0)
unfolding reg_alias_bits
alias_bound rw_alias = omega arith
alias_bound xor_alias = omega arith
alias_bound set_alias = omega arith
alias_bound clr_alias = omega arith

alias_of : ℕ → Alias
alias_of n =
    if n == 0
    then rw_alias
    else (if n == 0x1000 then xor_alias else (if n == 0x2000 then set_alias else clr_alias))

alias_of-reg_alias_bits : (k : Alias) → alias_of (reg_alias_bits k) ≡ k
unfolding alias_of reg_alias_bits
alias_of-reg_alias_bits rw_alias = refl
alias_of-reg_alias_bits xor_alias = refl
alias_of-reg_alias_bits set_alias = refl
alias_of-reg_alias_bits clr_alias = refl

-- An address on the APB bus, with an offset of less than 4 KiB, is that of one register of one
-- peripheral through one alias: an atomic access reaches no other register.
pub apb_address-distinct :
    (p q : Region) (j k : Alias) (o u : ℕ)
    → IsIn p apb_regions
    → IsIn q apb_regions
    → o < 0x1000
    → u < 0x1000
    → apb_address p j o ≡ apb_address q k u
    → (q ≡ p) × (j ≡ k) × (o ≡ u)
apb_address-distinct p q j k o u ip iq ho hu e =
    within (ascends_apart base_address apb_end 0x40000000 apb_regions p q apb_regions-ascends ip iq)
  where
    aliases : base_address q ≡ base_address p → reg_alias_bits j ≡ reg_alias_bits k
    aliases d = omega (arith, alias_bound j, alias_bound k)

    within :
        (q ≡ p) ⊎ ((apb_end q ≤ base_address p) ⊎ (apb_end p ≤ base_address q))
        → (q ≡ p) × (j ≡ k) × (o ≡ u)
    within (inl d) =
        let same = aliases (ap base_address d) in
        (
          d,
          sym (alias_of-reg_alias_bits j) ∙ ap alias_of same ∙ alias_of-reg_alias_bits k,
          omega (arith, ap base_address d),
        )
    within (inr (inl h)) = absurd (omega (arith, alias_bound j, alias_bound k))
    within (inr (inr h)) = absurd (omega (arith, alias_bound j, alias_bound k))
