-- ===== src/Registers/Ssi/Status.antt =====
-- runtime/boot2/hardware/regs/ssi.h: status, interrupts, DMA and the later control registers.
use inmojomni.Base.{List, [], ◌∷◌}
use inmojomni.Registers.{rw_access, ro_access, Register, field, register}

abbrev pub sr : Register
sr = register 0x28 0x7f 0 (
    field "DCOL" 0x40 6 6 0 ro_access []
    ∷ field "TXE" 0x20 5 5 0 ro_access []
    ∷ field "RFF" 0x10 4 4 0 ro_access []
    ∷ field "RFNE" 0x8 3 3 0 ro_access []
    ∷ field "TFE" 0x4 2 2 0 ro_access []
    ∷ field "TFNF" 0x2 1 1 0 ro_access []
    ∷ field "BUSY" 0x1 0 0 0 ro_access []
    ∷ [])

abbrev pub imr : Register
imr = register 0x2c 0x3f 0 (
    field "MSTIM" 0x20 5 5 0 rw_access []
    ∷ field "RXFIM" 0x10 4 4 0 rw_access []
    ∷ field "RXOIM" 0x8 3 3 0 rw_access []
    ∷ field "RXUIM" 0x4 2 2 0 rw_access []
    ∷ field "TXOIM" 0x2 1 1 0 rw_access []
    ∷ field "TXEIM" 0x1 0 0 0 rw_access []
    ∷ [])

abbrev pub isr : Register
isr = register 0x30 0x3f 0 (
    field "MSTIS" 0x20 5 5 0 ro_access []
    ∷ field "RXFIS" 0x10 4 4 0 ro_access []
    ∷ field "RXOIS" 0x8 3 3 0 ro_access []
    ∷ field "RXUIS" 0x4 2 2 0 ro_access []
    ∷ field "TXOIS" 0x2 1 1 0 ro_access []
    ∷ field "TXEIS" 0x1 0 0 0 ro_access []
    ∷ [])

abbrev pub risr : Register
risr = register 0x34 0x3f 0 (
    field "MSTIR" 0x20 5 5 0 ro_access []
    ∷ field "RXFIR" 0x10 4 4 0 ro_access []
    ∷ field "RXOIR" 0x8 3 3 0 ro_access []
    ∷ field "RXUIR" 0x4 2 2 0 ro_access []
    ∷ field "TXOIR" 0x2 1 1 0 ro_access []
    ∷ field "TXEIR" 0x1 0 0 0 ro_access []
    ∷ [])

abbrev pub txoicr : Register
txoicr = register 0x38 0x1 0 (field "TXOICR" 0x1 0 0 0 ro_access [] ∷ [])

abbrev pub rxoicr : Register
rxoicr = register 0x3c 0x1 0 (field "RXOICR" 0x1 0 0 0 ro_access [] ∷ [])

abbrev pub rxuicr : Register
rxuicr = register 0x40 0x1 0 (field "RXUICR" 0x1 0 0 0 ro_access [] ∷ [])

abbrev pub msticr : Register
msticr = register 0x44 0x1 0 (field "MSTICR" 0x1 0 0 0 ro_access [] ∷ [])

abbrev pub icr : Register
icr = register 0x48 0x1 0 (field "ICR" 0x1 0 0 0 ro_access [] ∷ [])

abbrev pub dmacr : Register
dmacr =
    register 0x4c 0x3 0
      (field "TDMAE" 0x2 1 1 0 rw_access [] ∷ field "RDMAE" 0x1 0 0 0 rw_access [] ∷ [])

abbrev pub dmatdlr : Register
dmatdlr = register 0x50 0xff 0 (field "DMATDL" 0xff 7 0 0 rw_access [] ∷ [])

abbrev pub dmardlr : Register
dmardlr = register 0x54 0xff 0 (field "DMARDL" 0xff 7 0 0 rw_access [] ∷ [])

abbrev pub idr : Register
idr =
    register 0x58 0xffffffff 0x51535049
      (field "IDCODE" 0xffffffff 31 0 0x51535049 ro_access [] ∷ [])

abbrev pub ssi_version_id : Register
ssi_version_id =
    register 0x5c 0xffffffff 0x3430312a
      (field "SSI_COMP_VERSION" 0xffffffff 31 0 0x3430312a ro_access [] ∷ [])

abbrev pub dr0 : Register
dr0 = register 0x60 0xffffffff 0 (field "DR" 0xffffffff 31 0 0 rw_access [] ∷ [])

abbrev pub rx_sample_dly : Register
rx_sample_dly = register 0xf0 0xff 0 (field "RSD" 0xff 7 0 0 rw_access [] ∷ [])

abbrev pub spi_ctrlr0 : Register
spi_ctrlr0 = register 0xf4 0xff07fb3f 0x3000000 (
    field "XIP_CMD" 0xff000000 31 24 3 rw_access []
    ∷ field "SPI_RXDS_EN" 0x40000 18 18 0 rw_access []
    ∷ field "INST_DDR_EN" 0x20000 17 17 0 rw_access []
    ∷ field "SPI_DDR_EN" 0x10000 16 16 0 rw_access []
    ∷ field "WAIT_CYCLES" 0xf800 15 11 0 rw_access []
    ∷ field "INST_L" 0x300 9 8 0 rw_access (0 ∷ 1 ∷ 2 ∷ 3 ∷ [])
    ∷ field "ADDR_L" 0x3c 5 2 0 rw_access []
    ∷ field "TRANS_TYPE" 0x3 1 0 0 rw_access (0 ∷ 1 ∷ 2 ∷ [])
    ∷ [])

abbrev pub txd_drive_edge : Register
txd_drive_edge = register 0xf8 0xff 0 (field "TDE" 0xff 7 0 0 rw_access [] ∷ [])

abbrev pub status_registers : List Register
status_registers =
    sr ∷ imr ∷ isr ∷ risr ∷ txoicr ∷ rxoicr ∷ rxuicr ∷ msticr ∷ icr ∷ dmacr ∷ dmatdlr ∷ dmardlr
    ∷ idr ∷ ssi_version_id ∷ dr0 ∷ rx_sample_dly ∷ spi_ctrlr0 ∷ txd_drive_edge ∷ []
