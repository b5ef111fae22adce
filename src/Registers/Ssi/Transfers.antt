-- ===== src/Registers/Ssi/Transfers.antt =====
-- runtime/boot2/hardware/regs/ssi.h: the control of transfers and their FIFO levels.
use inmojomni.Base.{List, [], ◌∷◌}
use inmojomni.Registers.{rw_access, ro_access, Register, field, register}

abbrev pub ctrlr0 : Register
ctrlr0 = register 0x0 0x17fffff 0 (
    field "SSTE" 0x1000000 24 24 0 rw_access []
    ∷ field "SPI_FRF" 0x600000 22 21 0 rw_access (0 ∷ 1 ∷ 2 ∷ [])
    ∷ field "DFS_32" 0x1f0000 20 16 0 rw_access []
    ∷ field "CFS" 0xf000 15 12 0 rw_access []
    ∷ field "SRL" 0x800 11 11 0 rw_access []
    ∷ field "SLV_OE" 0x400 10 10 0 rw_access []
    ∷ field "TMOD" 0x300 9 8 0 rw_access (0 ∷ 1 ∷ 2 ∷ 3 ∷ [])
    ∷ field "SCPOL" 0x80 7 7 0 rw_access []
    ∷ field "SCPH" 0x40 6 6 0 rw_access []
    ∷ field "FRF" 0x30 5 4 0 rw_access []
    ∷ field "DFS" 0xf 3 0 0 rw_access []
    ∷ [])

abbrev pub ctrlr1 : Register
ctrlr1 = register 0x4 0xffff 0 (field "NDF" 0xffff 15 0 0 rw_access [] ∷ [])

abbrev pub ssienr : Register
ssienr = register 0x8 0x1 0 (field "SSI_EN" 0x1 0 0 0 rw_access [] ∷ [])

abbrev pub mwcr : Register
mwcr = register 0xc 0x7 0 (
    field "MHS" 0x4 2 2 0 rw_access []
    ∷ field "MDD" 0x2 1 1 0 rw_access []
    ∷ field "MWMOD" 0x1 0 0 0 rw_access []
    ∷ [])

abbrev pub ser : Register
ser = register 0x10 0x1 0 (field "SER" 0x1 0 0 0 rw_access [] ∷ [])

abbrev pub baudr : Register
baudr = register 0x14 0xffff 0 (field "SCKDV" 0xffff 15 0 0 rw_access [] ∷ [])

abbrev pub txftlr : Register
txftlr = register 0x18 0xff 0 (field "TFT" 0xff 7 0 0 rw_access [] ∷ [])

abbrev pub rxftlr : Register
rxftlr = register 0x1c 0xff 0 (field "RFT" 0xff 7 0 0 rw_access [] ∷ [])

abbrev pub txflr : Register
txflr = register 0x20 0xff 0 (field "TFTFL" 0xff 7 0 0 ro_access [] ∷ [])

abbrev pub rxflr : Register
rxflr = register 0x24 0xff 0 (field "RXTFL" 0xff 7 0 0 ro_access [] ∷ [])

abbrev pub transfer_registers : List Register
transfer_registers =
    ctrlr0 ∷ ctrlr1 ∷ ssienr ∷ mwcr ∷ ser ∷ baudr ∷ txftlr ∷ rxftlr ∷ txflr ∷ rxflr ∷ []
