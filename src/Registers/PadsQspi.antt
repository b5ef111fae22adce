-- ===== src/Registers/PadsQspi.antt =====
-- runtime/boot2/hardware/regs/pads_qspi.h: the pads of the flash.
use inmojomni.Base.{List, [], ◌∷◌}
use inmojomni.Registers.{rw_access, Register, field, register}

abbrev pub voltage_select : Register
voltage_select = register 0x0 0x1 0 (field "VOLTAGE_SELECT" 0x1 0 0 0 rw_access (0 ∷ 1 ∷ []) ∷ [])

abbrev pub gpio_qspi_sclk : Register
gpio_qspi_sclk = register 0x4 0xff 0x56 (
    field "OD" 0x80 7 7 0 rw_access []
    ∷ field "IE" 0x40 6 6 1 rw_access []
    ∷ field "DRIVE" 0x30 5 4 1 rw_access (0 ∷ 1 ∷ 2 ∷ 3 ∷ [])
    ∷ field "PUE" 0x8 3 3 0 rw_access []
    ∷ field "PDE" 0x4 2 2 1 rw_access []
    ∷ field "SCHMITT" 0x2 1 1 1 rw_access []
    ∷ field "SLEWFAST" 0x1 0 0 0 rw_access []
    ∷ [])

abbrev pub gpio_qspi_sd0 : Register
gpio_qspi_sd0 = register 0x8 0xff 0x52 (
    field "OD" 0x80 7 7 0 rw_access []
    ∷ field "IE" 0x40 6 6 1 rw_access []
    ∷ field "DRIVE" 0x30 5 4 1 rw_access (0 ∷ 1 ∷ 2 ∷ 3 ∷ [])
    ∷ field "PUE" 0x8 3 3 0 rw_access []
    ∷ field "PDE" 0x4 2 2 0 rw_access []
    ∷ field "SCHMITT" 0x2 1 1 1 rw_access []
    ∷ field "SLEWFAST" 0x1 0 0 0 rw_access []
    ∷ [])

abbrev pub gpio_qspi_sd1 : Register
gpio_qspi_sd1 = register 0xc 0xff 0x52 (
    field "OD" 0x80 7 7 0 rw_access []
    ∷ field "IE" 0x40 6 6 1 rw_access []
    ∷ field "DRIVE" 0x30 5 4 1 rw_access (0 ∷ 1 ∷ 2 ∷ 3 ∷ [])
    ∷ field "PUE" 0x8 3 3 0 rw_access []
    ∷ field "PDE" 0x4 2 2 0 rw_access []
    ∷ field "SCHMITT" 0x2 1 1 1 rw_access []
    ∷ field "SLEWFAST" 0x1 0 0 0 rw_access []
    ∷ [])

abbrev pub gpio_qspi_sd2 : Register
gpio_qspi_sd2 = register 0x10 0xff 0x52 (
    field "OD" 0x80 7 7 0 rw_access []
    ∷ field "IE" 0x40 6 6 1 rw_access []
    ∷ field "DRIVE" 0x30 5 4 1 rw_access (0 ∷ 1 ∷ 2 ∷ 3 ∷ [])
    ∷ field "PUE" 0x8 3 3 0 rw_access []
    ∷ field "PDE" 0x4 2 2 0 rw_access []
    ∷ field "SCHMITT" 0x2 1 1 1 rw_access []
    ∷ field "SLEWFAST" 0x1 0 0 0 rw_access []
    ∷ [])

abbrev pub gpio_qspi_sd3 : Register
gpio_qspi_sd3 = register 0x14 0xff 0x52 (
    field "OD" 0x80 7 7 0 rw_access []
    ∷ field "IE" 0x40 6 6 1 rw_access []
    ∷ field "DRIVE" 0x30 5 4 1 rw_access (0 ∷ 1 ∷ 2 ∷ 3 ∷ [])
    ∷ field "PUE" 0x8 3 3 0 rw_access []
    ∷ field "PDE" 0x4 2 2 0 rw_access []
    ∷ field "SCHMITT" 0x2 1 1 1 rw_access []
    ∷ field "SLEWFAST" 0x1 0 0 0 rw_access []
    ∷ [])

abbrev pub gpio_qspi_ss : Register
gpio_qspi_ss = register 0x18 0xff 0x5a (
    field "OD" 0x80 7 7 0 rw_access []
    ∷ field "IE" 0x40 6 6 1 rw_access []
    ∷ field "DRIVE" 0x30 5 4 1 rw_access (0 ∷ 1 ∷ 2 ∷ 3 ∷ [])
    ∷ field "PUE" 0x8 3 3 1 rw_access []
    ∷ field "PDE" 0x4 2 2 0 rw_access []
    ∷ field "SCHMITT" 0x2 1 1 1 rw_access []
    ∷ field "SLEWFAST" 0x1 0 0 0 rw_access []
    ∷ [])

abbrev pub pads_qspi_registers : List Register
pads_qspi_registers =
    voltage_select ∷ gpio_qspi_sclk ∷ gpio_qspi_sd0 ∷ gpio_qspi_sd1 ∷ gpio_qspi_sd2 ∷ gpio_qspi_sd3
    ∷ gpio_qspi_ss ∷ []
