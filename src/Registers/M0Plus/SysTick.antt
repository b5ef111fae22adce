-- ===== src/Registers/M0Plus/SysTick.antt =====
-- runtime/boot2/hardware/regs/m0plus.h: the system timer.
use inmojomni.Base.{List, [], ◌∷◌}
use inmojomni.Registers.{rw_access, ro_access, Register, field, register}

abbrev pub syst_csr : Register
syst_csr = register 0xe010 0x10007 0 (
    field "COUNTFLAG" 0x10000 16 16 0 ro_access []
    ∷ field "CLKSOURCE" 0x4 2 2 0 rw_access []
    ∷ field "TICKINT" 0x2 1 1 0 rw_access []
    ∷ field "ENABLE" 0x1 0 0 0 rw_access []
    ∷ [])

abbrev pub syst_rvr : Register
syst_rvr = register 0xe014 0xffffff 0 (field "RELOAD" 0xffffff 23 0 0 rw_access [] ∷ [])

abbrev pub syst_cvr : Register
syst_cvr = register 0xe018 0xffffff 0 (field "CURRENT" 0xffffff 23 0 0 rw_access [] ∷ [])

abbrev pub syst_calib : Register
syst_calib = register 0xe01c 0xc0ffffff 0 (
    field "NOREF" 0x80000000 31 31 0 ro_access []
    ∷ field "SKEW" 0x40000000 30 30 0 ro_access []
    ∷ field "TENMS" 0xffffff 23 0 0 ro_access []
    ∷ [])

abbrev pub sys_tick_registers : List Register
sys_tick_registers = syst_csr ∷ syst_rvr ∷ syst_cvr ∷ syst_calib ∷ []
