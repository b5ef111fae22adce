-- ===== src/Registers/M0Plus/Mpu.antt =====
-- runtime/boot2/hardware/regs/m0plus.h: the memory protection unit.
use inmojomni.Base.{List, [], ◌∷◌}
use inmojomni.Registers.{rw_access, ro_access, Register, field, register}

abbrev pub mpu_type : Register
mpu_type = register 0xed90 0xffff01 0x800 (
    field "IREGION" 0xff0000 23 16 0 ro_access []
    ∷ field "DREGION" 0xff00 15 8 8 ro_access []
    ∷ field "SEPARATE" 0x1 0 0 0 ro_access []
    ∷ [])

abbrev pub mpu_ctrl : Register
mpu_ctrl = register 0xed94 0x7 0 (
    field "PRIVDEFENA" 0x4 2 2 0 rw_access []
    ∷ field "HFNMIENA" 0x2 1 1 0 rw_access []
    ∷ field "ENABLE" 0x1 0 0 0 rw_access []
    ∷ [])

abbrev pub mpu_rnr : Register
mpu_rnr = register 0xed98 0xf 0 (field "REGION" 0xf 3 0 0 rw_access [] ∷ [])

abbrev pub mpu_rbar : Register
mpu_rbar = register 0xed9c 0xffffff1f 0 (
    field "ADDR" 0xffffff00 31 8 0 rw_access []
    ∷ field "VALID" 0x10 4 4 0 rw_access []
    ∷ field "REGION" 0xf 3 0 0 rw_access []
    ∷ [])

abbrev pub mpu_rasr : Register
mpu_rasr = register 0xeda0 0xffffff3f 0 (
    field "ATTRS" 0xffff0000 31 16 0 rw_access []
    ∷ field "SRD" 0xff00 15 8 0 rw_access []
    ∷ field "SIZE" 0x3e 5 1 0 rw_access []
    ∷ field "ENABLE" 0x1 0 0 0 rw_access []
    ∷ [])

abbrev pub mpu_registers : List Register
mpu_registers = mpu_type ∷ mpu_ctrl ∷ mpu_rnr ∷ mpu_rbar ∷ mpu_rasr ∷ []
