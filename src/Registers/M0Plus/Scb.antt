-- ===== src/Registers/M0Plus/Scb.antt =====
-- runtime/boot2/hardware/regs/m0plus.h: the system control block.
use inmojomni.Base.{List, [], ◌∷◌}
use inmojomni.Registers.{rw_access, ro_access, Register, field, register}

abbrev pub cpuid : Register
cpuid = register 0xed00 0xffffffff 0x410cc601 (
    field "IMPLEMENTER" 0xff000000 31 24 0x41 ro_access []
    ∷ field "VARIANT" 0xf00000 23 20 0 ro_access []
    ∷ field "ARCHITECTURE" 0xf0000 19 16 0xc ro_access []
    ∷ field "PARTNO" 0xfff0 15 4 0xc60 ro_access []
    ∷ field "REVISION" 0xf 3 0 1 ro_access []
    ∷ [])

abbrev pub icsr : Register
icsr = register 0xed04 0x9edff1ff 0 (
    field "NMIPENDSET" 0x80000000 31 31 0 rw_access []
    ∷ field "PENDSVSET" 0x10000000 28 28 0 rw_access []
    ∷ field "PENDSVCLR" 0x8000000 27 27 0 rw_access []
    ∷ field "PENDSTSET" 0x4000000 26 26 0 rw_access []
    ∷ field "PENDSTCLR" 0x2000000 25 25 0 rw_access []
    ∷ field "ISRPREEMPT" 0x800000 23 23 0 ro_access []
    ∷ field "ISRPENDING" 0x400000 22 22 0 ro_access []
    ∷ field "VECTPENDING" 0x1ff000 20 12 0 ro_access []
    ∷ field "VECTACTIVE" 0x1ff 8 0 0 ro_access []
    ∷ [])

abbrev pub vtor : Register
vtor = register 0xed08 0xffffff00 0 (field "TBLOFF" 0xffffff00 31 8 0 rw_access [] ∷ [])

abbrev pub aircr : Register
aircr = register 0xed0c 0xffff8006 0 (
    field "VECTKEY" 0xffff0000 31 16 0 rw_access []
    ∷ field "ENDIANESS" 0x8000 15 15 0 ro_access []
    ∷ field "SYSRESETREQ" 0x4 2 2 0 rw_access []
    ∷ field "VECTCLRACTIVE" 0x2 1 1 0 rw_access []
    ∷ [])

abbrev pub scr : Register
scr = register 0xed10 0x16 0 (
    field "SEVONPEND" 0x10 4 4 0 rw_access []
    ∷ field "SLEEPDEEP" 0x4 2 2 0 rw_access []
    ∷ field "SLEEPONEXIT" 0x2 1 1 0 rw_access []
    ∷ [])

abbrev pub ccr : Register
ccr =
    register 0xed14 0x208 0
      (field "STKALIGN" 0x200 9 9 0 ro_access [] ∷ field "UNALIGN_TRP" 0x8 3 3 0 ro_access [] ∷ [])

abbrev pub shpr2 : Register
shpr2 = register 0xed1c 0xc0000000 0 (field "PRI_11" 0xc0000000 31 30 0 rw_access [] ∷ [])

abbrev pub shpr3 : Register
shpr3 = register 0xed20 0xc0c00000 0 (
    field "PRI_15" 0xc0000000 31 30 0 rw_access []
    ∷ field "PRI_14" 0xc00000 23 22 0 rw_access []
    ∷ [])

abbrev pub shcsr : Register
shcsr = register 0xed24 0x8000 0 (field "SVCALLPENDED" 0x8000 15 15 0 rw_access [] ∷ [])

abbrev pub scb_registers : List Register
scb_registers = cpuid ∷ icsr ∷ vtor ∷ aircr ∷ scr ∷ ccr ∷ shpr2 ∷ shpr3 ∷ shcsr ∷ []
