-- ===== src/Registers/M0Plus/Nvic.antt =====
-- runtime/boot2/hardware/regs/m0plus.h: the interrupt controller.
use inmojomni.Base.{List, [], ◌∷◌}
use inmojomni.Registers.{rw_access, Register, field, register}

abbrev pub nvic_iser : Register
nvic_iser = register 0xe100 0xffffffff 0 (field "SETENA" 0xffffffff 31 0 0 rw_access [] ∷ [])

abbrev pub nvic_icer : Register
nvic_icer = register 0xe180 0xffffffff 0 (field "CLRENA" 0xffffffff 31 0 0 rw_access [] ∷ [])

abbrev pub nvic_ispr : Register
nvic_ispr = register 0xe200 0xffffffff 0 (field "SETPEND" 0xffffffff 31 0 0 rw_access [] ∷ [])

abbrev pub nvic_icpr : Register
nvic_icpr = register 0xe280 0xffffffff 0 (field "CLRPEND" 0xffffffff 31 0 0 rw_access [] ∷ [])

abbrev pub nvic_ipr0 : Register
nvic_ipr0 = register 0xe400 0xc0c0c0c0 0 (
    field "IP_3" 0xc0000000 31 30 0 rw_access []
    ∷ field "IP_2" 0xc00000 23 22 0 rw_access []
    ∷ field "IP_1" 0xc000 15 14 0 rw_access []
    ∷ field "IP_0" 0xc0 7 6 0 rw_access []
    ∷ [])

abbrev pub nvic_ipr1 : Register
nvic_ipr1 = register 0xe404 0xc0c0c0c0 0 (
    field "IP_7" 0xc0000000 31 30 0 rw_access []
    ∷ field "IP_6" 0xc00000 23 22 0 rw_access []
    ∷ field "IP_5" 0xc000 15 14 0 rw_access []
    ∷ field "IP_4" 0xc0 7 6 0 rw_access []
    ∷ [])

abbrev pub nvic_ipr2 : Register
nvic_ipr2 = register 0xe408 0xc0c0c0c0 0 (
    field "IP_11" 0xc0000000 31 30 0 rw_access []
    ∷ field "IP_10" 0xc00000 23 22 0 rw_access []
    ∷ field "IP_9" 0xc000 15 14 0 rw_access []
    ∷ field "IP_8" 0xc0 7 6 0 rw_access []
    ∷ [])

abbrev pub nvic_ipr3 : Register
nvic_ipr3 = register 0xe40c 0xc0c0c0c0 0 (
    field "IP_15" 0xc0000000 31 30 0 rw_access []
    ∷ field "IP_14" 0xc00000 23 22 0 rw_access []
    ∷ field "IP_13" 0xc000 15 14 0 rw_access []
    ∷ field "IP_12" 0xc0 7 6 0 rw_access []
    ∷ [])

abbrev pub nvic_ipr4 : Register
nvic_ipr4 = register 0xe410 0xc0c0c0c0 0 (
    field "IP_19" 0xc0000000 31 30 0 rw_access []
    ∷ field "IP_18" 0xc00000 23 22 0 rw_access []
    ∷ field "IP_17" 0xc000 15 14 0 rw_access []
    ∷ field "IP_16" 0xc0 7 6 0 rw_access []
    ∷ [])

abbrev pub nvic_ipr5 : Register
nvic_ipr5 = register 0xe414 0xc0c0c0c0 0 (
    field "IP_23" 0xc0000000 31 30 0 rw_access []
    ∷ field "IP_22" 0xc00000 23 22 0 rw_access []
    ∷ field "IP_21" 0xc000 15 14 0 rw_access []
    ∷ field "IP_20" 0xc0 7 6 0 rw_access []
    ∷ [])

abbrev pub nvic_ipr6 : Register
nvic_ipr6 = register 0xe418 0xc0c0c0c0 0 (
    field "IP_27" 0xc0000000 31 30 0 rw_access []
    ∷ field "IP_26" 0xc00000 23 22 0 rw_access []
    ∷ field "IP_25" 0xc000 15 14 0 rw_access []
    ∷ field "IP_24" 0xc0 7 6 0 rw_access []
    ∷ [])

abbrev pub nvic_ipr7 : Register
nvic_ipr7 = register 0xe41c 0xc0c0c0c0 0 (
    field "IP_31" 0xc0000000 31 30 0 rw_access []
    ∷ field "IP_30" 0xc00000 23 22 0 rw_access []
    ∷ field "IP_29" 0xc000 15 14 0 rw_access []
    ∷ field "IP_28" 0xc0 7 6 0 rw_access []
    ∷ [])

abbrev pub nvic_registers : List Register
nvic_registers =
    nvic_iser ∷ nvic_icer ∷ nvic_ispr ∷ nvic_icpr ∷ nvic_ipr0 ∷ nvic_ipr1 ∷ nvic_ipr2 ∷ nvic_ipr3
    ∷ nvic_ipr4 ∷ nvic_ipr5 ∷ nvic_ipr6 ∷ nvic_ipr7 ∷ []
