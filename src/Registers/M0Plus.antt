-- ===== src/Registers/M0Plus.antt =====
-- runtime/boot2/hardware/regs/m0plus.h: the registers of the Cortex-M0+ core.
pub mod SysTick
pub mod Nvic
pub mod Scb
pub mod Mpu
use inmojomni.Base.{List, ◌++◌}
use inmojomni.Registers.{Register}
use SysTick.{sys_tick_registers}
use Nvic.{nvic_registers}
use Scb.{scb_registers}
use Mpu.{mpu_registers}

abbrev pub m0plus_registers : List Register
m0plus_registers = sys_tick_registers ++ (nvic_registers ++ (scb_registers ++ mpu_registers))
