-- ===== src/Registers/Ssi.antt =====
-- runtime/boot2/hardware/regs/ssi.h: the serial interface to the flash.
pub mod Transfers
pub mod Status
use inmojomni.Base.{List, ◌++◌}
use inmojomni.Registers.{Register}
use Transfers.{transfer_registers}
use Status.{status_registers}

abbrev pub ssi_registers : List Register
ssi_registers = transfer_registers ++ status_registers
