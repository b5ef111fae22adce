-- ===== src/Lib.antt =====
-- The C programs of bench/: the benchmarks of the RP2040 and of the RP2350, the LED blinker and the
-- measurement of the interrupt latency. Each is one file that starts the chip, works through
-- volatile accesses `REG(a)` and ends in an endless loop; a host reads the results from a mailbox at
-- 0x20030000.
--
-- The chip is a parameter: Machine has a bus (what a read returns, and how an access changes the
-- device) and runs that end with a value, in `for (;;) {}`, out of polls, or in a fault. What is
-- relied on of it is named where it is used: SRAM keeps its words (`Memory`), the status registers
-- answer (`Starts`, `Locks`, `Counts`), the timer counts (`Clock`). The scratch buffers, which the
-- programs reach through plain pointers, are lists in the state of World. uint32_t values are
-- numbers below 2 ^ 32 with the wrap written out (Base/Word).
--
-- Files and what they model:
--   Board       board_init, time_us, sys_clock_125mhz, measure_khz, sleep_us: bench/bench.c,
--               bench/irq_latency.c
--   Xorshift    step, the loop of bm_xorshift and the loops that fill the buffers: bench/bench.c
--   Crc         the loops of bm_crc32
--   Qsort       qsort_u32
--   Matrix      the loops of bm_mat16
--   Scalar      the loops of bm_div and bm_call, and fib
--   Kernels     the bm_ functions around these, on the state of World, and the loop of bm_f32
--   Results     the loops of mojo_main over the runs and the kernels
--   Layout      the addresses of the buffers, FIB_N and the mailbox
--   Bench       bm_gpio_toggle and mojo_main of bench/bench.c
--   Rp2350      bench/bench_rp2350.c; its kernels are those of Kernels over read_mcycle
--   Blink       bench/blink.c
--   IrqLatency  bench/irq_latency.c: isr_irq13, fail and mojo_main by its parts; its Interrupts put the
--               handler between the accesses of the main program
--   AddressMap    the address map: runtime/boot2/hardware/regs/addressmap.h
--   PlatformDefs  runtime/boot2/hardware/platform_defs.h; Board/Pll relates its clock frequencies to
--               the PLL of bench/irq_latency.c, and Board/Counter its frequency counter to the crystal
--   Registers   the register blocks: runtime/boot2/hardware/regs/ssi.h, pads_qspi.h and m0plus.h
--   Base, Bits, Machine, World   shared types, arrays, bit operations, runs
--   Examples    runs at concrete inputs
--
-- Fuel: a polling loop takes the number of its reads, and the theorems ask that the device answers
-- within it, or, where the loop counts its own rounds or waits for the timer, give the number that is
-- enough. qsort_u32 and fib take the depth of their calls: one more than the elements, and n + 1.
-- The endless loops of Blink and IrqLatency take the number of rounds that are run.
--
-- Time: `Clock` has the microseconds that the timer counts and the part of a microsecond that has gone, of
-- which a read takes at least one; many reads in a row may show the same microsecond, and the fuel of a
-- wait is in proportion.
--
-- Interrupts: the main program of bench/irq_latency.c runs on a bus that first runs the handler
-- where the edge of GPIO 15 is latched, the interrupt is on, and a schedule, any function of the number of
-- accesses, says so. A fair schedule puts an interrupt off for a million accesses at most. Before
-- route_interrupt the interrupt is off.
--
-- The headers of runtime/boot2/hardware hold constants of the chip, which the second stage of the boot is
-- assembled with; they are those of the Raspberry Pi SDK. A register is a record of its offset, mask,
-- reset value and fields; the C programs write the same addresses and masks as numbers.
--
-- Not modelled: the assembly of runtime/, and all that is written in Mojo, Rust or Python. Parameters
-- in place of code outside C: IEEE single precision (`Floats`), `read_mcycle`, `flash_commit_reboot`,
-- and the identifiers LANG and LANG_ID.
pub mod AddressMap
pub mod Base
pub mod Bench
pub mod Bits
pub mod Crc
pub mod Blink
pub mod Board
mod Examples
pub mod IrqLatency
pub mod Kernels
pub mod Layout
pub mod Machine
pub mod Matrix
pub mod PlatformDefs
pub mod Qsort
pub mod Registers
pub mod Results
pub mod Rp2350
pub mod Scalar
pub mod World
pub mod Xorshift
