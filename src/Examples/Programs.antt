-- ===== src/Examples/Programs.antt =====
-- The programs of bench/ on the chip of Chip.
use inmojomni.Base.{ℕ, ◌≡◌, refl, arith}
use inmojomni.Machine.{Prog, halt, set_reg, done, ◌>>◌}
use inmojomni.Machine.Ends.{Ends, ends, Stops}
use inmojomni.World.{World, on_dev}
use inmojomni.Board.{sleep_us}
use inmojomni.Board.Start.{}
use inmojomni.Board.Sleep.{Slept, sleep_us-Slept}
use inmojomni.Bench.{mojo_main}
use inmojomni.Bench.Mailbox.{Mailbox, mojo_main-Mailbox}
use inmojomni.Kernels.{bm_f32}
use inmojomni.Kernels.SinglePrecision.{bm_f32_checksum}
use inmojomni.Kernels.Checksums.{Gives, Ticks}
use inmojomni.Rp2350
use inmojomni.Rp2350.Committed.{mojo_main-commits}
use inmojomni.Examples.Chip.{Chip, chip, memory, blank, world, ram-IsRam, world-Starts, world_banks}
use inmojomni.Examples.Chip.{chip_clock, thousandths, thousandths-IeeeLaws}

mojo_main-Mailbox_example :
    Stops (λ w'. Mailbox memory thousandths 0x20030010 w'.dev) (mojo_main chip thousandths 1 world)
mojo_main-Mailbox_example = mojo_main-Mailbox chip memory thousandths 1 world ram-IsRam world-Starts

sleep_us-Slept_example :
    Ends
      (λ _ s'. Slept chip 4 1 chip_clock (chip_clock.now blank) 100 s')
      (sleep_us chip 404 100 blank)
sleep_us-Slept_example =
    sleep_us-Slept chip 4 1 chip_clock 404 100 blank (omega arith) (omega arith)

-- A cycle counter that shows the microseconds.
abbrev counter : Prog (World Chip) ℕ
counter w = done w.dev.quarters w

counter-Ticks : Ticks chip memory counter
counter-Ticks w = ends (refl, λ a h. refl)

-- A commit that writes its destination to a register, in place of the routine in assembly.
abbrev commit : ℕ → ℕ → ℕ → ℕ → Prog (World Chip) (Unit {0})
commit off src len flags = set_reg (on_dev chip) 0x40058000 off

mojo_main-commits_example :
    (w' : World Chip) × (Rp2350.mojo_main chip counter commit 2 thousandths 1 world
      ≡ (commit 0x003FF000 0x20030000 256 0 >> halt) w')
    × Mailbox memory thousandths 0x20030014 w'.dev
    × (memory.peek 0x20030010 w'.dev ≡ 2)
mojo_main-commits_example =
    mojo_main-commits chip memory counter commit 2 thousandths 1 world counter-Ticks ram-IsRam
      world_banks

bm_f32_checksum_example : Gives chip memory world 1 (bm_f32 chip counter thousandths world)
bm_f32_checksum_example =
    bm_f32_checksum thousandths thousandths-IeeeLaws chip memory counter counter-Ticks world
      ram-IsRam
