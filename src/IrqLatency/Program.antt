-- ===== src/IrqLatency/Program.antt =====
-- The whole program of bench/irq_latency.c, up to its LED loop.
use inmojomni.Base.{◌≤◌, ℕ, zero, suc, ◌+◌, ◌*◌, ◌^◌, ◌<◌, ◌≡◌, ◌⊎◌}
use inmojomni.Base.{◌<<u◌}
use inmojomni.Machine.{Bus, Run, stopped}
use inmojomni.Machine.Ends.{Ends}
use inmojomni.Machine.Keeps.{Answers, Frame}
use inmojomni.Board.{any_set}
use inmojomni.Board.Sleep.{Clock}
use inmojomni.IrqLatency.{no_samples}
use inmojomni.IrqLatency.{led_loop}
use inmojomni.Base.{List, length, ◌+u◌, ◌*u◌}
use inmojomni.IrqLatency.{Stats}
use inmojomni.IrqLatency.Samples.{add_samples, AllOf}
use inmojomni.IrqLatency.Popped.{Popped}

-- The PIO comes out of reset.
abbrev pub StartsPio : {S : Type 0} → Bus S → ℕ → Type 0
StartsPio {S} b fuel =
    (s : S)
    → Answers b fuel 0x4000C008 (any_set (1 <<u 10)) (b.write (0x4000C000 + 0x3000) (1 <<u 10) s)

abbrev any_frame : {S : Type 0} (b : Bus S) → Frame b
any_frame b = record {
  Rel = λ s t. Unit {0};
  same = λ s. tt;
  chain = λ p q. tt;
  on_read = λ a s. tt;
  on_write = λ w v s d. tt;
}

module _ {S : Type 0} (b : Bus S) (rate gap : ℕ) (c : Clock b rate gap) (fuel : ℕ)
    (enough : 1000000 < fuel) (quick : 11 * rate ≤ fuel) (fits : 10 + gap < 2 ^ 32) where
  abbrev pub stats_written : ℕ → Stats → S → S
  stats_written r st t =
      let base = 0x20030030 +u 12 *u r in
      b.write (base +u 8) st.sum (b.write (base +u 4) st.mx (b.write base st.mn t))

  -- The runs from `r` on, from a state to a state: after the 10,000 samples of a run, all read from the FIFO,
  -- their minimum, maximum and sum are written to its three words.
  pub data RunsWritten : ℕ → ℕ → S → S → Type 0 where
    over : {r : ℕ} {s : S} → RunsWritten zero r s s
    run :
        {left r : ℕ} {s s' : S} (samples : List ℕ) (t : S)
        → length samples ≡ 10000
        → AllOf (Popped b) samples
        → RunsWritten left (r + 1) (stats_written r (add_samples samples no_samples) t) s'
        → RunsWritten (suc left) r s s'

  -- The LED loop, entered after the runs and the writes of the total and of the status 2; or `fail(1)` or `fail(2)`.
  pub data Reports (rounds : ℕ) : Run S (Unit {0}) → Type 0 where
    blinks :
        (s0 s : S)
        → RunsWritten 3 0 s0 s
        → Reports rounds (
            led_loop b fuel rounds (
              b.write 0xD0000024 (1 <<u 25) (
                b.write 0x400140CC 5 (
                  b.write 0x20030004 2 (
                    b.write 0x2003001C 30000
                      (b.write 0x40017104 (0xF <<u 28) (b.write 0xE000E180 (1 <<u 13) s)))))))
    gives_up :
        (s : S) (code : ℕ)
        → (code ≡ 1) ⊎ (code ≡ 2)
        → Reports rounds (stopped (b.write 0x20030004 3 (b.write 0x20030020 code s)))
