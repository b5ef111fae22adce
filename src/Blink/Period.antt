-- ===== src/Blink/Period.antt =====
-- The time that the rounds of the LED loop of bench/blink.c take.
use inmojomni.Base.{ℕ, zero, suc, ◌+◌, ◌*◌, ◌^◌, ◌≤◌, ◌<◌, arith, ◌<<u◌}
use inmojomni.Machine.{Bus, Run, set_reg}
use inmojomni.Machine.Ends.{Ends, ends, Ends-bind}
use inmojomni.Board.{sleep_us}
use inmojomni.Board.Sleep.{Clock, sleep_us-Slept}
use inmojomni.Blink.{blink_loop}

-- A write takes at most `gap` microseconds.
abbrev pub WritesWithin : {S : Type 0} (b : Bus S) (rate gap : ℕ) → Clock b rate gap → Type 0
WritesWithin {S} b rate gap c =
    (a v : ℕ) (s : S) → (c.now s ≤ c.now (b.write a v s)) × (c.now (b.write a v s) ≤ c.now s + gap)

-- On a chip whose timer counts microseconds and whose accesses each take at most `gap`, every round
-- of the LED loop comes to its end: any number of rounds returns, after at least 250,000
-- microseconds a round and at most 3 * gap more a round, also across the wraps of the 32-bit timer.
pub blink_loop-Timed :
    {S : Type 0} (b : Bus S) (rate gap : ℕ) (c : Clock b rate gap) (fuel rounds : ℕ) (s : S)
    → WritesWithin b rate gap c
    → 250001 * rate ≤ fuel
    → 250000 + gap < 2 ^ 32
    → Ends
        (λ _ s'.
          (c.now s + rounds * 250000 ≤ c.now s')
          × (c.now s' ≤ c.now s + rounds * (250000 + 3 * gap)))
        (blink_loop b fuel rounds s)
unfolding blink_loop set_reg
blink_loop-Timed b rate gap c fuel zero s within enough fits = ends (omega arith, omega arith)
blink_loop-Timed {S} b rate gap c fuel (suc rounds) s within enough fits =
    let s1 = b.write 0xD000001C (1 <<u 25) s in
    let (after, before) = within 0xD000001C (1 <<u 25) s in
    Ends-bind (sleep_us b fuel 250000) (λ _. blink_loop b fuel rounds) s1
      (sleep_us-Slept b rate gap c fuel 250000 s1 enough fits)
      λ _ s2 q.
        longer s2 (q.0) (q.1) after before
          (blink_loop-Timed b rate gap c fuel rounds s2 within enough fits)
  where
    Timed : S → Type 0
    Timed s' =
        (c.now s + suc rounds * 250000 ≤ c.now s')
        × (c.now s' ≤ c.now s + suc rounds * (250000 + 3 * gap))

    longer :
        {r : Run S (Unit {0})} (s2 : S)
        → c.now (b.write 0xD000001C (1 <<u 25) s) + 250000 ≤ c.now s2
        → c.now s2 ≤ c.now (b.write 0xD000001C (1 <<u 25) s) + 250000 + 2 * gap
        → c.now s ≤ c.now (b.write 0xD000001C (1 <<u 25) s)
        → c.now (b.write 0xD000001C (1 <<u 25) s) ≤ c.now s + gap
        → Ends
            (λ _ s'.
              (c.now s2 + rounds * 250000 ≤ c.now s')
              × (c.now s' ≤ c.now s2 + rounds * (250000 + 3 * gap)))
            r
        → Ends (λ _ s'. Timed s') r
    longer s2 low high after before (ends (p, q)) = ends (omega arith, omega arith)
