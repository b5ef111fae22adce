-- ===== src/Rp2350/Committed.antt =====
-- What bench/bench_rp2350.c commits to flash.
use mathlib.Core.Path.{subst}
use inmojomni.Base.{ℕ, zero, suc, ◌+◌, ◌*◌, ◌≡◌, refl, sym, ap, ◌∙◌, arith}
use inmojomni.Base.{◌<<u◌, List, [], ◌∷◌, get_or}
use inmojomni.Machine.{Bus, Prog, Run, pure, halt, set_reg, ◌>>◌, Memory}
use inmojomni.Machine.Ends.{Ends, ends, Ends-bind, Ends-mono, Ends-then}
use inmojomni.Machine.Keeps.{Keeps, Keeps-trans, Keeps-write, Answers, Frame, EndsKeeping}
use inmojomni.Machine.Keeps.{then_write, poll_keeps}
use inmojomni.World.{IsRam, World, on_dev, apart_frame}
use inmojomni.Board.{all_set}
use inmojomni.Kernels.{Floats}
use inmojomni.Kernels.Checksums.{Gives, Ticks, timed-Gives}
use inmojomni.Kernels.Checksums.{
  bm_xorshift-Gives, bm_div-Gives, bm_f32-Gives, bm_call-Gives, bm_crc32-Gives, bm_sort-Gives,
  bm_mat16-Gives, bm_fib-Gives,
}
use inmojomni.Results.{run_all}
use inmojomni.Results.Words.{Fixed, Apart}
use inmojomni.Results.Recorded.{Recorded, KernelsGive, run_all-Recorded}
use inmojomni.Results.Words.{Fixed-cons, Fixed-write_ne, peek-write_ne, peek-write_self}
use inmojomni.Bench.{gpio_loop}
use inmojomni.Bench.Mailbox.{checksums, gpio_loop-Keeps, Mailbox}
use inmojomni.Rp2350.{bank_mask, board_init, bm_gpio_toggle, bms, mojo_main}

-- The resets are acknowledged within `fuel` reads of the status register.
abbrev pub StartsBanks : {S : Type 0} → Bus S → ℕ → Type 0
StartsBanks {S} b fuel =
    (s : S)
    → Answers b fuel 0x40020008 (all_set bank_mask) (b.write (0x40020000 + 0x3000) bank_mask s)

-- The words that are set before the first run, the status aside.
abbrev language_header : ℕ → List (ℕ × ℕ)
language_header lang =
    (0x20023000, 24)
    ∷ (0x20030010, lang)
    ∷ (0x2003000C, 3)
    ∷ (0x20030008, 9)
    ∷ (0x20030000, 0x42454E43)
    ∷ []

language_header-Apart : (lang : ℕ) → Apart 0x20030014 (language_header lang)
language_header-Apart lang = omega arith

board_init_keeps :
    {S : Type 0} (b : Bus S) (r : Frame b) (fuel : ℕ) (s : S)
    → StartsBanks b fuel
    → EndsKeeping b r s (board_init b fuel s)
unfolding board_init
board_init_keeps b r fuel s c =
    then_write b r _ _ _ s _ (omega arith) (r.same s)
      λ k1. Ends-mono (poll_keeps b r fuel _ _ _ (c s)) λ _ s2 k2. r.chain k1 k2

module _ {S : Type 0} (b : Bus S) (m : Memory b) (read_mcycle : Prog (World S) ℕ)
    (ticks : Ticks b m read_mcycle) where
  toggles :
      (w2 : World S)
      → IsRam w2.ram
      → (w3 : World S) → w3.ram ≡ w2.ram
      → Ends {A = ℕ}
          (λ c w'. (c ≡ 0) × IsRam w'.ram × Keeps b m w3.dev w'.dev)
          ((gpio_loop b 0xD0000028 100000 >> pure 0) w3)
  toggles w2 v w3 e =
      Ends-bind (gpio_loop b 0xD0000028 100000) _ w3
        (gpio_loop-Keeps b m 0xD0000028 100000 w3 (omega arith) refl)
        λ _ w4 q. ends (refl, subst IsRam (sym (q.0 ∙ e)) v, q.1)

  toggle-Gives : (w : World S) → IsRam w.ram → Gives b m w 0 (bm_gpio_toggle b read_mcycle w)
  unfolding bm_gpio_toggle set_reg
  toggle-Gives w v =
      let w1 = record w { dev = b.write 0x4002807C 5 w.dev } in
      let w2 = record w { dev = b.write 0xD0000038 (1 <<u 15) w1.dev } in
      let w3 = record w { dev = b.write 0x4003B040 (1 <<u 8) w2.dev } in
      let kept = Keeps-trans b m (Keeps-write b m 0x4002807C 5 w.dev (omega arith)) (
        Keeps-trans b m (Keeps-write b m 0xD0000038 (1 <<u 15) w1.dev (omega arith))
          (Keeps-write b m 0x4003B040 (1 <<u 8) w2.dev (omega arith))) in
      Ends-mono
        (timed-Gives b m read_mcycle ticks w3 0 (gpio_loop b 0xD0000028 100000 >> pure 0)
          (toggles w3 v))
        λ t w4 q. (q.0, q.1, Keeps-trans b m kept (q.2))

  module _ (f : Floats) (lang : ℕ) where
    cycles_give :
        KernelsGive b m
          (bms b read_mcycle f)
          0x20030014
          (checksums f)
          (language_header lang)
          (omega arith)
          (language_header-Apart lang)
    unfolding bms checksums
    cycles_give zero h = (_, refl, λ w v e. toggle-Gives w v)
    cycles_give (suc zero) h = (_, refl, λ w v e. bm_xorshift-Gives b m read_mcycle ticks w v)
    cycles_give (suc (suc zero)) h = (_, refl, λ w v e. bm_div-Gives b m read_mcycle ticks w v)
    cycles_give (suc (suc (suc zero))) h =
        (_, refl, λ w v e. bm_f32-Gives b m read_mcycle ticks f w v)
    cycles_give (suc (suc (suc (suc zero)))) h =
        (_, refl, λ w v e. bm_call-Gives b m read_mcycle ticks w v)
    cycles_give (suc (suc (suc (suc (suc zero))))) h =
        (_, refl, λ w v e. bm_crc32-Gives b m read_mcycle ticks w v)
    cycles_give (suc (suc (suc (suc (suc (suc zero)))))) h =
        (_, refl, λ w v e. bm_sort-Gives b m read_mcycle ticks w v)
    cycles_give (suc (suc (suc (suc (suc (suc (suc zero))))))) h =
        (_, refl, λ w v e. bm_mat16-Gives b m read_mcycle ticks w v)
    cycles_give (suc (suc (suc (suc (suc (suc (suc (suc zero)))))))) h =
        (_, refl, λ w v e. bm_fib-Gives b m read_mcycle ticks w v (e.0))
    cycles_give (suc (suc (suc (suc (suc (suc (suc (suc (suc i))))))))) h = absurd (omega arith)

    -- The state when the runs begin.
    abbrev announced : S → S
    announced s = b.write 0x20023000 24 (
        b.write 0x20030010 lang (
          b.write 0x2003000C 3
            (b.write 0x20030008 9 (b.write 0x20030004 1 (b.write 0x20030000 0x42454E43 s)))))

    announced_header : (s : S) → Fixed b m (language_header lang) (announced s)
    announced_header s =
        Fixed-cons b m
          ((0x20030010, lang) ∷ (0x2003000C, 3) ∷ (0x20030008, 9) ∷ (0x20030000, 0x42454E43) ∷ [])
          0x20023000 24 _ (omega arith)
          (Fixed-cons b m ((0x2003000C, 3) ∷ (0x20030008, 9) ∷ (0x20030000, 0x42454E43) ∷ [])
            0x20030010 lang _ (omega arith)
            (Fixed-cons b m ((0x20030008, 9) ∷ (0x20030000, 0x42454E43) ∷ []) 0x2003000C 3 _
              (omega arith)
              (Fixed-cons b m ((0x20030000, 0x42454E43) ∷ []) 0x20030008 9 _ (omega arith) (
                Fixed-write_ne b m ((0x20030000, 0x42454E43) ∷ []) 0x20030004 1 _ (omega arith)
                  (Fixed-cons b m [] 0x20030000 0x42454E43 s (omega arith) tt)))))

    announced-Recorded :
        (w : World S)
        → IsRam w.ram
        → Recorded b m 0x20030014
            (checksums f)
            (language_header lang)
            0
            (record w { dev = announced w.dev })
    announced-Recorded w v = record {
      is_ram = v;
      header = announced_header w.dev;
      slots = λ k q. absurd (omega arith);
    }

    -- The last write to the mailbox.
    completed :
        (w : World S)
        → Recorded b m 0x20030014 (checksums f) (language_header lang) 27 w
        → Mailbox m f 0x20030014 (b.write 0x20030004 2 w.dev)
          × (m.peek 0x20030010 (b.write 0x20030004 2 w.dev) ≡ lang)
    completed w r =
        let h =
          Fixed-write_ne b m (language_header lang) 0x20030004 2 w.dev (omega arith) r.header in
        (
          record {
            magic = h.1.1.1.1.0;
            status = peek-write_self b m 0x20030004 2 w.dev (omega arith);
            count = h.1.1.1.0;
            runs = h.1.1.0;
            results = λ run i p q.
                peek-write_ne b m (0x20030014 + (run * 9 + i) * 8 + 4) 0x20030004 2 w.dev
                  (omega arith) refl (omega arith)
                ∙ r.slots (run * 9 + i) (omega arith)
                ∙ ap (λ n. get_or (checksums f) n 0) (omega arith);
          },
          h.1.0,
        )

-- From any well-formed buffers, on a chip that acknowledges the resets and whose cycle counter
-- changes neither the buffers nor SRAM, the program of bench/bench_rp2350.c comes to
-- `flash_commit_reboot` for the 256 bytes of the mailbox, which then hold the magic number, the
-- status 2, the counts, the language, and for each of the three runs the nine checksums of the
-- program of bench/bench.c. When the commit returns, the program halts.
pub mojo_main-commits :
    {S : Type 0} (b : Bus S) (m : Memory b) (read_mcycle : Prog (World S) ℕ)
    (flash_commit_reboot : ℕ → ℕ → ℕ → ℕ → Prog (World S) (Unit {0})) (lang : ℕ) (f : Floats)
    (fuel : ℕ) (w : World S)
    → Ticks b m read_mcycle
    → IsRam w.ram
    → StartsBanks (on_dev b) fuel
    → (w' : World S) × (mojo_main b read_mcycle flash_commit_reboot lang f fuel w
        ≡ (flash_commit_reboot 0x003FF000 0x20030000 256 0 >> halt) w')
      × Mailbox m f 0x20030014 w'.dev
      × (m.peek 0x20030010 w'.dev ≡ lang)
unfolding mojo_main set_reg
mojo_main-commits {S} b m read_mcycle flash_commit_reboot lang f fuel w ticks v c =
    Ends-then Commits (board_init (on_dev b) fuel) _ w
      (board_init_keeps (on_dev b) (apart_frame b m) fuel w c)
      λ _ w1 k.
        Ends-then Commits (run_all b (bms b read_mcycle f) 0x20030014 3 0) _
          (record w1 { dev = announced b m read_mcycle ticks f lang w1.dev })
          (run_all-Recorded b m (bms b read_mcycle f) 0x20030014 (checksums f)
            (language_header lang) (omega arith) (language_header-Apart lang) 3 0 _
            (cycles_give b m read_mcycle ticks f lang) refl
            (announced-Recorded b m read_mcycle ticks f lang w1 (subst IsRam (sym (k.0)) v)))
          λ _ w2 r.
            let (box, language) = completed b m read_mcycle ticks f lang w2 r in
            (record w2 { dev = b.write 0x20030004 2 w2.dev }, refl, box, language)
  where
    Commits : Run (World S) (Unit {0}) → Type 0
    Commits r =
        (w' : World S) × (r ≡ (flash_commit_reboot 0x003FF000 0x20030000 256 0 >> halt) w')
        × Mailbox m f 0x20030014 w'.dev
        × (m.peek 0x20030010 w'.dev ≡ lang)
