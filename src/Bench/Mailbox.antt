-- ===== src/Bench/Mailbox.antt =====
-- What the host finds in the mailbox of bench/bench.c.
use mathlib.Core.Path.{subst}
use inmojomni.Base.{ℕ, zero, suc, ◌+◌, ◌*◌, ◌%◌, ◌≤◌, ◌<◌, ◌≡◌, refl, sym, ap, ◌∙◌, arith}
use inmojomni.Base.{◌<<u◌, List, [], ◌∷◌, get_or, if◌then◌else◌}
use inmojomni.Machine.{Bus, pure, halt, set_reg, reg, ◌>>◌, Memory}
use inmojomni.Machine.Ends.{Ends, ends, Ends-bind, Ends-mono, Stops, stops, Stops-bind}
use inmojomni.Machine.Keeps.{Keeps, Keeps-refl, Keeps-trans, Keeps-read, Keeps-write}
use inmojomni.World.{IsRam, World, on_dev, apart_frame}
use inmojomni.Xorshift.{xorshift_loop}
use inmojomni.Crc.Table.{joined, bytes_of}
use inmojomni.Scalar.Quotients.{add_quotients}
use inmojomni.Matrix.Repeat.{checksum}
use inmojomni.Board.{board_init, time_us}
use inmojomni.Board.Start.{Starts, board_init-EndsKeeping}
use inmojomni.Kernels.{Floats, f32_loop}
use inmojomni.Kernels.Rams.{crc_words, mat_a_words, mat_b_words, sort_sum}
use inmojomni.Kernels.Checksums.{Gives, Ticks, timed-Gives}
use inmojomni.Kernels.Checksums.{
  bm_xorshift-Gives, bm_div-Gives, bm_f32-Gives, bm_call-Gives, bm_crc32-Gives, bm_sort-Gives,
  bm_mat16-Gives, bm_fib-Gives,
}
use inmojomni.Results.{run_all}
use inmojomni.Results.Words.{Fixed, Apart, Fixed-cons, Fixed-write_ne}
use inmojomni.Results.Recorded.{Recorded, KernelsGive, run_all-Recorded}
use inmojomni.Results.Words.{peek-write_ne, peek-write_self}
use inmojomni.Bench.{gpio_loop, bm_gpio_toggle, bms, mojo_main}

-- The checksums of the nine kernels, in the order of BMS.
unfoldable pub checksums : Floats → List ℕ
checksums f =
    0
    ∷ xorshift_loop 200000 0xDEADBEEF
    ∷ add_quotients 50000 0 0
    ∷ (if f.gt (f32_loop f 20000 f.lit_0_0 f.lit_1_5) f.lit_1_0 then 1 else 0)
    ∷ 100000
    ∷ joined 4 0 (bytes_of crc_words) 0
    ∷ sort_sum 20 0 0
    ∷ checksum 50 0 mat_a_words mat_b_words 0
    ∷ 46368
    ∷ []

module _ {S : Type 0} (b : Bus S) (m : Memory b) where
  time_us-Ticks : Ticks b m (time_us (on_dev b))
  time_us-Ticks w = unfold time_us reg in ends (refl, Keeps-read b m 0x40054028 w.dev)

  -- Writes to a register above SRAM, in a loop.
  pub gpio_loop-Keeps :
      (out_xor n : ℕ) (w : World S)
      → 0x20042000 ≤ out_xor
      → out_xor % 4 ≡ 0
      → Ends (λ _ w'. (w'.ram ≡ w.ram) × Keeps b m w.dev w'.dev) (gpio_loop b out_xor n w)
  unfolding gpio_loop set_reg
  gpio_loop-Keeps out_xor zero w h k = ends (refl, Keeps-refl b m w.dev)
  gpio_loop-Keeps out_xor (suc n) w h k =
      let w1 = record w { dev = b.write out_xor (1 <<u 15) w.dev } in
      Ends-mono (gpio_loop-Keeps out_xor n w1 h k)
        λ _ w2 q. (q.0, Keeps-trans b m (Keeps-write b m out_xor (1 <<u 15) w.dev (h, k)) (q.1))

  bm_gpio_toggle-Gives : (w : World S) → IsRam w.ram → Gives b m w 0 (bm_gpio_toggle b w)
  unfolding bm_gpio_toggle set_reg
  bm_gpio_toggle-Gives w v =
      let w1 = record w { dev = b.write 0x4001407C 5 w.dev } in
      let w2 = record w { dev = b.write 0xD0000024 (1 <<u 15) w1.dev } in
      let kept =
        Keeps-trans b m (Keeps-write b m 0x4001407C 5 w.dev (omega arith))
          (Keeps-write b m 0xD0000024 (1 <<u 15) w1.dev (omega arith)) in
      Ends-mono
        (timed-Gives b m (time_us (on_dev b)) time_us-Ticks w2 0
          (gpio_loop b 0xD000001C 100000 >> pure 0) (toggles w2 v))
        λ t w3 q. (q.0, q.1, Keeps-trans b m kept (q.2))
    where
      toggles :
          (w2 : World S)
          → IsRam w2.ram
          → (w3 : World S) → w3.ram ≡ w2.ram
          → Ends {A = ℕ}
              (λ c w'. (c ≡ 0) × IsRam w'.ram × Keeps b m w3.dev w'.dev)
              ((gpio_loop b 0xD000001C 100000 >> pure 0) w3)
      toggles w2 v w3 e =
          Ends-bind (gpio_loop b 0xD000001C 100000) _ w3
            (gpio_loop-Keeps 0xD000001C 100000 w3 (omega arith) refl)
            λ _ w4 q. ends (refl, subst IsRam (sym (q.0 ∙ e)) v, q.1)

-- The words beside the status that are set before the first run, FIB_N among them.
abbrev pub header : List (ℕ × ℕ)
header = (0x20023000, 24) ∷ (0x2003000C, 3) ∷ (0x20030008, 9) ∷ (0x20030000, 0x42454E43) ∷ []

header-Apart : Apart 0x20030010 header
header-Apart = omega arith

-- What a debug probe reads when the runs are over: `table` is the address of the first result.
pub record Mailbox {S : Type 0} {b : Bus S} (m : Memory b) (f : Floats) (table : ℕ) (s : S)
    : Type 0 where
  pub magic : m.peek 0x20030000 s ≡ 0x42454E43
  pub status : m.peek 0x20030004 s ≡ 2
  pub count : m.peek 0x20030008 s ≡ 9
  pub runs : m.peek 0x2003000C s ≡ 3
  pub results :
      (run i : ℕ)
      → run < 3
      → i < 9
      → m.peek (table + (run * 9 + i) * 8 + 4) s ≡ get_or (checksums f) i 0

module _ {S : Type 0} (b : Bus S) (m : Memory b) (f : Floats) where
  kernels_give :
      KernelsGive b m (bms b f) 0x20030010 (checksums f) header (omega arith) header-Apart
  unfolding bms checksums
  kernels_give zero h = (_, refl, λ w v e. bm_gpio_toggle-Gives b m w v)
  kernels_give (suc zero) h = (_, refl, λ w v e. bm_xorshift-Gives b m _ (time_us-Ticks b m) w v)
  kernels_give (suc (suc zero)) h = (_, refl, λ w v e. bm_div-Gives b m _ (time_us-Ticks b m) w v)
  kernels_give (suc (suc (suc zero))) h =
      (_, refl, λ w v e. bm_f32-Gives b m _ (time_us-Ticks b m) f w v)
  kernels_give (suc (suc (suc (suc zero)))) h =
      (_, refl, λ w v e. bm_call-Gives b m _ (time_us-Ticks b m) w v)
  kernels_give (suc (suc (suc (suc (suc zero))))) h =
      (_, refl, λ w v e. bm_crc32-Gives b m _ (time_us-Ticks b m) w v)
  kernels_give (suc (suc (suc (suc (suc (suc zero)))))) h =
      (_, refl, λ w v e. bm_sort-Gives b m _ (time_us-Ticks b m) w v)
  kernels_give (suc (suc (suc (suc (suc (suc (suc zero))))))) h =
      (_, refl, λ w v e. bm_mat16-Gives b m _ (time_us-Ticks b m) w v)
  kernels_give (suc (suc (suc (suc (suc (suc (suc (suc zero)))))))) h =
      (_, refl, λ w v e. bm_fib-Gives b m _ (time_us-Ticks b m) w v (e.0))
  kernels_give (suc (suc (suc (suc (suc (suc (suc (suc (suc i))))))))) h = absurd (omega arith)

  -- The state when the runs begin.
  abbrev begun : S → S
  begun s = b.write 0x20023000 24 (
      b.write 0x2003000C 3
        (b.write 0x20030008 9 (b.write 0x20030004 1 (b.write 0x20030000 0x42454E43 s))))

  begun_header : (s : S) → Fixed b m header (begun s)
  begun_header s =
      Fixed-cons b m ((0x2003000C, 3) ∷ (0x20030008, 9) ∷ (0x20030000, 0x42454E43) ∷ []) 0x20023000
        24 _ (omega arith)
        (Fixed-cons b m ((0x20030008, 9) ∷ (0x20030000, 0x42454E43) ∷ []) 0x2003000C 3 _
          (omega arith)
          (Fixed-cons b m ((0x20030000, 0x42454E43) ∷ []) 0x20030008 9 _ (omega arith) (
            Fixed-write_ne b m ((0x20030000, 0x42454E43) ∷ []) 0x20030004 1 _ (omega arith)
              (Fixed-cons b m [] 0x20030000 0x42454E43 s (omega arith) tt))))

  begun-Recorded :
      (w : World S)
      → IsRam w.ram
      → Recorded b m 0x20030010 (checksums f) header 0 (record w { dev = begun w.dev })
  begun-Recorded w v = record {
    is_ram = v;
    header = begun_header w.dev;
    slots = λ k q. absurd (omega arith);
  }

  -- The last write to the mailbox.
  finished :
      (w : World S)
      → Recorded b m 0x20030010 (checksums f) header 27 w
      → Mailbox m f 0x20030010 (b.write 0x20030004 2 w.dev)
  finished w r =
      let h = Fixed-write_ne b m header 0x20030004 2 w.dev (omega arith) r.header in
      record {
        magic = h.1.1.1.0;
        status = peek-write_self b m 0x20030004 2 w.dev (omega arith);
        count = h.1.1.0;
        runs = h.1.0;
        results = λ run i p q.
            peek-write_ne b m (0x20030010 + (run * 9 + i) * 8 + 4) 0x20030004 2 w.dev (omega arith)
              refl (omega arith)
            ∙ ap (λ a. m.peek a w.dev) (omega arith)
            ∙ r.slots (run * 9 + i) (omega arith)
            ∙ ap (λ n. get_or (checksums f) n 0) (omega arith);
      }

  -- From any well-formed buffers, on a chip that starts, the program of bench/bench.c reaches its
  -- last loop, and the mailbox then holds the magic number, the status 2, the counts, and for each
  -- of the three runs the same nine checksums, which do not depend on the buffers' first contents.
  pub mojo_main-Mailbox :
      (fuel : ℕ) (w : World S)
      → IsRam w.ram
      → Starts (on_dev b) fuel
      → Stops (λ w'. Mailbox m f 0x20030010 w'.dev) (mojo_main b f fuel w)
  unfolding mojo_main set_reg halt
  mojo_main-Mailbox fuel w v c =
      Stops-bind (board_init (on_dev b) fuel) _ w
        (board_init-EndsKeeping (on_dev b) (apart_frame b m) fuel w c)
        λ _ w1 k.
          Stops-bind (run_all b (bms b f) 0x20030010 3 0) _ (record w1 { dev = begun w1.dev })
            (run_all-Recorded b m (bms b f) 0x20030010 (checksums f) header (omega arith)
              header-Apart 3 0 _ kernels_give refl (begun-Recorded w1 (subst IsRam (sym (k.0)) v)))
            λ _ w2 r. stops (finished w2 r)
