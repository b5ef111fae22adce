-- ===== src/IrqLatency/Interrupts/Quiet.antt =====
-- States of bench/irq_latency.c with no interrupt to come, and those with one.
use inmojomni.Base.{sym, ◌==◌, refl, inl, inr, ◌≤◌, ◌<◌, ℕ, ◌≡◌, ◌≢◌, ap, ◌∙◌, arith, ◌+u◌, ◌<<u◌}
use inmojomni.Base.{Bool, true, false, ◌&&◌, if◌then◌else◌}
use inmojomni.Machine.{Bus, Memory, InSram, reg, set_reg}
use inmojomni.Machine.Keeps.{IsDevice, Keeps-write}
use inmojomni.Results.Words.{peek-write_ne, peek-write_self}
use inmojomni.IrqLatency.{irq_count, intr1, isr_irq13}
use inmojomni.IrqLatency.Interrupts.{Edge, after_isr, entered}

-- The words with one of them written.
abbrev pub put : ℕ → ℕ → (ℕ → ℕ) → ℕ → ℕ
put a v w x = if a == x then v else w x

module _ {S : Type 0} (b : Bus S) (m : Memory b) (e : Edge b) where
  -- IRQ_COUNT, the level of GPIO 15, and whether its edge is latched, with the interrupt on;
  -- and the other words of SRAM.
  pub record Irq (w : ℕ → ℕ) (n : ℕ) (up waiting : Bool) (s : S) : Type 0 where
    pub count : m.peek irq_count s ≡ n
    pub level : e.pin s ≡ up
    pub edge : e.latched s ≡ waiting
    pub on : e.enabled s ≡ true
    pub others : (a : ℕ) → InSram a → a ≢ irq_count → m.peek a s ≡ w a

  module _ (w : ℕ → ℕ) (n : ℕ) (up waiting : Bool) (s : S) (q : Irq w n up waiting s) where
    pub load-Irq : (a : ℕ) → Irq w n up waiting (b.read a s).1
    load-Irq a = record {
      count = m.peek-read irq_count a s (omega arith) ∙ q.count;
      level = (e.load a s).0 ∙ q.level;
      edge = (e.load a s).1 ∙ q.edge;
      on = e.look a s ∙ q.on;
      others = λ x h ne. m.peek-read x a s h ∙ q.others x h ne;
    }

    pub store-Irq :
        (a v : ℕ) → InSram a → a ≢ irq_count → Irq (put a v w) n up waiting (b.write a v s)
    store-Irq a v h ne = record {
      count = peek-write_ne b m irq_count a v s (omega arith) (h.2) ne ∙ q.count;
      level = (e.store a v s h).0 ∙ q.level;
      edge = (e.store a v s h).1 ∙ q.edge;
      on = e.plain a v s (inl h) ∙ q.on;
      others = λ x g nx.
          m.peek-write x a v s g (h.2) ∙ ap (λ t. if a == x then v else t) (q.others x g nx);
    }

    device-count : (r v : ℕ) → IsDevice r → m.peek irq_count (b.write r v s) ≡ n
    device-count r v d = Keeps-write b m r v s d irq_count (omega arith) ∙ q.count

    device_others :
        (r v : ℕ) → IsDevice r → (a : ℕ) → InSram a → a ≢ irq_count → m.peek a (b.write r v s) ≡ w a
    device_others r v d a h ne = Keeps-write b m r v s d a h ∙ q.others a h ne

    sio_on : (r v : ℕ) → (0xD0000000 ≤ r) × (r < 0xD0001000) → e.enabled (b.write r v s) ≡ true
    sio_on r v d = e.plain r v s (inr (inr d)) ∙ q.on

    pub set_other-Irq : Irq w n up waiting (b.write 0xD0000014 (1 <<u 16) s)
    set_other-Irq = record {
      count = device-count 0xD0000014 (1 <<u 16) (omega arith);
      level = (e.set_other s).0 ∙ q.level;
      edge = (e.set_other s).1 ∙ q.edge;
      on = sio_on 0xD0000014 (1 <<u 16) (omega arith);
      others = device_others 0xD0000014 (1 <<u 16) (omega arith);
    }

    pub clear_other-Irq : Irq w n up waiting (b.write 0xD0000018 (1 <<u 16) s)
    clear_other-Irq = record {
      count = device-count 0xD0000018 (1 <<u 16) (omega arith);
      level = (e.clear_other s).0 ∙ q.level;
      edge = (e.clear_other s).1 ∙ q.edge;
      on = sio_on 0xD0000018 (1 <<u 16) (omega arith);
      others = device_others 0xD0000018 (1 <<u 16) (omega arith);
    }

    pub lower-Irq : Irq w n false waiting (b.write 0xD0000018 (1 <<u 15) s)
    lower-Irq = record {
      count = device-count 0xD0000018 (1 <<u 15) (omega arith);
      level = (e.lower s).0;
      edge = (e.lower s).1 ∙ q.edge;
      on = sio_on 0xD0000018 (1 <<u 15) (omega arith);
      others = device_others 0xD0000018 (1 <<u 15) (omega arith);
    }

    acknowledge-Irq : Irq w n up false (b.write intr1 (1 <<u 31) s)
    acknowledge-Irq = record {
      count = device-count intr1 (1 <<u 31) (omega arith);
      level = (e.acknowledge s).0 ∙ q.level;
      edge = (e.acknowledge s).1;
      on = e.plain intr1 (1 <<u 31) s (inr (inl refl)) ∙ q.on;
      others = device_others intr1 (1 <<u 31) (omega arith);
    }

  pub raise-Irq :
      (w : ℕ → ℕ) (n : ℕ) (s : S)
      → Irq w n false false s
      → Irq w n true true (b.write 0xD0000014 (1 <<u 15) s)
  raise-Irq w n s q = record {
    count = device-count w n false false s q 0xD0000014 (1 <<u 15) (omega arith);
    level = (e.raise s q.level).0;
    edge = (e.raise s q.level).1;
    on = sio_on w n false false s q 0xD0000014 (1 <<u 15) (omega arith);
    others = device_others w n false false s q 0xD0000014 (1 <<u 15) (omega arith);
  }

  -- The handler adds one to IRQ_COUNT and takes the edge away.
  pub after_isr-Irq :
      (w : ℕ → ℕ) (n : ℕ) (up waiting : Bool) (s : S)
      → Irq w n up waiting s
      → Irq w (n +u 1) up false (after_isr b s)
  unfolding after_isr isr_irq13 set_reg reg
  after_isr-Irq w n up waiting s q =
      let q1 = set_other-Irq w n up waiting s q in
      let q2 = acknowledge-Irq w n up waiting _ q1 in
      let q3 = load-Irq w n up false _ q2 irq_count in
      counted _ _ q3 (m.read-peek irq_count _ (omega arith) ∙ q2.count)
    where
      counted :
          (t : S) (v : ℕ)
          → Irq w n up false t
          → v ≡ n
          → Irq w (n +u 1) up false (b.write irq_count (v +u 1) t)
      counted t v r k = record {
        count = peek-write_self b m irq_count (v +u 1) t (omega arith) ∙ ap (λ (i : ℕ). i +u 1) k;
        level = (e.store irq_count (v +u 1) t (omega arith)).0 ∙ r.level;
        edge = (e.store irq_count (v +u 1) t (omega arith)).1 ∙ r.edge;
        on = e.plain irq_count (v +u 1) t (inl (omega arith)) ∙ r.on;
        others = λ x h ne.
            peek-write_ne b m x irq_count (v +u 1) t h (omega arith) (λ d. ne (sym d))
            ∙ r.others x h ne;
      }

  module _ (schedule : ℕ → Bool) where
    -- With no edge latched, no handler runs.
    pub entered-quiet :
        (w : ℕ → ℕ) (n : ℕ) (up : Bool) (t : ℕ) (s : S)
        → Irq w n up false s
        → entered b e schedule t s ≡ s
    entered-quiet w n up t s q =
        ap (λ p. if p && e.enabled s && schedule t then after_isr b s else s) q.edge

    -- With one, it runs when the schedule says so.
    pub entered-waiting :
        (w : ℕ → ℕ) (n : ℕ) (up : Bool) (t : ℕ) (s : S)
        → Irq w n up true s
        → entered b e schedule t s ≡ (if schedule t then after_isr b s else s)
    entered-waiting w n up t s q =
        ap (λ p. if p && e.enabled s && schedule t then after_isr b s else s) q.edge
        ∙ ap (λ p. if p && schedule t then after_isr b s else s) q.on
