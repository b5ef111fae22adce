-- ===== src/IrqLatency/Popped.antt =====
-- Where a sample of bench/irq_latency.c comes from.
use inmojomni.Base.{
  ℕ, zero, suc, ◌^◌, ◌<◌, ◌≡◌, refl, ap, arith, Bool, true, false, ◌==◌, if◌then◌else◌, bit_and,
  ◌>>u◌, not_u,
}
use inmojomni.Machine.{Bus}
use inmojomni.IrqLatency.Await.{after_reads}

module _ {S : Type 0} (b : Bus S) where
  -- The state after a read of `a` that gives what passes.
  abbrev pub After : ℕ → (ℕ → Bool) → S → Type 0
  After a stay t = (s : S) × (stay (b.read a s).0 ≡ false) × (t ≡ (b.read a s).1)

  after_one_more :
      (a : ℕ) (stay : ℕ → Bool) (code n : ℕ) (s : S)
      → after_reads b a stay code (suc n) s ≡ (b.read a (after_reads b a stay code n s)).1
  after_one_more a stay code zero s = refl
  after_one_more a stay code (suc n) s = after_one_more a stay code n (b.read a s).1

  pub passed :
      (a : ℕ) (stay : ℕ → Bool) (code n : ℕ) (s : S)
      → stay (b.read a (after_reads b a stay code n s)).0 ≡ false
      → After a stay (after_reads b a stay code (suc n) s)
  passed a stay code n s stop =
      (after_reads b a stay code n s, stop, after_one_more a stay code n s)

  -- A sample: what a read of RXF0 gives, inverted, right after a read of FSTAT with RXEMPTY0 clear.
  abbrev pub Popped : ℕ → Type 0
  Popped n =
      (n < 2 ^ 32)
      × (s : S) × (bit_and ((b.read 0x50200004 s).0 >>u 8) 1 ≡ 0)
      × (n ≡ not_u (b.read 0x50200020 (b.read 0x50200004 s).1).0)

  clear : (x : ℕ) → (if x == 0 then false else true) ≡ false → x ≡ 0
  clear x h = ground arith

  pub popped :
      (t : S)
      → After 0x50200004 (λ v. if bit_and (v >>u 8) 1 == 0 then false else true) t
      → Popped (not_u (b.read 0x50200020 t).0)
  popped t (s, stop, same) =
      (omega arith, s, clear _ stop, ap (λ t. not_u (b.read 0x50200020 t).0) same)
