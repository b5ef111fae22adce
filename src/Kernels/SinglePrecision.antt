-- ===== src/Kernels/SinglePrecision.antt =====
-- The checksum of `bm_f32` under the laws of IEEE arithmetic that it rests on.
use inmojomni.Base.{ℕ, zero, suc, ◌≡◌, ap, ◌∙◌, true}
use mathlib.Core.Path.{subst}
use inmojomni.Base.{if◌then◌else◌}
use inmojomni.Machine.{Bus, Prog, Memory}
use inmojomni.World.{IsRam, World}
use inmojomni.Kernels.{Floats, f32_loop, bm_f32}
use inmojomni.Kernels.Checksums.{Gives, Ticks, bm_f32-Gives}

-- `NonNeg` holds of +0, of the positive numbers and of +infinity. Rounding is monotone, so a sum
-- with such a number is above all that its first operand is above.
pub record IeeeLaws (f : Floats) : Type 1 where
  pub NonNeg : f.F → Type 0
  pub zero_nonneg : NonNeg f.lit_0_0
  pub one_half_more : NonNeg f.lit_1_5
  pub add_nonneg : (x y : f.F) → NonNeg x → NonNeg y → NonNeg (f.add x y)
  pub scale_nonneg : (x : f.F) → NonNeg x → NonNeg (f.mul x f.lit_1_000119)
  pub half_nonneg : (x : f.F) → NonNeg x → NonNeg (f.mul x f.lit_0_5)
  pub zero_add : (x : f.F) → NonNeg x → f.add f.lit_0_0 x ≡ x
  pub add_gt : (x y c : f.F) → NonNeg x → NonNeg y → f.gt x c ≡ true → f.gt (f.add x y) c ≡ true
  pub first_product : f.gt (f.mul f.lit_1_5 f.lit_1_000119) f.lit_1_0 ≡ true

module _ (f : Floats) (laws : IeeeLaws f) where
  stays_above :
      (n : ℕ) (sum a : f.F)
      → laws.NonNeg sum
      → laws.NonNeg a
      → f.gt sum f.lit_1_0 ≡ true
      → f.gt (f32_loop f n sum a) f.lit_1_0 ≡ true
  unfolding f32_loop
  stays_above zero sum a p q h = h
  stays_above (suc n) sum a p q h =
      let scaled = laws.scale_nonneg a q in
      let sum' = f.add sum (f.mul a f.lit_1_000119) in
      let p' = laws.add_nonneg sum _ p scaled in
      stays_above n sum' (f.add (f.mul sum' f.lit_0_5) a) p'
        (laws.add_nonneg _ a (laws.half_nonneg sum' p') q) (laws.add_gt sum _ f.lit_1_0 p scaled h)

-- The sum is above 1 after every number of rounds but 0.
f32_loop-gt :
    (f : Floats)
    → IeeeLaws f
    → (n : ℕ) → f.gt (f32_loop f (suc n) f.lit_0_0 f.lit_1_5) f.lit_1_0 ≡ true
unfolding f32_loop
f32_loop-gt f laws n =
    let first = f.mul f.lit_1_5 f.lit_1_000119 in
    let p = laws.scale_nonneg f.lit_1_5 laws.one_half_more in
    let sum = f.add f.lit_0_0 first in
    let start = laws.zero_add first p in
    let above = ap (λ x. f.gt x f.lit_1_0) start ∙ laws.first_product in
    let q = laws.add_nonneg f.lit_0_0 first laws.zero_nonneg p in
    stays_above f laws n sum (f.add (f.mul sum f.lit_0_5) f.lit_1_5) q
      (laws.add_nonneg _ f.lit_1_5 (laws.half_nonneg sum q) laws.one_half_more) above

-- In arithmetic with these laws, `bm_f32` comes to its end with the checksum 1, if reading the time
-- does, and leaves the buffers well formed and the words of SRAM as they were.
pub bm_f32_checksum :
    {S : Type 0} (f : Floats) (laws : IeeeLaws f) (b : Bus S) (m : Memory b)
    (now : Prog (World S) ℕ) (ticks : Ticks b m now) (w : World S)
    → IsRam w.ram
    → Gives b m w 1 (bm_f32 b now f w)
bm_f32_checksum f laws b m now ticks w v =
    let above = f32_loop-gt f laws 19999 in
    subst (λ t. Gives b m w (if t then 1 else 0) (bm_f32 b now f w)) above
      (bm_f32-Gives b m now ticks f w v)
