-- ===== src/Xorshift.antt =====
-- The generator of bench/bench.c: `step`, and the loop of `bm_xorshift`.
pub mod Inverse
pub mod Fill
use inmojomni.Base.{ℕ, zero, suc, bit_xor, ◌<<u◌, ◌>>u◌}

-- `x ^= x << 13; x ^= x >> 17; x ^= x << 5;`
unfoldable pub step : ℕ → ℕ
step x0 =
    let x1 = bit_xor x0 (x0 <<u 13) in let x2 = bit_xor x1 (x1 >>u 17) in bit_xor x2 (x2 <<u 5)

-- `for (i = 0; i < n; i++) x = step(x);`
unfoldable pub xorshift_loop : ℕ → ℕ → ℕ
xorshift_loop zero x = x
xorshift_loop (suc n) x = xorshift_loop n (step x)
