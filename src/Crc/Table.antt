-- ===== src/Crc/Table.antt =====
-- The loops of `bm_crc32` in bench/bench.c against the table-driven CRC-32 over a string of bytes.
use native.Mathlib.Nat.{mul-one, add-zero, zero-add, mod-lt}
use native.Mathlib.Numerals.{add-one}
use inmojomni.Base.{ℕ, zero, suc, ◌+◌, ◌*◌, ◌/◌, ◌%◌, ◌^◌, ◌<◌, ◌≡◌, refl, ap, ◌∙◌}
use inmojomni.Base.{bit_and, bit_xor, arith, ◌>>u◌, not_u, ◌==◌, if◌then◌else◌}
use inmojomni.Base.{
  List, [], ◌∷◌, some, length, get_or, drop, drop-step, drop-length, get_elem?-eq-get_or,
}
use inmojomni.Bits.{xor-zero, xor_assoc, xor_comm, xor-shr, xor_fields, and-mask}
use inmojomni.Bits.{xor_half, xor_low, and-one, double_pow}
use inmojomni.Crc.{crc_round, crc_rounds, crc_word, crc_buffer, crc_passes}

-- One bit of the division by the reflected polynomial, by a test.
abbrev pub divide_bit : ℕ → ℕ
divide_bit x = if x % 2 == 1 then bit_xor (x / 2) 0xEDB88320 else x / 2

abbrev pub divide_bits : ℕ → ℕ → ℕ
divide_bits zero x = x
divide_bits (suc n) x = divide_bits n (divide_bit x)

-- The entries for the bytes `i`, `i + 1`, ….
pub entries : ℕ → ℕ → List ℕ
entries zero i = []
entries (suc n) i = divide_bits 8 i ∷ entries n (i + 1)

pub table : List ℕ
table = entries 256 0

-- `crc = table[(crc ^ byte) & 0xFF] ^ (crc >> 8)`
pub table_step : ℕ → ℕ → ℕ
table_step crc byte = bit_xor (get_or table (bit_xor crc byte % 256) 0) (crc / 256)

-- A string of bytes.
pub table_crc : List ℕ → ℕ → ℕ
table_crc [] crc = crc
table_crc (b ∷ bytes) crc = table_crc bytes (table_step crc b)

-- The bytes of 32-bit words, lowest first.
pub bytes_of : List ℕ → List ℕ
bytes_of [] = []
bytes_of (w ∷ ws) =
    (w % 256) ∷ (w / 2 ^ 8 % 256) ∷ (w / 2 ^ 16 % 256) ∷ (w / 2 ^ 24 % 256) ∷ bytes_of ws

-- The branchless mask is the test of the lowest bit.
crc_round-divide_bit : (x : ℕ) → crc_round x ≡ divide_bit x
unfolding crc_round
crc_round-divide_bit x = ground (arith, and-one x, xor-zero (x / 2))

crc_rounds-divide_bits : (n x : ℕ) → crc_rounds n x ≡ divide_bits n x
unfolding crc_rounds
crc_rounds-divide_bits zero x = refl
crc_rounds-divide_bits (suc n) x =
    rw (crc_round-divide_bit x) (crc_rounds-divide_bits n (divide_bit x))

-- The bits above those divided come through unchanged.
divide_bit-double : (q z : ℕ) → divide_bit (bit_xor (2 * q) z) ≡ bit_xor q (divide_bit z)
divide_bit-double q z =
    let halved : 2 * q / 2 ≡ q = omega arith in
    ground (
      arith,
      xor_low (2 * q) z,
      xor_half (2 * q) z,
      ap (λ (t : ℕ). bit_xor t (z / 2)) halved,
      xor_assoc q (z / 2) 0xEDB88320,
    )

divide_bits-shl : (n q z : ℕ) → divide_bits n (bit_xor (q * 2 ^ n) z) ≡ bit_xor q (divide_bits n z)
divide_bits-shl zero q z = rw (mul-one q)
divide_bits-shl (suc n) q z =
    rw (double_pow q n, divide_bit-double (q * 2 ^ n) z) (divide_bits-shl n q (divide_bit z))

get_or-entries : (n i j : ℕ) → j < n → get_or (entries n i) j 0 ≡ divide_bits 8 (i + j)
unfolding entries
get_or-entries zero i j h = absurd (omega arith)
get_or-entries (suc n) i zero h = rw (add-zero i)
get_or-entries (suc n) i (suc j) h =
    let moved : i + 1 + j ≡ i + suc j = omega arith in
    get_or-entries n (i + 1) j (omega arith) ∙ ap (divide_bits 8) moved

get_or-table : (j : ℕ) → j < 256 → get_or table j 0 ≡ divide_bits 8 j
unfolding table
get_or-table j h = get_or-entries 256 0 j h ∙ ap (divide_bits 8) (zero-add j)

-- Eight rounds after a byte is mixed in are one step by the table.
table_step_lem : (crc byte : ℕ) → byte < 256 → crc_rounds 8 (bit_xor crc byte) ≡ table_step crc byte
unfolding table_step
table_step_lem crc byte h =
    let x = bit_xor crc byte in
    let split : bit_xor (x / 256 * 2 ^ 8) (x % 256) ≡ x =
      omega (arith, xor_fields 8 (x / 256) (x % 256) (omega arith)) in
    let no_byte : byte / 2 ^ 8 ≡ 0 = omega arith in
    let above : x / 256 ≡ crc / 256 =
      xor-shr 8 crc byte ∙ ap (bit_xor (crc / 256)) no_byte ∙ xor-zero (crc / 256) in
    cc (
      crc_rounds-divide_bits 8 x,
      divide_bits-shl 8 (x / 256) (x % 256),
      xor_comm (x / 256) (divide_bits 8 (x % 256)),
      get_or-table (x % 256) (mod-lt x (omega arith)),
    )

low_byte : (a : ℕ) → bit_and a 0xFF ≡ a % 256
low_byte a = and-mask 8 a

crc_word-table : (w crc : ℕ) → crc_word 4 0 w crc ≡ table_crc (bytes_of (w ∷ [])) crc
unfolding crc_word bytes_of table_crc
crc_word-table w crc =
    let whole : w >>u 0 ≡ w = omega arith in
    simp (
      whole,
      low_byte,
      table_step_lem _ (w % 256) (mod-lt w (omega arith)),
      table_step_lem _ (w / 2 ^ 8 % 256) (mod-lt (w / 2 ^ 8) (omega arith)),
      table_step_lem _ (w / 2 ^ 16 % 256) (mod-lt (w / 2 ^ 16) (omega arith)),
      table_step_lem _ (w / 2 ^ 24 % 256) (mod-lt (w / 2 ^ 24) (omega arith)),
    )

table_crc-word :
    (w : ℕ) (ws : List ℕ) (crc : ℕ)
    → table_crc (bytes_of (w ∷ ws)) crc ≡ table_crc (bytes_of ws) (crc_word 4 0 w crc)
table_crc-word w ws crc = rw (crc_word-table w crc) (unfold table_crc bytes_of in refl)

crc_buffer-table :
    (left i : ℕ) (buf : List ℕ) (crc : ℕ)
    → i + left ≡ length buf
    → crc_buffer left i buf crc ≡ some (table_crc (bytes_of (drop i buf)) crc)
unfolding crc_buffer
crc_buffer-table zero i buf crc e =
    let whole : i ≡ length buf = omega arith in
    rw (whole, drop-length buf) (unfold table_crc bytes_of in refl)
crc_buffer-table (suc left) i buf crc e =
    let inside : i < length buf = omega arith in
    let w = get_or buf i 0 in
    rw (
      get_elem?-eq-get_or buf i 0 inside,
      crc_buffer,
      crc_buffer-table left (i + 1) buf (crc_word 4 0 w crc) (omega arith),
      drop-step i buf 0 inside,
      table_crc-word w (drop (suc i) buf) crc,
      add-one i,
    )

-- CRC-32 by the table, with the register set to `start` first and inverted last.
pub table_crc_from : ℕ → List ℕ → ℕ
table_crc_from start bytes = not_u (table_crc bytes start)

-- The checksums for `n` passes, the first with `k`, joined by `^`.
pub joined : ℕ → ℕ → List ℕ → ℕ → ℕ
joined zero k bytes acc = acc
joined (suc n) k bytes acc =
    joined n (k + 1) bytes (bit_xor acc (table_crc_from (bit_xor 0xFFFFFFFF k) bytes))

-- Over a buffer of as many words as the loops count, the bitwise loops of `bm_crc32` read nothing
-- out of bounds, and each pass computes the table-driven CRC-32 of the buffer's bytes, low byte
-- first, from the register that the pass starts with.
pub crc_passes-table :
    (passes k : ℕ) (buf : List ℕ) (acc : ℕ)
    → crc_passes (length buf) passes k buf acc ≡ some (joined passes k (bytes_of buf) acc)
unfolding crc_passes joined table_crc_from
crc_passes-table zero k buf acc = refl
crc_passes-table (suc passes) k buf acc =
    rw (crc_buffer-table (length buf) 0 buf (bit_xor 0xFFFFFFFF k) (omega arith), crc_passes)
      (crc_passes-table passes (k + 1) buf
        (bit_xor acc (not_u (table_crc (bytes_of buf) (bit_xor 0xFFFFFFFF k)))))
