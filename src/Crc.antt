-- ===== src/Crc.antt =====
-- The checksum of `bm_crc32` in bench/bench.c.
pub mod Table
use inmojomni.Base.{ℕ, zero, suc, ◌+◌, ◌*◌, bit_and, bit_xor, ◌>>u◌, ◌-u◌, not_u}
use inmojomni.Base.{List, Option, none, some, get_elem?}
use inmojomni.Xorshift.Fill.{fill}

-- `crc = (crc >> 1) ^ (0xEDB88320u & (0u - (crc & 1u)));`
unfoldable pub crc_round : ℕ → ℕ
crc_round crc = bit_xor (crc >>u 1) (bit_and 0xEDB88320 (0 -u bit_and crc 1))

-- `for (r = 0; r < n; r++)`
unfoldable pub crc_rounds : ℕ → ℕ → ℕ
crc_rounds zero crc = crc
crc_rounds (suc n) crc = crc_rounds n (crc_round crc)

-- The loop over the bytes of one word: `left` rounds to go, at byte `b`.
unfoldable pub crc_word : ℕ → ℕ → ℕ → ℕ → ℕ
crc_word zero b w crc = crc
crc_word (suc left) b w crc =
    crc_word left (b + 1) w (crc_rounds 8 (bit_xor crc (bit_and (w >>u (8 * b)) 0xFF)))

-- The loop over the words of the buffer; a read out of bounds is `none`.
unfoldable pub crc_buffer : ℕ → ℕ → List ℕ → ℕ → Option ℕ
crc_buffer zero i buf crc = some crc
crc_buffer (suc left) i buf crc = elim (get_elem? buf i) [
  | none ↦ none
  | some w ↦ crc_buffer left (i + 1) buf (crc_word 4 0 w crc)
]

-- The loop over `k`: `left` passes to go, over a buffer of `n` words.
unfoldable pub crc_passes : ℕ → ℕ → ℕ → List ℕ → ℕ → Option ℕ
crc_passes n zero k buf acc = some acc
crc_passes n (suc left) k buf acc = elim (crc_buffer n 0 buf (bit_xor 0xFFFFFFFF k)) [
  | none ↦ none
  | some crc ↦ crc_passes n left (k + 1) buf (bit_xor acc (not_u crc))
]
