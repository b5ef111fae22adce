-- ===== src/Layout.antt =====
-- Where the benchmark programs keep their scratch buffers, FIB_N and the mailbox: the same fixed
-- addresses in bench/bench.c and bench/bench_rp2350.c.
use inmojomni.Base.{ℕ, ◌+◌, ◌*◌, ◌/◌, ◌<◌, ◌≡◌, sym, ap, ◌∙◌, arith}
use inmojomni.Base.{ltb, if◌then◌else◌}
use inmojomni.Machine.{InSram}

pub data Buffer : Type 0 where
  crc_buf sort_buf mat_a mat_b mat_c fib_n mailbox : Buffer

-- The first address.
unfoldable pub base_of : Buffer → ℕ
base_of crc_buf = 0x20020000
base_of sort_buf = 0x20021000
base_of mat_a = 0x20022000
base_of mat_b = 0x20022400
base_of mat_c = 0x20022800
base_of fib_n = 0x20023000
base_of mailbox = 0x20030000

-- Of the mailbox, the 256 bytes that are committed to flash.
abbrev mailbox_words : ℕ
mailbox_words = 256 / 4

-- The number of words.
unfoldable pub words_of : Buffer → ℕ
words_of crc_buf = 1024
words_of sort_buf = 512
words_of mat_a = 256
words_of mat_b = 256
words_of mat_c = 256
words_of fib_n = 1
words_of mailbox = mailbox_words

abbrev pub word_address : Buffer → ℕ → ℕ
word_address x i = base_of x + 4 * i

owner : ℕ → Buffer
owner a =
    if ltb a 0x20021000
    then crc_buf
    else (if ltb a 0x20022000
        then sort_buf
        else (if ltb a 0x20022400
            then mat_a
            else (if ltb a 0x20022800
                then mat_b
                else (if ltb a 0x20023000
                    then mat_c
                    else (if ltb a 0x20030000 then fib_n else mailbox)))))

owner_lem : (x : Buffer) (i : ℕ) → i < words_of x → owner (word_address x i) ≡ x
unfolding owner base_of words_of
owner_lem crc_buf i h = ground arith
owner_lem sort_buf i h = ground arith
owner_lem mat_a i h = ground arith
owner_lem mat_b i h = ground arith
owner_lem mat_c i h = ground arith
owner_lem fib_n i h = ground arith
owner_lem mailbox i h = ground arith

word_address-InSram : (x : Buffer) (i : ℕ) → i < words_of x → InSram (word_address x i)
unfolding base_of words_of
word_address-InSram crc_buf i h = omega arith
word_address-InSram sort_buf i h = omega arith
word_address-InSram mat_a i h = omega arith
word_address-InSram mat_b i h = omega arith
word_address-InSram mat_c i h = omega arith
word_address-InSram fib_n i h = omega arith
word_address-InSram mailbox i h = omega arith

-- Two words of the buffers, of FIB_N or of the mailbox are at the same address only if they are the
-- same word of the same buffer, and each is an aligned word of SRAM.
pub word_address-distinct :
    (x y : Buffer) (i j : ℕ)
    → i < words_of x
    → j < words_of y
    → InSram (word_address x i) × (word_address x i ≡ word_address y j → (x ≡ y) × (i ≡ j))
word_address-distinct x y i j p q = (word_address-InSram x i p, λ e. (same e, index e (same e)))
  where
    same : word_address x i ≡ word_address y j → x ≡ y
    same e = sym (owner_lem x i p) ∙ ap owner e ∙ owner_lem y j q

    index : word_address x i ≡ word_address y j → x ≡ y → i ≡ j
    index e xy =
        let f : word_address x i ≡ word_address x j = e ∙ ap (λ t. word_address t j) (sym xy) in
        omega arith
