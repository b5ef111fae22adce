-- ===== src/Examples/Words.antt =====
-- The pure routines of bench/bench.c at concrete inputs.
use inmojomni.Base.{ℕ, ◌%◌, ◌^◌, ◌<◌, ◌≡◌, ◌≢◌, refl, arith}
use inmojomni.Base.{List, [], ◌∷◌, some}
use inmojomni.Xorshift.{step, xorshift_loop}
use inmojomni.Xorshift.Inverse.{unstep, unstep_loop, step-unstep}
use inmojomni.Xorshift.Inverse.{xorshift_loop-reversible, xorshift_loop-ne-zero}
use inmojomni.Xorshift.Fill.{fill, stream, fill_lem}
use inmojomni.Crc.{crc_buffer, crc_word, crc_rounds, crc_round, crc_passes}
use inmojomni.Crc.Table.{joined, bytes_of, crc_passes-table}
use inmojomni.Qsort.{pos, partition, qsort_u32}
use inmojomni.Qsort.Partition.{Partitions, partition-Partitions}
use inmojomni.Qsort.Sorted.{Sorts, qsort_u32-Sorts}
use inmojomni.Scalar.{div_loop, call_loop, fib}
use inmojomni.Scalar.Quotients.{add_quotients, div_loop-add_quotients, call_loop-add}
use inmojomni.Scalar.Fibonacci.{fibonacci, fib-fibonacci}
use inmojomni.Matrix.{Reps, rows, reps}
use inmojomni.Matrix.Product.{IsMatrix, IsProduct, rows-IsProduct}
use inmojomni.Matrix.Repeat.{checksum, reps-checksum}
use inmojomni.Examples.Chip.{zeros}

-- The first outputs of the generator from 1.
step_one : step 1 ≡ 270369
unfolding step
step_one = refl

step_twice : xorshift_loop 2 1 ≡ 67634689
unfolding xorshift_loop step
step_twice = refl

-- CRC-32 of `12345678`, of which the check value is 0x9AE0DAAF.
crc_check : crc_passes 2 1 0 (0x34333231 ∷ 0x38373635 ∷ []) 0 ≡ some 0x9AE0DAAF
unfolding crc_passes crc_buffer crc_word crc_rounds crc_round
crc_check = refl

abbrev four_words : List ℕ
four_words = 30 ∷ 10 ∷ 40 ∷ 20 ∷ []

qsort_u32-Sorts_example : Sorts 0 4 four_words (qsort_u32 5 four_words (pos 0) (pos 3))
qsort_u32-Sorts_example = qsort_u32-Sorts 5 0 3 four_words (omega arith) (omega arith)

partition-Partitions_example : Partitions 0 3 four_words (partition four_words 0 3)
partition-Partitions_example = partition-Partitions four_words 0 3 (omega arith) (omega arith)

crc_passes-table_example : crc_passes 4 2 0 four_words 0 ≡ some (joined 2 0 (bytes_of four_words) 0)
crc_passes-table_example = crc_passes-table 2 0 four_words 0

rows-IsProduct_example :
    IsProduct (zeros 256) (zeros 256) (rows 16 0 (zeros 256) (zeros 256) (zeros 256))
rows-IsProduct_example = rows-IsProduct (zeros 256) (zeros 256) (zeros 256) refl refl refl

abbrev blank_reps : Reps
blank_reps = record { A = zeros 256; C = zeros 256; acc = 0 }

reps-checksum_example :
    (s' : Reps) × (reps 50 0 (zeros 256) blank_reps ≡ some s')
    × IsMatrix s'.A
    × IsMatrix s'.C
    × (s'.acc ≡ checksum 50 0 (zeros 256) (zeros 256) 0)
reps-checksum_example = reps-checksum 50 0 (zeros 256) blank_reps (omega arith) refl refl refl

xorshift_loop-reversible_example :
    (xorshift_loop 5 0xDEADBEEF < 2 ^ 32)
    × (unstep_loop 5 (xorshift_loop 5 0xDEADBEEF) ≡ 0xDEADBEEF)
xorshift_loop-reversible_example = xorshift_loop-reversible 5 0xDEADBEEF (omega arith)

xorshift_loop-ne-zero_example : xorshift_loop 5 0xDEADBEEF ≢ 0
xorshift_loop-ne-zero_example = xorshift_loop-ne-zero 5 0xDEADBEEF (omega arith) (omega arith)

step-unstep_example : step (unstep 0x12345678) ≡ 0x12345678
step-unstep_example = step-unstep 0x12345678 (omega arith)

fill_lem_example : fill 4 0 7 four_words ≡ some (xorshift_loop 4 7, stream 4 7)
fill_lem_example = fill_lem 4 7 four_words refl

div_loop-add_quotients_example : div_loop 10 0 0 1 ≡ some (add_quotients 10 0 0)
div_loop-add_quotients_example = div_loop-add_quotients 10 0 0 (omega arith)

fib-fibonacci_example : fib 11 10 ≡ some (fibonacci 10 % 2 ^ 32)
fib-fibonacci_example = fib-fibonacci 11 10 (omega arith) (omega arith)

call_loop-add_example : call_loop 10 4294967290 ≡ 4
call_loop-add_example = call_loop-add 10 4294967290 (omega arith)
