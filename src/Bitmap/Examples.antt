-- ===== src/Bitmap/Examples.antt =====
-- The theorems on the bitmap of utils/src/bitmap.rs at concrete bitmaps.
use vm_tools.Common.{
  ℕ, ◌+◌, ◌≡◌, refl, inr, arith, true, false, not, ◌==◌, if◌then◌else◌, ltb, List, [], ◌∷◌, ok, err,
  panic,
}
use vm_tools.BitOps.{BitOps, BitView}
use vm_tools.Word.{u8, u64, uint}
use vm_tools.Word.View.{uint-BitView}
use vm_tools.Bitmap.{Bitmap, vol, set, contain}
use vm_tools.UtilErrors.{out_of_bound}
use vm_tools.Bitmap.Bits.{bit_at}
use vm_tools.Bitmap.Single.{contain_beyond}
use vm_tools.Bitmap.Range.{range_loop, set_tail, set_range, clear_range}
use vm_tools.Bitmap.Range.Fills.{Fills}
use vm_tools.Bitmap.Range.Laws.{set_range_within, clear_range_within}
use vm_tools.Bitmap.Count.{count_front_bits}
use vm_tools.Bitmap.Count.Laws.{count_in, count_front_bits_lem}
use vm_tools.Bitmap.BitSet.{
  Call, set_bit, contain_bit, set_bits, count_bits, done, failed, panicked, bit, number, BitSet,
  promises,
}
use vm_tools.Bitmap.Refinement.{calls, Represents, calls-Refines}
use vm_tools.Bitmap.Find.{find_next_zero, find_next_bit}
use vm_tools.Bitmap.Find.Search.{IsFirst}
use vm_tools.Bitmap.Find.Laws.{
  find_next_zero_lem, find_next_bit_lem, find_next_zero_skips, find_next_bit_skips,
}

abbrev o8 : BitOps ℕ
o8 = uint u8

abbrev v8 : BitView o8
v8 = uint-BitView u8

abbrev o64 : BitOps ℕ
o64 = uint u64

-- Three words of 8 bits.
abbrev sample : Bitmap ℕ
sample = record { words = 0x5a ∷ 0xff ∷ 0 ∷ [] }

set_range_within_example :
    ((set_range o8 sample 3 10).0 ≡ ok tt)
    × Fills o8 v8 true 3 13 sample (set_range o8 sample 3 10).1
unfolding uint
set_range_within_example = set_range_within o8 v8 sample 3 10 (omega arith)

clear_range_within_example :
    ((clear_range o8 sample 3 10).0 ≡ ok tt)
    × Fills o8 v8 false 3 13 sample (clear_range o8 sample 3 10).1
unfolding uint
clear_range_within_example = clear_range_within o8 v8 sample 3 10 (omega arith)

find_next_zero_lem_example :
    (r : ℕ) × (find_next_zero o8 sample 3 ≡ ok r)
    × IsFirst (λ n. not (bit_at o8 v8 sample n)) 3 (vol o8 sample) r
unfolding uint
find_next_zero_lem_example = find_next_zero_lem o8 v8 sample 3 (omega arith) (inr refl)

find_next_bit_lem_example :
    (r : ℕ) × (find_next_bit o8 sample 5 ≡ ok r) × IsFirst (bit_at o8 v8 sample) 5 (vol o8 sample) r
unfolding uint
find_next_bit_lem_example = find_next_bit_lem o8 v8 sample 5 (omega arith) (inr refl)

find_next_zero_skips_example : find_next_zero o8 sample 13 ≡ find_next_zero o8 sample (13 + o8.len)
unfolding uint
find_next_zero_skips_example = find_next_zero_skips o8 v8 sample 13 (omega arith) refl

-- A full word and then an empty one: the search from bit 5 passes the clear bits from 8 to 12.
skipped_zeros :
    let b : Bitmap ℕ = record { words = 0xff ∷ 0 ∷ [] } in
    (find_next_zero o8 b 5 ≡ ok 13) × (contain o8 b 8 ≡ ok false)
unfolding uint find_next_zero contain
skipped_zeros = (refl, refl)

abbrev sparse : Bitmap ℕ
sparse = record { words = 0 ∷ 3 ∷ [] }

find_next_bit_skips_example : find_next_bit o8 sparse 2 ≡ find_next_bit o8 sparse (2 + o8.len)
unfolding uint
find_next_bit_skips_example = find_next_bit_skips o8 v8 sparse 2 (omega arith) refl

-- The set bits 8 and 9 are passed over.
skipped_bits : find_next_bit o8 sparse 2 ≡ ok 16
unfolding uint find_next_bit contain
skipped_bits = refl

count_front_bits_lem_example : count_front_bits o8 sample 12 ≡ (
    if ltb (vol o8 sample) 12
    then err (out_of_bound 12 3)
    else ok (count_in (bit_at o8 v8 sample) 0 12))
count_front_bits_lem_example = count_front_bits_lem o8 v8 sample 12

contain_beyond_example :
    contain o8 sample 24
    ≡ (if 24 == vol o8 sample then panic else err (out_of_bound 24 (vol o8 sample)))
unfolding uint
contain_beyond_example = contain_beyond o8 v8 sample 24 (omega arith)

-- The set of the bits of the word 0x05, in two words.
abbrev five : Bitmap ℕ
five = record { words = 5 ∷ 0 ∷ [] }

abbrev five_set : BitSet
five_set = record { volume = 16; member = bit_at o8 v8 five }

five-Represents : Represents o8 v8 five five_set
unfolding uint
five-Represents = record { volumes = refl; bits = λ n. refl }

-- The second call is past the volume, the last one counts 0, 1, 2, 7 and 8.
abbrev session : List Call
session =
    set_bit 1 ∷ set_bit 16 ∷ contain_bit 16 ∷ set_bits 7 2 ∷ contain_bit 8 ∷ count_bits 16 ∷ []

calls-Refines_example :
    ((calls o8 five session).0 ≡ (promises five_set session).0)
    × Represents o8 v8 (calls o8 five session).1 (promises five_set session).1
calls-Refines_example = calls-Refines o8 v8 five five_set session five-Represents

session_replies :
    (calls o8 five session).0 ≡ done ∷ failed ∷ panicked ∷ done ∷ bit true ∷ number 5 ∷ []
unfolding uint set contain set_range count_front_bits range_loop set_tail
session_replies = refl
