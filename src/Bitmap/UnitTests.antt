-- ===== src/Bitmap/UnitTests.antt =====
-- The unit tests of utils/src/bitmap.rs, as functions into Bool: a test is the list of its lines.
use vm_tools.Common.{ℕ, ◌+◌, ◌≡◌, refl, Bool, true, false, same, ◌&&◌, List, [], ◌∷◌, ◌==◌, ok, err}
use vm_tools.Word.{u16, u64, uint}
use vm_tools.Bitmap.{Bitmap, Result, new, set, clear, change, contain, clear_all}
use vm_tools.Bitmap.Range.{range_loop, set_tail, set_range, clear_tail, clear_range}
use vm_tools.Bitmap.Count.{count_front_bits}
use vm_tools.Bitmap.Find.{find_next_zero, find_next_bit}

-- A line of a test: whether its assertion holds, and the bitmap behind it.
abbrev Line : Type 0
Line = Bitmap ℕ → Bool × Bitmap ℕ

abbrev passes : List Line → Bitmap ℕ → Bool
passes [] b = true
passes (line ∷ rest) b = let (held, b') = line b in held && passes rest b'

abbrev is_ok : {A : Type 0} → Result A → Bool
is_ok (ok a) = true
is_ok _ = false

abbrev is_err : {A : Type 0} → Result A → Bool
is_err (err x) = true
is_err _ = false

abbrev is_bool : Result Bool → Bool → Bool
is_bool (ok a) b = same a b
is_bool _ b = false

abbrev is_number : Result ℕ → ℕ → Bool
is_number (ok n) m = n == m
is_number _ m = false

-- `assert!(bitmap.….is_ok())`, and `assert!(bitmap.….is_err())`.
abbrev goes : (Bitmap ℕ → Result (Unit {0}) × Bitmap ℕ) → Line
goes op b = let (r, b') = op b in (is_ok r, b')

abbrev refused : (Bitmap ℕ → Result (Unit {0}) × Bitmap ℕ) → Line
refused op b = let (r, b') = op b in (is_err r, b')

unfoldable test_bitmap_basic : Bool
test_bitmap_basic =
    let o = uint u16 in
    passes
      (goes (λ b. set o b 15)
        ∷ refused (λ b. set o b 16)
        ∷ (λ b. (is_bool (contain o b 15) true, b))
        ∷ (λ b. (is_number (count_front_bits o b 16) 1, b))
        ∷ (λ b. (is_number (count_front_bits o b 15) 0, b))
        ∷ goes (λ b. change o b 15)
        ∷ refused (λ b. change o b 16)
        ∷ (λ b. (is_bool (contain o b 15) false, b))
        ∷ [])
      (new o 1)

-- Lines on a bitmap of `u64`.
abbrev contains : ℕ → Bool → Line
contains num expected b = (is_bool (contain (uint u64) b num) expected, b)

abbrev sets : ℕ → ℕ → Line
sets start len = goes (λ b. set_range (uint u64) b start len)

abbrev clears : ℕ → ℕ → Line
clears start len = goes (λ b. clear_range (uint u64) b start len)

abbrev clears_all : Line
clears_all b = (true, clear_all (uint u64) b)

unfoldable test_bitmap_set_range : Bool
test_bitmap_set_range =
    passes
      (refused (λ b. set_range (uint u64) b 256 1)
        ∷ refused (λ b. set_range (uint u64) b 0 257)
        ∷ sets 0 256
        ∷ clears_all
        ∷ sets 65 10
        ∷ contains 64 false
        ∷ contains 65 true
        ∷ contains 70 true
        ∷ contains 74 true
        ∷ contains 75 false
        ∷ clears_all
        ∷ sets 63 1
        ∷ contains 62 false
        ∷ contains 63 true
        ∷ contains 64 false
        ∷ clears_all
        ∷ sets 63 66
        ∷ contains 62 false
        ∷ contains 63 true
        ∷ contains 67 true
        ∷ contains 128 true
        ∷ contains 129 false
        ∷ clears_all
        ∷ [])
      (new (uint u64) 4)

unfoldable test_bitmap_clear_range : Bool
test_bitmap_clear_range =
    passes
      (sets 0 256
        ∷ refused (λ b. clear_range (uint u64) b 256 1)
        ∷ clears 0 0
        ∷ refused (λ b. clear_range (uint u64) b 0 257)
        ∷ sets 0 256
        ∷ clears 65 10
        ∷ contains 64 true
        ∷ contains 65 false
        ∷ contains 70 false
        ∷ contains 74 false
        ∷ contains 75 true
        ∷ sets 0 256
        ∷ clears 63 1
        ∷ contains 62 true
        ∷ contains 63 false
        ∷ contains 64 true
        ∷ sets 0 256
        ∷ clears 63 66
        ∷ contains 62 true
        ∷ contains 63 false
        ∷ contains 67 false
        ∷ contains 128 false
        ∷ contains 129 true
        ∷ clears 0 256
        ∷ [])
      (new (uint u64) 4)

-- `offset = bitmap.find_….unwrap()` and its `assert_eq!`: the number that was expected goes on.
abbrev finds_zero : ℕ → ℕ → Line
finds_zero offset expected b = (is_number (find_next_zero (uint u64) b offset) expected, b)

abbrev finds_bit : ℕ → ℕ → Line
finds_bit offset expected b = (is_number (find_next_bit (uint u64) b offset) expected, b)

unfoldable test_bitmap_find_next_zero : Bool
test_bitmap_find_next_zero =
    passes
      (sets 0 256
        ∷ goes (λ b. clear (uint u64) b 0)
        ∷ goes (λ b. clear (uint u64) b 32)
        ∷ goes (λ b. clear (uint u64) b 64)
        ∷ goes (λ b. clear (uint u64) b 128)
        ∷ finds_zero 0 0
        ∷ finds_zero (0 + 1) 32
        ∷ finds_zero (32 + 1) 64
        ∷ finds_zero (64 + 1) 128
        ∷ finds_zero (128 + 1) 256
        ∷ [])
      (new (uint u64) 4)

unfoldable test_bitmap_find_next_bit : Bool
test_bitmap_find_next_bit =
    passes
      (clears_all
        ∷ goes (λ b. set (uint u64) b 0)
        ∷ goes (λ b. set (uint u64) b 32)
        ∷ goes (λ b. set (uint u64) b 64)
        ∷ goes (λ b. set (uint u64) b 128)
        ∷ finds_bit 0 0
        ∷ finds_bit (0 + 1) 32
        ∷ finds_bit (32 + 1) 64
        ∷ finds_bit (64 + 1) 128
        ∷ finds_bit (128 + 1) 256
        ∷ [])
      (new (uint u64) 4)

basic_holds : test_bitmap_basic ≡ true
unfolding test_bitmap_basic uint new set contain change count_front_bits
basic_holds = refl

set_range_holds : test_bitmap_set_range ≡ true
unfolding test_bitmap_set_range uint new set_range range_loop set_tail contain clear_all
set_range_holds = refl

clear_range_holds : test_bitmap_clear_range ≡ true
unfolding test_bitmap_clear_range uint new set_range range_loop set_tail clear_range clear_tail
    contain
clear_range_holds = refl

find_next_zero_holds : test_bitmap_find_next_zero ≡ true
unfolding test_bitmap_find_next_zero uint new set_range range_loop set_tail clear find_next_zero
    contain
find_next_zero_holds = refl

find_next_bit_holds : test_bitmap_find_next_bit ≡ true
unfolding test_bitmap_find_next_bit uint new clear_all set find_next_bit contain
find_next_bit_holds = refl
