-- ===== src/Word/View.antt =====
-- The words of the macro `bitops!` keep the contract of `BitOps`: they are rows of bits.
use native.Mathlib.Nat.{pow-le-pow_right, one-le-pow, mod-eq_of_lt, one-mul, pow-suc}
use mathlib.Core.Bool.{xor}
use vm_tools.Common.{
  ℕ, ◌-◌, ◌*◌, ◌%◌, ◌^◌, ◌<◌, bit_and, bit_xor, ◌≡◌, ◌∙◌, arith, true, not, ◌&&◌, leb, ◌==◌,
}
use vm_tools.BitOps.{BitView}
use vm_tools.Word.{WordType, u8, u16, u32, u64, uint, width, max_word}
use vm_tools.Word.Bits.{
  bit, bit-bit_or, bit-bit_and, bit-bit_xor, bit_of_zero, bit_of_one, bit_of_ones, bit-shl, bit-shr,
  bit-mod, bit_and-pow,
}

pub width-pos : (t : WordType) → 0 < width t
width-pos u8 = omega arith
width-pos u16 = omega arith
width-pos u32 = omega arith
width-pos u64 = omega arith

pub flip : (t : WordType) (x j : ℕ) → j < width t → bit (bit_xor x (max_word t)) j ≡ not (bit x j)
unfolding xor
flip t x j h = rw (bit-bit_xor j x (max_word t), bit_of_ones (width t) j) (ground arith)

pub shift_left :
    (t : WordType) (x k j : ℕ)
    → j < width t
    → bit (x * 2 ^ k % 2 ^ width t) j ≡ (leb k j && bit x (j - k))
shift_left t x k j h = bit-mod (width t) (x * 2 ^ k) j h ∙ bit-shl k x j

pub test_bit :
    (t : WordType) (x k : ℕ)
    → k < width t
    → not (bit_and x (1 * 2 ^ k % 2 ^ width t) == 0) ≡ bit x k
test_bit t x k h =
    let fits : 2 ^ k < 2 ^ width t =
      omega (arith, pow-suc 2 k, one-le-pow k 2, pow-le-pow_right {n = 2} (omega arith) h) in
    let e : 1 * 2 ^ k % 2 ^ width t ≡ 2 ^ k = rw one-mul (mod-eq_of_lt fits) in
    rw e (ground (arith, bit_and-pow k x, one-le-pow k 2))

pub eq_of_== : (x y : ℕ) → (x == y) ≡ true → x ≡ y
eq_of_== x y h = ground arith

unfoldable pub uint-BitView : (t : WordType) → BitView (uint t)
unfolding uint
uint-BitView t = record {
  bit = bit;
  len-pos = width-pos t;
  bit-zero = bit_of_zero;
  bit-one = bit_of_one;
  bit-full = bit_of_ones (width t);
  bit-not = flip t;
  bit-and = λ x y j. bit-bit_and j x y;
  bit-or = λ x y j. bit-bit_or j x y;
  bit-xor = λ x y j. bit-bit_xor j x y;
  bit-rhs = shift_left t;
  bit-lhs = λ x k j. bit-shr k x j;
  bool-and-one = test_bit t;
  eq_of_beq = eq_of_==;
}
