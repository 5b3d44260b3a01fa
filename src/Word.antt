-- ===== src/Word.antt =====
-- The macro `bitops!` of utils/src/bitmap.rs: `BitOps` for `u8`, `u16`, `u32` and `u64`. A word is
-- the number that it holds, below `2 ^ len`.
pub mod Bits
pub mod View
use vm_tools.Common.{ℕ, ◌-◌, ◌*◌, ◌/◌, ◌%◌, ◌^◌, bit_and, bit_or, bit_xor, Bool, not, ◌==◌}
use vm_tools.BitOps.{BitOps}

-- The four types at which the macro is called.
pub data WordType : Type 0 where
  u8 u16 u32 u64 : WordType

-- `size_of::<Self>()`, in bytes.
abbrev pub size_of : WordType → ℕ
size_of u8 = 1
size_of u16 = 2
size_of u32 = 4
size_of u64 = 8

abbrev pub width : WordType → ℕ
width t = size_of t / size_of u8 * 8

abbrev pub max_word : WordType → ℕ
max_word t = 2 ^ width t - 1

-- The impl that the macro writes for `t`. A shift in the bitmap is by less than the width, so the
-- overflow check of `<<` and `>>` never fires; `<<` drops what it pushes past the width, and `!`
-- flips each of the `width t` digits.
unfoldable pub uint : WordType → BitOps ℕ
uint t = record {
  bool = λ x. not (x == 0);
  len = width t;
  zero = 0;
  one = 1;
  full = max_word t;
  value = λ x. x / 1;
  bit_not = λ x. bit_xor x (max_word t);
  bit_and = bit_and;
  bit_or = bit_or;
  bit_xor = bit_xor;
  rhs = λ x k. x * 2 ^ k % 2 ^ width t;
  lhs = λ x k. x / 2 ^ k;
  beq = ◌==◌;
}
