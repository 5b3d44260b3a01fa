-- ===== src/Bitmap/Count.antt =====
-- `count_front_bits` of utils/src/bitmap.rs: a loop over the words, with two loops over bits inside.
-- A loop over a range of indices recurs on the rounds that are left.
pub mod Laws
use vm_tools.Common.{
  ℕ, zero, suc, ◌+◌, ◌-◌, ◌*◌, Bool, not, get_elem?, ltb, ◌==◌, if◌then◌else◌, Outcome, ok, err,
  ◌>>=◌, index_or_panic,
}
use vm_tools.BitOps.{BitOps}
use vm_tools.Bitmap.{Bitmap, Result, size, vol, bit_index, contain}
use vm_tools.UtilErrors.{out_of_bound}

module _ {T : Type 0} (o : BitOps T) where
  -- `for j in 0..T::len()`, over the bits of the word `w`.
  unfoldable pub count_word : T → ℕ → ℕ → ℕ → ℕ
  count_word w zero j num = num
  count_word w (suc rounds) j num =
      count_word w rounds (j + 1) (if o.bool (o.bit_and w (o.rhs o.one j)) then num + 1 else num)

  -- `for j in i * T::len()..offset`.
  unfoldable pub count_contained : Bitmap T → ℕ → ℕ → ℕ → Result ℕ
  count_contained b zero j num = ok num
  count_contained b (suc rounds) j num = do
    ret ← contain o b j
    count_contained b rounds (j + 1) (if ret then num + 1 else num)

  -- `for i in 0..self.bit_index(offset) + 1`, at index `i`; the `break` ends it.
  unfoldable pub count_words : Bitmap T → ℕ → ℕ → ℕ → ℕ → Result ℕ
  unfolding count_word count_contained
  count_words b offset zero i num = ok num
  count_words b offset (suc rounds) i num =
      let last = count_contained b (offset - i * o.len) (i * o.len) num in
      let next : Result ℕ = do
        w ← index_or_panic (get_elem? b.words i)
        count_words b offset rounds (i + 1)
            (if not (o.beq w o.zero) then count_word w o.len 0 num else num)
      in if i == bit_index o offset then last else next

  unfoldable pub count_front_bits : Bitmap T → ℕ → Result ℕ
  unfolding count_words
  count_front_bits b offset =
      if ltb (vol o b) offset
      then err (out_of_bound offset (size b))
      else count_words b offset (bit_index o offset + 1) 0 0
