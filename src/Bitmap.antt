-- ===== src/Bitmap.antt =====
-- `Bitmap` of utils/src/bitmap.rs: the struct, and the methods that read or write one word. A method
-- that takes `&mut self` returns its result with the bitmap that it leaves. `usize` is a plain
-- number: no size, index or position here passes the number of bits that the memory holds.
pub mod Bits
pub mod Single
pub mod Range
pub mod Count
pub mod Find
pub mod BitSet
pub mod Refinement
mod Examples
mod UnitTests
use vm_tools.Common.{
  ℕ, zero, suc, ◌+◌, ◌*◌, ◌/◌, ◌%◌, Bool, List, [], ◌++◌, length, get_elem?, get_or,
  set as set_elem, replicate, ltb, leb, if◌then◌else◌, Outcome, ok, err, ◌>>=◌, index_or_panic,
}
use vm_tools.BitOps.{BitOps}
use vm_tools.UtilErrors.{UtilError, out_of_bound}

-- The field `data` of the source is `words` here.
pub record Bitmap (T : Type 0) : Type 0 where
  pub words : List T

abbrev pub Result : Type 0 → Type 0
Result A = Outcome UtilError A

module _ {T : Type 0} where
  abbrev pub size : Bitmap T → ℕ
  size b = length b.words

  -- `buf.append(&mut self.data)` moves the words: the bitmap is left empty.
  unfoldable pub get_data : Bitmap T → List T → Bitmap T × List T
  get_data b buf = (record { words = [] }, [] ++ b.words)

module _ {T : Type 0} (o : BitOps T) where
  unfoldable pub new : ℕ → Bitmap T
  new n = record { words = replicate n o.zero }

  abbrev pub vol : Bitmap T → ℕ
  vol b = size b * o.len

  abbrev pub bit_index : ℕ → ℕ
  bit_index num = num / o.len

  abbrev pub bit_pos : ℕ → ℕ
  bit_pos num = num % o.len

  -- `T::one().rhs(self.bit_pos(num))`.
  abbrev pub bit_mask : ℕ → T
  bit_mask num = o.rhs o.one (bit_pos num)

  -- `self.data[index]`, read and written where `index < self.size()` holds.
  abbrev pub word_at : Bitmap T → ℕ → T
  word_at b index = get_or b.words index o.zero

  abbrev pub write : Bitmap T → ℕ → T → Bitmap T
  write b index w = record { words = set_elem b.words index w }

  unfoldable pub set : Bitmap T → ℕ → Result (Unit {0}) × Bitmap T
  set b num =
      let index = bit_index num in
      if leb (size b) index
      then (err (out_of_bound index (vol b)), b)
      else (ok tt, write b index (o.bit_or (word_at b index) (bit_mask num)))

  unfoldable pub clear : Bitmap T → ℕ → Result (Unit {0}) × Bitmap T
  clear b num =
      let index = bit_index num in
      if leb (size b) index
      then (err (out_of_bound index (vol b)), b)
      else (ok tt, write b index (o.bit_and (word_at b index) (o.bit_not (bit_mask num))))

  unfoldable pub change : Bitmap T → ℕ → Result (Unit {0}) × Bitmap T
  change b num =
      let index = bit_index num in
      if leb (size b) index
      then (err (out_of_bound index (vol b)), b)
      else (ok tt, write b index (o.bit_xor (word_at b index) (bit_mask num)))

  -- The guard lets `num = vol` through, where the indexing panics.
  unfoldable pub contain : Bitmap T → ℕ → Result Bool
  contain b num = if ltb (vol b) num then err (out_of_bound num (size b * o.len)) else do
    w ← index_or_panic (get_elem? b.words (bit_index num))
    ok (o.bool (o.bit_and w (bit_mask num)))

  -- The loop of `clear_all` from index `i`, with `rounds` rounds to go.
  unfoldable pub clear_from : ℕ → ℕ → Bitmap T → Bitmap T
  clear_from zero i b = b
  clear_from (suc rounds) i b = clear_from rounds (i + 1) (write b i o.zero)

  unfoldable pub clear_all : Bitmap T → Bitmap T
  unfolding clear_from
  clear_all b = clear_from (size b) 0 b
