-- ===== src/Bitmap/Range.antt =====
-- `set_range` and `clear_range` of utils/src/bitmap.rs. Their bodies are alike: a loop that fills
-- whole words up to the last, then a write of what is left in one word. The loop is written once, over
-- the operation on a word and the mask of a whole word; it takes fuel, and one more than the length
-- is enough, since each round takes a bit at least.
pub mod Fills
mod Loop
mod Tail
pub mod Laws
use vm_tools.Common.{
  ℕ, zero, suc, ◌+◌, ◌-◌, ltb, leb, ◌==◌, if◌then◌else◌, Outcome, ok, err, panic, out_of_fuel,
}
use vm_tools.BitOps.{BitOps}
use vm_tools.Bitmap.{Bitmap, Result, size, vol, bit_index, bit_pos, word_at, write}
use vm_tools.UtilErrors.{UtilError, out_of_bound}

-- The variables of the loop: `bits` is `bits_to_set` (or `bits_to_clear`), and `mask` `mask_to_set`.
pub record RangeLoop (T : Type 0) : Type 0 where
  pub bitmap : Bitmap T
  pub index : ℕ
  pub bits : ℕ
  pub mask : T
  pub length : ℕ

module _ {T : Type 0} (o : BitOps T) where
  module _ (op : T → T → T) (whole : T) where
    -- The body of the loop behind its check.
    abbrev pub round : RangeLoop T → RangeLoop T
    round s = record {
      bitmap = write o s.bitmap s.index (op (word_at o s.bitmap s.index) s.mask);
      index = s.index + 1;
      bits = o.len;
      mask = whole;
      length = s.length - s.bits;
    }

    unfoldable pub range_loop : ℕ → RangeLoop T → Result (Unit {0}) × RangeLoop T
    range_loop zero s = (out_of_fuel, s)
    range_loop (suc fuel) s =
        let next = range_loop fuel (round s) in
        if leb s.bits s.length
        then (if leb (size s.bitmap) s.index
            then (err (out_of_bound s.index (vol o s.bitmap)), s)
            else next)
        else (ok tt, s)

  -- What stands behind the loop runs only if the loop ended by its test.
  abbrev pub behind :
      Result (Unit {0}) × RangeLoop T
      → (RangeLoop T → Result (Unit {0}) × Bitmap T)
      → Result (Unit {0}) × Bitmap T
  behind (ok _, s) tail = tail s
  behind (err e, s) tail = (err e, s.bitmap)
  behind (panic, s) tail = (panic, s.bitmap)
  behind (out_of_fuel, s) tail = (out_of_fuel, s.bitmap)

  -- `if length > 0 { … }`, then `Ok(())`.
  unfoldable pub set_tail : ℕ → RangeLoop T → Result (Unit {0}) × Bitmap T
  set_tail stop s =
      let bits_to_set = o.len - bit_pos o stop in
      let mask_to_set_end = o.lhs o.full (bit_pos o bits_to_set) in
      let mask_to_set = o.bit_and s.mask mask_to_set_end in
      if ltb 0 s.length
      then (if leb (size s.bitmap) s.index
          then (err (out_of_bound s.index (vol o s.bitmap)), s.bitmap)
          else (
            ok tt,
            write o s.bitmap s.index (o.bit_or (word_at o s.bitmap s.index) mask_to_set),
          ))
      else (ok tt, s.bitmap)

  unfoldable pub set_range : Bitmap T → ℕ → ℕ → Result (Unit {0}) × Bitmap T
  set_range b start len =
      let first : RangeLoop T = record {
        bitmap = b;
        index = bit_index o start;
        bits = o.len - bit_pos o start;
        mask = o.rhs o.full (bit_pos o start);
        length = len;
      } in
      if len == 0
      then (ok tt, b)
      else behind (range_loop o.bit_or o.full (suc len) first) (set_tail (start + len))

  unfoldable pub clear_tail : ℕ → RangeLoop T → Result (Unit {0}) × Bitmap T
  clear_tail stop s =
      let bits_to_clear = o.len - bit_pos o stop in
      let mask_to_clear_end = o.bit_not (o.lhs o.full (bit_pos o bits_to_clear)) in
      let mask_to_clear = o.bit_or s.mask mask_to_clear_end in
      if ltb 0 s.length
      then (if leb (size s.bitmap) s.index
          then (err (out_of_bound s.index (vol o s.bitmap)), s.bitmap)
          else (
            ok tt,
            write o s.bitmap s.index (o.bit_and (word_at o s.bitmap s.index) mask_to_clear),
          ))
      else (ok tt, s.bitmap)

  unfoldable pub clear_range : Bitmap T → ℕ → ℕ → Result (Unit {0}) × Bitmap T
  clear_range b start len =
      let first : RangeLoop T = record {
        bitmap = b;
        index = bit_index o start;
        bits = o.len - bit_pos o start;
        mask = o.bit_not (o.rhs o.full (bit_pos o start));
        length = len;
      } in
      if len == 0
      then (ok tt, b)
      else behind (range_loop o.bit_and o.zero (suc len) first) (clear_tail (start + len))
