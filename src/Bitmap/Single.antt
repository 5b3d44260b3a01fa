-- ===== src/Bitmap/Single.antt =====
-- `set`, `clear`, `change`, `contain`, `new` and `clear_all` against the bits of the bitmap.
use mathlib.Core.Bool.{xor}
use vm_tools.Common.{
  ℕ, zero, suc, ◌+◌, ◌/◌, ◌%◌, ◌≤◌, ◌<◌, ◌≡◌, refl, arith, Bool, true, false, not, ltb, ◌==◌,
  if◌then◌else◌, ok, err, panic, get_elem?-within, get_elem?-beyond, length-replicate,
  get_or-replicate,
}
use vm_tools.BitOps.{BitOps, BitView}
use vm_tools.Bitmap.{
  Bitmap, size, vol, word_at, write, bit_mask, new, set, clear, change, contain, clear_from,
  clear_all,
}
use vm_tools.UtilErrors.{out_of_bound}
use vm_tools.Bitmap.Bits.{
  bit_at, pos-lt, index-lt, index-ge, bit_at-write, bit_at-write_bit, size-write, bit-mask,
  bit_at-past,
}

module _ {T : Type 0} (o : BitOps T) (v : BitView o) where
  -- `b'` has the size of `b` and its bits, but for bit `num`, which is `c`.
  pub record SetsBit (num : ℕ) (c : Bool) (b b' : Bitmap T) : Type 0 where
    pub same_size : size b' ≡ size b
    pub bits : (n : ℕ) → bit_at o v b' n ≡ (if n == num then c else bit_at o v b n)

  -- A write of the word of bit `num` that is right in that word.
  SetsBit-write :
      (b : Bitmap T) (num : ℕ) (w : T) (c : Bool)
      → num < vol o b
      → ((j : ℕ)
          → j < o.len
          → v.bit w j ≡ (if j == num % o.len then c else v.bit (word_at o b (num / o.len)) j))
      → SetsBit num c b (write o b (num / o.len) w)
  SetsBit-write b num w c h word = record {
    same_size = size-write o v b (num / o.len) w;
    bits = bit_at-write_bit o v b num w c (index-lt o v b num h) word;
  }

  set_within :
      (b : Bitmap T) (num : ℕ)
      → num < vol o b
      → set o b num
        ≡ (ok tt, write o b (num / o.len) (o.bit_or (word_at o b (num / o.len)) (bit_mask o num)))
  unfolding set
  set_within b num h = ground (arith, index-lt o v b num h)

  -- Within the volume, `set` succeeds and sets exactly the bit `num`.
  pub set_lem :
      (b : Bitmap T) (num : ℕ)
      → num < vol o b
      → ((set o b num).0 ≡ ok tt) × SetsBit num true b (set o b num).1
  set_lem b num h = rw (set_within b num h) (
    refl,
    SetsBit-write b num _ true h λ j hj.
        ground
          (arith, v.bit-or (word_at o b (num / o.len)) (bit_mask o num) j, bit-mask o v num j hj),
  )

  clear_within :
      (b : Bitmap T) (num : ℕ)
      → num < vol o b
      → clear o b num ≡ (
        ok tt,
        write o b
            (num / o.len)
            (o.bit_and (word_at o b (num / o.len)) (o.bit_not (bit_mask o num))),
      )
  unfolding clear
  clear_within b num h = ground (arith, index-lt o v b num h)

  -- Within the volume, `clear` succeeds and clears exactly the bit `num`.
  pub clear_lem :
      (b : Bitmap T) (num : ℕ)
      → num < vol o b
      → ((clear o b num).0 ≡ ok tt) × SetsBit num false b (clear o b num).1
  clear_lem b num h = rw (clear_within b num h) (
    refl,
    SetsBit-write b num _ false h λ j hj. ground (
      arith,
      v.bit-and (word_at o b (num / o.len)) (o.bit_not (bit_mask o num)) j,
      v.bit-not (bit_mask o num) j hj,
      bit-mask o v num j hj,
    ),
  )

  change_within :
      (b : Bitmap T) (num : ℕ)
      → num < vol o b
      → change o b num
        ≡ (ok tt, write o b (num / o.len) (o.bit_xor (word_at o b (num / o.len)) (bit_mask o num)))
  unfolding change
  change_within b num h = ground (arith, index-lt o v b num h)

  -- Within the volume, `change` succeeds and turns over exactly the bit `num`.
  pub change_lem :
      (b : Bitmap T) (num : ℕ)
      → num < vol o b
      → ((change o b num).0 ≡ ok tt) × SetsBit num (not (bit_at o v b num)) b (change o b num).1
  unfolding bit_at xor
  change_lem b num h = rw (change_within b num h) (
    refl,
    SetsBit-write b num _ _ h λ j hj.
        ground
          (arith, v.bit-xor (word_at o b (num / o.len)) (bit_mask o num) j, bit-mask o v num j hj),
  )

  -- From the volume on, the three fail alike and leave the bitmap as it was.
  pub one_bit_out_of_bound :
      (b : Bitmap T) (num : ℕ)
      → vol o b ≤ num
      → (set o b num ≡ (err (out_of_bound (num / o.len) (vol o b)), b))
        × (clear o b num ≡ (err (out_of_bound (num / o.len) (vol o b)), b))
        × (change o b num ≡ (err (out_of_bound (num / o.len) (vol o b)), b))
  unfolding set clear change
  one_bit_out_of_bound b num h = (
    ground (arith, index-ge o v b num h),
    ground (arith, index-ge o v b num h),
    ground (arith, index-ge o v b num h),
  )

  -- Within the volume, `contain` answers with the bit.
  pub contain_lem :
      (b : Bitmap T) (num : ℕ) → num < vol o b → contain o b num ≡ ok (bit_at o v b num)
  unfolding contain bit_at
  contain_lem b num h = ground (
    arith,
    get_elem?-within b.words (num / o.len) o.zero (index-lt o v b num h),
    v.bool-and-one (word_at o b (num / o.len)) (num % o.len) (pos-lt o v num),
  )

  -- Past the volume `contain` reports an error; at the volume itself it panics.
  pub contain_beyond :
      (b : Bitmap T) (num : ℕ)
      → vol o b ≤ num
      → contain o b num ≡ (if num == vol o b then panic else err (out_of_bound num (vol o b)))
  unfolding contain
  contain_beyond b num h =
      ground (arith, get_elem?-beyond b.words (num / o.len) (index-ge o v b num h))

  -- A new bitmap has the size asked for and no bit.
  pub new_lem : (n : ℕ) → (size (new o n) ≡ n) × ((num : ℕ) → bit_at o v (new o n) num ≡ false)
  unfolding new bit_at
  new_lem n = (
    length-replicate n o.zero,
    λ num. rw (bit_at, get_or-replicate n (num / o.len) o.zero) (v.bit-zero (num % o.len)),
  )

  clear_from_lem :
      (rounds i : ℕ) (b : Bitmap T)
      → i + rounds ≡ size b
      → (size (clear_from o rounds i b) ≡ size b)
        × ((n : ℕ)
            → bit_at o v (clear_from o rounds i b) n
              ≡ (if ltb (n / o.len) i then bit_at o v b n else false))
  unfolding clear_from
  clear_from_lem zero i b e = (refl, λ n. ground (arith, bit_at-past o v b n))
  clear_from_lem (suc rounds) i b e =
      let rest =
        clear_from_lem rounds (i + 1) (write o b i o.zero)
          (omega (arith, size-write o v b i o.zero)) in
      (
        omega (arith, rest.0, size-write o v b i o.zero),
        λ n.
            ground (
              arith,
              rest.1 n,
              bit_at-write o v b i o.zero n (omega arith),
              v.bit-zero (n % o.len),
            ),
      )

  -- `clear_all` keeps the size and leaves no bit.
  pub clear_all_lem :
      (b : Bitmap T)
      → (size (clear_all o b) ≡ size b) × ((n : ℕ) → bit_at o v (clear_all o b) n ≡ false)
  unfolding clear_all
  clear_all_lem b =
      let whole = clear_from_lem (size b) 0 b (omega arith) in
      (whole.0, λ n. ground (arith, whole.1 n))
