-- ===== src/Bitmap/Find/Laws.antt =====
-- `find_next_zero` and `find_next_bit` find the first bit that hits, and where they do not.
use native.Mathlib.Nat.{add-div_right, mul-add-mod_self_right}
use vm_tools.Common.{
  ℕ, suc, ◌+◌, ◌-◌, ◌*◌, ◌/◌, ◌%◌, ◌≤◌, ◌<◌, ◌≡◌, ◌⊎◌, refl, arith, Bool, true, false, not, ok,
  get_elem?-within,
}
use vm_tools.BitOps.{BitOps, BitView}
use vm_tools.Bitmap.{Bitmap, size, vol, word_at}
use vm_tools.Bitmap.Bits.{bit_at, index-lt, index-ge}
use vm_tools.Bitmap.Find.{search_words, find_next_zero, find_next_bit}
use vm_tools.Bitmap.Find.Search.{IsFirst, search_from_lem}

module _ {T : Type 0} (o : BitOps T) (v : BitView o) (b : Bitmap T) (offset : ℕ) where
  -- Where the word of the offset is not full, or the offset begins it, `find_next_zero` comes back
  -- with the first clear bit from the offset on, and with the volume if there is none.
  pub find_next_zero_lem :
      offset ≤ vol o b
      → (offset % o.len ≡ 0) ⊎ (o.beq (word_at o b (offset / o.len)) o.full ≡ false)
      → (r : ℕ) × (find_next_zero o b offset ≡ ok r)
        × IsFirst (λ n. not (bit_at o v b n)) offset (vol o b) r
  unfolding find_next_zero
  find_next_zero_lem =
      search_from_lem o v b (λ x. not x) o.full (λ j h. ground (arith, v.bit-full j)) offset

  -- Where the word of the offset is not zero, or the offset begins it, `find_next_bit` comes back with
  -- the first set bit from the offset on, and with the volume if there is none.
  pub find_next_bit_lem :
      offset ≤ vol o b
      → (offset % o.len ≡ 0) ⊎ (o.beq (word_at o b (offset / o.len)) o.zero ≡ false)
      → (r : ℕ) × (find_next_bit o b offset ≡ ok r) × IsFirst (bit_at o v b) offset (vol o b) r
  unfolding find_next_bit
  find_next_bit_lem = search_from_lem o v b (λ x. x) o.zero (λ j h. v.bit-zero j) offset

  -- From the volume on, both come back with the volume.
  pub find_next_beyond :
      vol o b ≤ offset
      → (find_next_zero o b offset ≡ ok (vol o b)) × (find_next_bit o b offset ≡ ok (vol o b))
  unfolding find_next_zero find_next_bit
  find_next_beyond h =
      let none_left : size b - offset / o.len ≡ 0 = omega (arith, index-ge o v b offset h) in
      (rw none_left (unfold search_words in refl), rw none_left (unfold search_words in refl))

  -- A word passed over keeps the place of the offset in it: the search goes on from that place of the
  -- next word.
  skips :
      (skip : T) (hit : Bool → Bool)
      → offset < vol o b
      → o.beq (word_at o b (offset / o.len)) skip ≡ true
      → search_words o b skip hit (size b - offset / o.len) (offset / o.len) (offset % o.len)
        ≡ search_words o b skip hit
            (size b - (offset + o.len) / o.len)
            ((offset + o.len) / o.len)
            ((offset + o.len) % o.len)
  unfolding search_words
  skips skip hit h full =
      let i = offset / o.len in
      let inside : i < size b = index-lt o v b offset h in
      let next : (offset + o.len) / o.len ≡ i + 1 = add-div_right offset v.len-pos in
      let e : offset + o.len ≡ 1 * o.len + offset = omega arith in
      let place : (offset + o.len) % o.len ≡ offset % o.len =
        rw e (mul-add-mod_self_right 1 o.len offset) in
      let rounds : size b - i ≡ suc (size b - (i + 1)) = omega arith in
      rw (next, place, rounds, get_elem?-within b.words i o.zero inside, full)

  -- Where the word of the offset is full, `find_next_zero` searches on from the same place of the next
  -- word: it does not look at the places of that word before it.
  pub find_next_zero_skips :
      offset < vol o b
      → o.beq (word_at o b (offset / o.len)) o.full ≡ true
      → find_next_zero o b offset ≡ find_next_zero o b (offset + o.len)
  unfolding find_next_zero
  find_next_zero_skips h full = skips o.full (λ x. not x) h full

  -- Where the word of the offset is zero, `find_next_bit` searches on from the same place of the next
  -- word: it does not look at the places of that word before it.
  pub find_next_bit_skips :
      offset < vol o b
      → o.beq (word_at o b (offset / o.len)) o.zero ≡ true
      → find_next_bit o b offset ≡ find_next_bit o b (offset + o.len)
  unfolding find_next_bit
  find_next_bit_skips h empty = skips o.zero (λ x. x) h empty
