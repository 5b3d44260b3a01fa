-- ===== src/Bitmap/Bits.antt =====
-- The bits of a bitmap: bit `n` is bit `n % len` of word `n / len`.
use native.Mathlib.Nat.{
  mod-lt, div-eq_of_lt-le, mul-add-mod_self_right, mod-eq_of_lt, add-mul, div-add-mod',
  div-lt_iff_lt-mul,
}
use native.Mathlib.Decide.{dec_lt, ℕ_discrete}
use vm_tools.Common.{
  ℕ, ◌+◌, ◌-◌, ◌*◌, ◌/◌, ◌%◌, ◌≤◌, ◌<◌, ◌≡◌, refl, sym, ap, ◌∙◌, arith, Bool, false, ◌==◌,
  if◌then◌else◌, get_or-set_self, get_or-set_ne, get_or-beyond, length-set,
}
use vm_tools.BitOps.{BitOps, BitView}
use vm_tools.Bitmap.{Bitmap, size, vol, word_at, write, bit_mask}

module _ {T : Type 0} (o : BitOps T) (v : BitView o) where
  -- What is read past the last word is 0.
  unfoldable pub bit_at : Bitmap T → ℕ → Bool
  bit_at b n = v.bit (word_at o b (n / o.len)) (n % o.len)

  pub pos-lt : (n : ℕ) → n % o.len < o.len
  pos-lt n = mod-lt n v.len-pos

  pub index-lt : (b : Bitmap T) (n : ℕ) → n < vol o b → n / o.len < size b
  index-lt b n h = (div-lt_iff_lt-mul v.len-pos).1 h

  pub index-ge : (b : Bitmap T) (n : ℕ) → vol o b ≤ n → size b ≤ n / o.len
  index-ge b n h = elim (dec_lt (n / o.len) (size b)) [
    | yes p ↦ absurd (omega (arith, (div-lt_iff_lt-mul v.len-pos).0 p))
    | no p ↦ omega arith
  ]

  pub same_position : (n m : ℕ) → n / o.len ≡ m / o.len → n % o.len ≡ m % o.len → n ≡ m
  same_position n m p q = sym (div-add-mod' n o.len) ∙ rw (p, q) refl ∙ div-add-mod' m o.len

  -- A write of one word in range replaces the bits of that word.
  pub bit_at-write :
      (b : Bitmap T) (k : ℕ) (w : T) (n : ℕ)
      → k < size b
      → bit_at (write o b k w) n ≡ (if n / o.len == k then v.bit w (n % o.len) else bit_at b n)
  unfolding bit_at
  bit_at-write b k w n h = elim (ℕ_discrete (n / o.len) k) [
    | yes e ↦ rw e (ground (arith, get_or-set_self b.words k w o.zero h))
    | no ne ↦ ground (arith, get_or-set_ne b.words k (n / o.len) w o.zero)
  ]

  pub bit_at_in_word :
      (b : Bitmap T) (n k : ℕ) → n / o.len ≡ k → bit_at b n ≡ v.bit (word_at o b k) (n % o.len)
  unfolding bit_at
  bit_at_in_word b n k e = rw (e, bit_at) refl

  pub word_of_place : (k j : ℕ) → j < o.len → (k * o.len + j) / o.len ≡ k
  word_of_place k j h = div-eq_of_lt-le o.len (omega arith) (omega (arith, add-mul k 1 o.len))

  pub pos_of_place : (k j : ℕ) → j < o.len → (k * o.len + j) % o.len ≡ j
  pos_of_place k j h = mul-add-mod_self_right k o.len j ∙ mod-eq_of_lt h

  pub bit_at-place :
      (b : Bitmap T) (k j : ℕ) → j < o.len → bit_at b (k * o.len + j) ≡ v.bit (word_at o b k) j
  bit_at-place b k j h =
      bit_at_in_word b (k * o.len + j) k (word_of_place k j h) ∙ rw (pos_of_place k j h) refl

  pub size-write : (b : Bitmap T) (k : ℕ) (w : T) → size (write o b k w) ≡ size b
  size-write b k w = length-set b.words k w

  -- A write that changes one bit of a word changes one bit of the bitmap.
  pub bit_at-write_bit :
      (b : Bitmap T) (num : ℕ) (w : T) (c : Bool)
      → num / o.len < size b
      → ((j : ℕ)
          → j < o.len
          → v.bit w j ≡ (if j == num % o.len then c else v.bit (word_at o b (num / o.len)) j))
      → (n : ℕ) → bit_at (write o b (num / o.len) w) n ≡ (if n == num then c else bit_at b n)
  bit_at-write_bit b num w c h word n = elim (ℕ_discrete (n / o.len) (num / o.len)) [
    | yes e ↦ ground (
      arith,
      bit_at-write b (num / o.len) w n h,
      word (n % o.len) (pos-lt n),
      same_position n num e,
      bit_at_in_word b n (num / o.len) e,
      ap (λ (t : ℕ). t % o.len) {x = n} {y = num},
    )
    | no ne ↦
        ground
          (arith, bit_at-write b (num / o.len) w n h, ap (λ (t : ℕ). t / o.len) {x = n} {y = num})
  ]

  -- The mask of one bit.
  pub bit-mask : (num j : ℕ) → j < o.len → v.bit (bit_mask o num) j ≡ (j == num % o.len)
  bit-mask num j h = ground (arith, v.bit-rhs o.one (num % o.len) j h, v.bit-one (j - num % o.len))

  -- There is no bit past the last word.
  pub bit_at-past : (b : Bitmap T) (n : ℕ) → size b ≤ n / o.len → bit_at b n ≡ false
  unfolding bit_at
  bit_at-past b n h =
      ground (arith, get_or-beyond b.words (n / o.len) o.zero h, v.bit-zero (n % o.len))

  pub bit_at-beyond : (b : Bitmap T) (n : ℕ) → vol o b ≤ n → bit_at b n ≡ false
  bit_at-beyond b n h = bit_at-past b n (index-ge b n h)
