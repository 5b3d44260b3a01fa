-- ===== src/Bitmap/Count/Laws.antt =====
-- `count_front_bits` counts the bits below the offset.
use native.Mathlib.Nat.{
  div-mul-le_self, le_of_mul-le-mul_right, mul-le-mul_right, suc-mul, zero-add, suc-add, add_assoc,
  zero-mul, sub-zero,
}
use native.Mathlib.Decide.{ℕ_discrete}
use vm_tools.Common.{
  ℕ, zero, suc, ◌+◌, ◌-◌, ◌*◌, ◌/◌, ◌≤◌, ◌<◌, ◌≡◌, refl, sym, ap, arith, Bool, false, Bool-cases,
  inl, inr, not, ltb, ◌==◌, if◌then◌else◌, ok, err, get_elem?-within,
}
use vm_tools.BitOps.{BitOps, BitView}
use vm_tools.Bitmap.{Bitmap, size, vol, word_at}
use vm_tools.UtilErrors.{out_of_bound}
use vm_tools.Bitmap.Bits.{bit_at, bit_at-place}
use vm_tools.Bitmap.Single.{contain_lem}
use vm_tools.Bitmap.Count.{count_word, count_contained, count_words, count_front_bits}

-- How many of the `n` numbers from `lo` on `p` holds of.
abbrev pub count_in : (ℕ → Bool) → ℕ → ℕ → ℕ
count_in p lo zero = 0
count_in p lo (suc n) = (if p lo then 1 else 0) + count_in p (lo + 1) n

count_in-add :
    (p : ℕ → Bool) (lo m n : ℕ) → count_in p lo (m + n) ≡ count_in p lo m + count_in p (lo + m) n
count_in-add p lo zero n =
    let e : lo + 0 ≡ lo = omega arith in
    let e' : 0 + n ≡ n = omega arith in rw (e, e') (omega arith)
count_in-add p lo (suc m) n =
    let e : lo + suc m ≡ lo + 1 + m = omega arith in
    rw (suc-add m n, e) (omega (arith, count_in-add p (lo + 1) m n))

count_in-none : (p : ℕ → Bool) (lo n : ℕ) → ((j : ℕ) → p j ≡ false) → count_in p lo n ≡ 0
count_in-none p lo zero h = refl
count_in-none p lo (suc n) h = rw (h lo) (omega (arith, count_in-none p (lo + 1) n h))

count_in-ext :
    (p q : ℕ → Bool) (lo lo' n : ℕ)
    → ((j : ℕ) → j < n → p (lo + j) ≡ q (lo' + j))
    → count_in p lo n ≡ count_in q lo' n
count_in-ext p q lo lo' zero h = refl
count_in-ext p q lo lo' (suc n) h =
    let first : p lo ≡ q lo' =
      let x : lo + 0 ≡ lo = omega arith in
      let y : lo' + 0 ≡ lo' = omega arith in rw (x, y) at (h 0 (omega arith)) in
    let rest : count_in p (lo + 1) n ≡ count_in q (lo' + 1) n =
      count_in-ext p q (lo + 1) (lo' + 1) n λ j k.
        let e : lo + 1 + j ≡ lo + suc j = omega arith in
        let e' : lo' + 1 + j ≡ lo' + suc j = omega arith in rw (e, e') (h (suc j) (omega arith)) in
    rw (first, rest) refl

module _ {T : Type 0} (o : BitOps T) (v : BitView o) where
  -- The bits of one word, from place `j` on.
  count_word_lem :
      (w : T) (rounds j num : ℕ)
      → j + rounds ≤ o.len
      → count_word o w rounds j num ≡ num + count_in (v.bit w) j rounds
  unfolding count_word
  count_word_lem w zero j num h = omega arith
  count_word_lem w (suc rounds) j num h = rw (v.bool-and-one w j (omega arith)) (
      ground
        (arith, count_word_lem w rounds (j + 1) num, count_word_lem w rounds (j + 1) (num + 1)))

  -- The bits of the bitmap from `j` on, through `contain`.
  count_contained_lem :
      (b : Bitmap T) (rounds j num : ℕ)
      → j + rounds ≤ vol o b
      → count_contained o b rounds j num ≡ ok (num + count_in (bit_at o v b) j rounds)
  unfolding count_contained
  count_contained_lem b zero j num h = ground arith
  count_contained_lem b (suc rounds) j num h = rw (contain_lem o v b j (omega arith)) (
      ground (
        arith,
        count_contained_lem b rounds (j + 1) num,
        count_contained_lem b rounds (j + 1) (num + 1),
      ))

  -- The count of a word, taken in the bitmap.
  count_whole :
      (b : Bitmap T) (i : ℕ)
      → count_in (v.bit (word_at o b i)) 0 o.len ≡ count_in (bit_at o v b) (i * o.len) o.len
  count_whole b i =
      count_in-ext _ _ 0 (i * o.len) o.len λ j h. rw zero-add (sym (bit_at-place o v b i j h))

  -- A word that equals zero is passed over, and has no bit to count.
  count_any_word :
      (b : Bitmap T) (i num : ℕ)
      → (if not (o.beq (word_at o b i) o.zero)
          then count_word o (word_at o b i) o.len 0 num
          else num)
        ≡ num + count_in (bit_at o v b) (i * o.len) o.len
  count_any_word b i num = elim (Bool-cases (o.beq (word_at o b i) o.zero)) [
    | inl none_set ↦ rw none_set (
        omega (
          arith,
          count_whole b i,
          count_in-none (v.bit (word_at o b i)) 0 o.len
              (λ j. rw (v.eq_of_beq (word_at o b i) o.zero none_set) (v.bit-zero j)),
        ))
    | inr some_set ↦
        rw some_set
          (omega (arith, count_word_lem (word_at o b i) o.len 0 num (omega arith), count_whole b i))
  ]

  -- A word below that of the offset: it lies within the bitmap, and the offset is past it.
  below :
      (b : Bitmap T) (offset i : ℕ)
      → offset ≤ vol o b
      → i < offset / o.len
      → (i < size b) × (i * o.len + o.len ≤ offset)
  below b offset i h lt =
      let past : i * o.len + o.len ≤ offset =
        omega (arith, div-mul-le_self offset o.len, mul-le-mul_right o.len lt, suc-mul i o.len) in
      (le_of_mul-le-mul_right (omega (arith, past, suc-mul i o.len)) v.len-pos, past)

  count_words_lem :
      (b : Bitmap T) (offset rounds i num : ℕ)
      → offset ≤ vol o b
      → i + rounds ≡ offset / o.len + 1
      → 0 < rounds
      → count_words o b offset rounds i num
        ≡ ok (num + count_in (bit_at o v b) (i * o.len) (offset - i * o.len))
  unfolding count_words
  count_words_lem b offset zero i num h e some = absurd (omega arith)
  count_words_lem b offset (suc rounds) i num h e some = elim (ℕ_discrete i (offset / o.len)) [
    | yes last ↦ ground (
      arith,
      count_contained_lem b (offset - i * o.len) (i * o.len) num
          (omega (arith, div-mul-le_self offset o.len, ap (λ (t : ℕ). t * o.len) last)),
    )
    | no more ↦
        let (inside, past) = below b offset i h (omega arith) in
        let first = num + count_in (bit_at o v b) (i * o.len) o.len in
        let next : (i + 1) * o.len ≡ i * o.len + o.len = omega arith in
        let split : offset - i * o.len ≡ o.len + (offset - (i + 1) * o.len) = omega arith in
        let not_last : (i == offset / o.len) ≡ false = ground arith in
        rw
          (
            not_last,
            get_elem?-within b.words i o.zero inside,
            count_any_word b i num,
            count_words_lem b offset rounds (i + 1) first h (omega arith) (omega arith),
            split,
            count_in-add (bit_at o v b) (i * o.len) o.len (offset - (i + 1) * o.len),
            next,
          )
          (rw add_assoc)
  ]

  -- Up to the volume, `count_front_bits` counts the bits below the offset; past it, it fails.
  pub count_front_bits_lem :
      (b : Bitmap T) (offset : ℕ)
      → count_front_bits o b offset ≡ (
          if ltb (vol o b) offset
          then err (out_of_bound offset (size b))
          else ok (count_in (bit_at o v b) 0 offset))
  unfolding count_front_bits
  count_front_bits_lem b offset = elim (Bool-cases (ltb (vol o b) offset)) [
    | inl past ↦ rw past
    | inr inside ↦
        rw
          (
            inside,
            count_words_lem b offset (offset / o.len + 1) 0 0 (ground arith) (omega arith)
                (omega arith),
          )
          (rw (zero-mul, sub-zero, zero-add))
  ]
