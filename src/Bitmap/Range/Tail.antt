-- ===== src/Bitmap/Range/Tail.antt =====
-- The write behind the loop of `set_range` and `clear_range`, and the two put together.
use Prim.Native.Nat.{max}
use native.Mathlib.Nat.{suc-mul}
use native.Mathlib.Decide.{dec_lt, ℕ_discrete}
use vm_tools.Common.{
  ℕ, suc, ◌+◌, ◌/◌, ◌≤◌, ◌<◌, ◌≡◌, ◌⊎◌, inl, inr, refl, subst, ◌∙◌, arith, Bool, ok, err, panic,
  out_of_fuel,
}
use vm_tools.BitOps.{BitOps, BitView}
use vm_tools.Bitmap.{Bitmap, Result, size, vol}
use vm_tools.UtilErrors.{out_of_bound}
use vm_tools.Bitmap.Range.{RangeLoop, behind}
use vm_tools.Bitmap.Range.Fills.{Fills, Fills-trans, Fills-empty, times_le}
use vm_tools.Bitmap.Range.Loop.{IsAt, Ran, place}

module _ {T : Type 0} (o : BitOps T) (v : BitView o) (c : Bool) where
  -- What the code behind the loop does, in a state before place `p` of its word with fewer bits to
  -- fill than the word has left, where the range ends at `stop`.
  pub record IsTail (stop : ℕ) (tail : RangeLoop T → Result (Unit {0}) × Bitmap T) : Type 0 where
    pub nothing_left : (s : RangeLoop T) → s.length ≡ 0 → tail s ≡ (ok tt, s.bitmap)
    pub no_word :
        (s : RangeLoop T)
        → 0 < s.length
        → size s.bitmap ≤ s.index
        → tail s ≡ (err (out_of_bound s.index (vol o s.bitmap)), s.bitmap)
    pub last_word :
        (s : RangeLoop T) (p : ℕ)
        → IsAt o v c p s
        → 0 < s.length
        → s.length < s.bits
        → s.index < size s.bitmap
        → place o v c s p + s.length ≡ stop
        → ((tail s).0 ≡ ok tt)
          × Fills o v c (place o v c s p) (place o v c s p + s.length) s.bitmap (tail s).1

  -- How `set_range` and `clear_range` end: a range within the volume is filled, and one that passes
  -- it is filled up to the volume before the error is reported.
  pub record FillsRange (start len : ℕ) (b : Bitmap T) (r : Result (Unit {0}) × Bitmap T)
      : Type 0 where
    pub within : start + len ≤ vol o b → (r.0 ≡ ok tt) × Fills o v c start (start + len) b r.1
    pub past :
        vol o b < start + len
        → (r.0 ≡ err (out_of_bound (max (start / o.len) (size b)) (vol o b)))
          × Fills o v c start (vol o b) b r.1

module _ {T : Type 0} (o : BitOps T) (v : BitView o) (c : Bool) (start len : ℕ) (s : RangeLoop T)
    (p : ℕ) (starts : place o v c s p ≡ start) (word : s.index ≡ start / o.len)
    (whole : s.length ≡ len) (some_bit : 0 < len)
    (tail : RangeLoop T → Result (Unit {0}) × Bitmap T)
    (is_tail : IsTail o v c (start + len) tail) where
  -- Where the loop has gone on, it stands within the volume.
  within_volume :
      {r : Result (Unit {0}) × RangeLoop T} (ran : Ran o v c p s r)
      → (place o v c r.1 ran.p' ≡ start) × (r.1.index ≡ start / o.len)
        ⊎ (place o v c r.1 ran.p' ≤ vol o s.bitmap) × (r.1.index ≤ size s.bitmap) × (ran.p' ≡ 0)
  within_volume {r} ran = elim ran.moves [
    | inl (i, q) ↦ inl (rw (i, q) starts, i ∙ word)
    | inr (i, q) ↦ inr (omega (arith, times_le r.1.index (size s.bitmap) o.len i, q), i, q)
  ]

  -- The fill so far, from the range's own start.
  so_far :
      {r : Result (Unit {0}) × RangeLoop T} (ran : Ran o v c p s r) (hi : ℕ)
      → place o v c r.1 ran.p' ≡ hi
      → Fills o v c start hi s.bitmap r.1.bitmap
  so_far {r} ran hi e =
      subst (λ x. Fills o v c start x s.bitmap r.1.bitmap) e
        (subst (λ x. Fills o v c x (place o v c r.1 ran.p') s.bitmap r.1.bitmap) starts ran.fills)

  -- Nothing is left after the loop.
  end_exact :
      (s' : RangeLoop T) (ran : Ran o v c p s (ok tt, s'))
      → s'.length ≡ 0
      → FillsRange o v c start len s.bitmap (tail s')
  end_exact s' ran e = rw (is_tail.nothing_left s' e) (record {
    within = λ h. (refl, so_far ran (start + len) (omega (arith, ran.whole_length, starts, whole)));
    past =
        λ h. absurd (omega (arith, ran.whole_length, starts, whole, within_volume ran, some_bit));
  })

  -- The rest stands in a word of the bitmap.
  end_in_word :
      (s' : RangeLoop T) (ran : Ran o v c p s (ok tt, s'))
      → 0 < s'.length
      → s'.length < s'.bits
      → s'.index < size s.bitmap
      → FillsRange o v c start len s.bitmap (tail s')
  end_in_word s' ran some short h =
      let last =
        is_tail.last_word s' ran.p' ran.at_place some short (omega (arith, ran.fills.same_size, h))
          (omega (arith, ran.whole_length, starts, whole)) in
      record {
        within = λ _. (
          last.0,
          Fills-trans o v c start (place o v c s' ran.p') (start + len)
              (omega (arith, ran.forth, starts)) (omega (arith, ran.whole_length, starts, whole))
              (so_far ran (place o v c s' ran.p') refl)
              (subst (λ x. Fills o v c (place o v c s' ran.p') x s'.bitmap (tail s').1)
                (ran.whole_length ∙ rw (starts, whole) refl) last.1),
        );
        past = λ q. absurd (
            omega (
              arith,
              ran.whole_length,
              starts,
              whole,
              ran.at_place.rest,
              times_le (suc s'.index) (size s.bitmap) o.len h,
              suc-mul s'.index o.len,
            ));
      }

  -- The loop has come to the end of the bitmap, and the range goes on.
  stuck :
      {r : Result (Unit {0}) × RangeLoop T} (ran : Ran o v c p s r)
      → size s.bitmap ≤ r.1.index
      → vol o s.bitmap < start + len
      → (r.1.index ≡ max (start / o.len) (size s.bitmap))
        × Fills o v c start (vol o s.bitmap) s.bitmap r.1.bitmap
  stuck {r} ran h q = elim (within_volume ran) [
    | inl (e, i) ↦ (
      omega (arith, i),
      Fills-empty o v c start start (vol o s.bitmap) (omega arith)
          (omega (arith, times_le (size s.bitmap) r.1.index o.len h)) (so_far ran start e),
    )
    | inr (e, i, z) ↦ (
      omega (arith, ran.index_forth, word),
      so_far ran (vol o s.bitmap) (omega (arith, e, z, times_le (size s.bitmap) r.1.index o.len h)),
    )
  ]

  -- The rest stands past the last word.
  end_past :
      (s' : RangeLoop T) (ran : Ran o v c p s (ok tt, s'))
      → 0 < s'.length
      → size s.bitmap ≤ s'.index
      → FillsRange o v c start len s.bitmap (tail s')
  end_past s' ran some h =
      rw (is_tail.no_word s' some (omega (arith, ran.fills.same_size, h))) (record {
        within = λ q. absurd (
            omega
              (arith, ran.whole_length, starts, whole, times_le (size s.bitmap) s'.index o.len h));
        past = λ q. let (e, f) = stuck ran h q in (rw (ran.fills.same_size, e) refl, f);
      })

  -- The loop and what stands behind it.
  pub behind-FillsRange :
      (r : Result (Unit {0}) × RangeLoop T)
      → Ran o v c p s r
      → FillsRange o v c start len s.bitmap (behind o r tail)
  behind-FillsRange (ok _, s') ran = elim ran.ends [
    | inr e ↦ absurd (cc e.0)
    | inl e ↦ elim (ℕ_discrete s'.length 0) [
      | yes none_left ↦ end_exact s' ran none_left
      | no left ↦ elim (dec_lt s'.index (size s.bitmap)) [
        | yes h ↦ end_in_word s' ran (omega arith) e.1 h
        | no h ↦ end_past s' ran (omega arith) (omega arith)
      ]
    ]
  ]
  behind-FillsRange (err e, s') ran = elim ran.ends [
    | inl h ↦ absurd (cc h.0)
    | inr h ↦ record {
      within = λ q. absurd (
          omega (
            arith,
            ran.whole_length,
            starts,
            whole,
            ran.at_place.some_bits,
            h.1,
            times_le (size s.bitmap) s'.index o.len h.2,
          ));
      past = λ q. let (i, f) = stuck ran h.2 q in (h.0 ∙ rw i refl, f);
    }
  ]
  behind-FillsRange (panic, s') ran = absurd (elim ran.ends [ inl h ↦ cc h.0 | inr h ↦ cc h.0 ])
  behind-FillsRange (out_of_fuel, s') ran =
      absurd (elim ran.ends [ inl h ↦ cc h.0 | inr h ↦ cc h.0 ])
