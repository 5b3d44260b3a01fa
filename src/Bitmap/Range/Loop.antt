-- ===== src/Bitmap/Range/Loop.antt =====
-- The loop of `set_range` and `clear_range`: what it has filled when it stops, and how it stops.
use native.Mathlib.Nat.{suc-mul}
use vm_tools.Common.{
  ℕ, zero, suc, ◌+◌, ◌*◌, ◌≤◌, ◌<◌, ◌≡◌, ◌⊎◌, inl, inr, refl, subst, arith, Bool, leb,
  if◌then◌else◌, same, Bool-cases, ok, err,
}
use vm_tools.BitOps.{BitOps, BitView}
use vm_tools.Bitmap.{Result, size, vol, word_at}
use vm_tools.UtilErrors.{out_of_bound}
use vm_tools.Bitmap.Bits.{size-write}
use vm_tools.Bitmap.Range.{RangeLoop, range_loop, round}
use vm_tools.Bitmap.Range.Fills.{Fills, Fills-none, Fills-trans, Fills-write}

module _ {T : Type 0} (o : BitOps T) (v : BitView o) (c : Bool) where
  -- The state stands before place `p` of its word: `bits` places are left in the word, and the mask
  -- picks those.
  pub record IsAt (p : ℕ) (s : RangeLoop T) : Type 0 where
    pub rest : p + s.bits ≡ o.len
    pub some_bits : 0 < s.bits
    pub picks : (j : ℕ) → j < o.len → v.bit s.mask j ≡ same c (leb p j)

  -- The bit that the state stands before.
  abbrev pub place : RangeLoop T → ℕ → ℕ
  place s p = s.index * o.len + p

  -- How the loop came from `s`, at place `p`, to its end.
  pub record Ran (p : ℕ) (s : RangeLoop T) (r : Result (Unit {0}) × RangeLoop T) : Type 0 where
    pub p' : ℕ
    pub at_place : IsAt p' (r.1)
    pub whole_length : place r.1 p' + r.1.length ≡ place s p + s.length
    pub forth : place s p ≤ place r.1 p'
    pub index_forth : s.index ≤ r.1.index
    pub fills : Fills o v c (place s p) (place r.1 p') s.bitmap r.1.bitmap
    pub ends :
        (r.0 ≡ ok tt) × (r.1.length < r.1.bits)
        ⊎ (r.0 ≡ err (out_of_bound r.1.index (vol o s.bitmap)))
          × (r.1.bits ≤ r.1.length)
          × (size s.bitmap ≤ r.1.index)
    pub moves : (r.1.index ≡ s.index) × (p' ≡ p) ⊎ (r.1.index ≤ size s.bitmap) × (p' ≡ 0)

  -- The loop that stops where it is.
  Ran-stop :
      (p : ℕ) (s : RangeLoop T) (e : Result (Unit {0}))
      → IsAt p s
      → (e ≡ ok tt) × (s.length < s.bits)
        ⊎ (e ≡ err (out_of_bound s.index (vol o s.bitmap)))
          × (s.bits ≤ s.length)
          × (size s.bitmap ≤ s.index)
      → Ran p s (e, s)
  Ran-stop p s e at ends = record {
    p' = p;
    at_place = at;
    whole_length = refl;
    forth = omega arith;
    index_forth = omega arith;
    fills = Fills-none o v c (place s p) (place s p) s.bitmap (omega arith);
    ends = ends;
    moves = inl (refl, refl);
  }

  module _ (op : T → T → T) (whole : T)
      (acts : (d m : T) (j : ℕ)
        → j < o.len
        → v.bit (op d m) j ≡ (if same c (v.bit m j) then c else v.bit d j))
      (picks_all : (j : ℕ) → j < o.len → v.bit whole j ≡ c) where
    round-IsAt : (s : RangeLoop T) → IsAt 0 (round o op whole s)
    round-IsAt s = record {
      rest = omega arith;
      some_bits = v.len-pos;
      picks = λ j h. ground (arith, picks_all j h);
    }

    round-Fills :
        (p : ℕ) (s : RangeLoop T)
        → IsAt p s
        → s.index < size s.bitmap
        → Fills o v c (place s p) (place s o.len) s.bitmap (round o op whole s).bitmap
    round-Fills p s at h =
        Fills-write o v c s.bitmap s.index (op (word_at o s.bitmap s.index) s.mask) p o.len h
          (omega (arith, at.rest)) (omega arith)
          λ j hj. ground (arith, acts (word_at o s.bitmap s.index) s.mask j hj, at.picks j hj)

    -- One round, and then the rest of the loop.
    Ran-round :
        (p : ℕ) (s : RangeLoop T) {r : Result (Unit {0}) × RangeLoop T}
        → IsAt p s
        → s.index < size s.bitmap
        → s.bits ≤ s.length
        → Ran 0 (round o op whole s) r
        → Ran p s r
    Ran-round p s {r} at h fits ran = record {
      p' = ran.p';
      at_place = ran.at_place;
      whole_length = omega (arith, ran.whole_length, at.rest, suc-mul s.index o.len, one_more);
      forth = omega (arith, ran.forth, at.rest, one_more);
      index_forth = omega (arith, ran.index_forth);
      fills =
          Fills-trans o v c (place s p) (place s o.len) (place r.1 ran.p') (omega (arith, at.rest))
            (omega (arith, ran.forth, one_more)) (round-Fills p s at h)
            (subst (λ x. Fills o v c x (place r.1 ran.p') (round o op whole s).bitmap r.1.bitmap)
              one_more ran.fills);
      ends = ground (arith, ran.ends, same_size);
      moves = ground (arith, ran.moves, same_size);
    }
      where
        one_more : (s.index + 1) * o.len + 0 ≡ s.index * o.len + o.len
        one_more = omega arith

        same_size : size (round o op whole s).bitmap ≡ size s.bitmap
        same_size = size-write o v s.bitmap s.index (op (word_at o s.bitmap s.index) s.mask)

    -- With more fuel than bits to fill, the loop ends by its test or at the end of the bitmap.
    pub range_loop-Ran :
        (fuel p : ℕ) (s : RangeLoop T)
        → IsAt p s
        → s.length < fuel
        → Ran p s (range_loop o op whole fuel s)
    unfolding range_loop
    range_loop-Ran zero p s at h = absurd (omega arith)
    range_loop-Ran (suc fuel) p s at h = elim (Bool-cases (leb s.bits s.length)) [
      | inr short ↦ rw short (Ran-stop p s (ok tt) at (inl (refl, ground arith)))
      | inl fits ↦ elim (Bool-cases (leb (size s.bitmap) s.index)) [
        | inl out ↦
            rw (fits, out)
              (Ran-stop p s (err (out_of_bound s.index (vol o s.bitmap))) at
                (inr (refl, ground arith, ground arith)))
        | inr within ↦
            rw (fits, within)
              (Ran-round p s at (ground arith) (ground arith) (
                range_loop-Ran fuel 0 (round o op whole s) (round-IsAt s)
                  (ground (arith, at.some_bits))))
      ]
    ]
