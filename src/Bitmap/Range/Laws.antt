-- ===== src/Bitmap/Range/Laws.antt =====
-- `set_range` and `clear_range` fill the range that they are asked for.
use Prim.Native.Nat.{max}
use native.Mathlib.Nat.{div-add-mod', mod-eq_of_lt, mul-add-mod_self_right}
use vm_tools.Common.{
  ℕ, zero, suc, ◌+◌, ◌-◌, ◌*◌, ◌/◌, ◌%◌, ◌≤◌, ◌<◌, ◌≡◌, refl, subst, ◌∙◌, arith, true, false, ltb,
  ◌==◌, ok, err,
}
use vm_tools.BitOps.{BitOps, BitView}
use vm_tools.Bitmap.{Bitmap, size, vol, bit_pos, word_at, write}
use vm_tools.UtilErrors.{out_of_bound}
use vm_tools.Bitmap.Bits.{pos-lt}
use vm_tools.Bitmap.Range.{
  RangeLoop, behind, range_loop, set_tail, set_range, clear_tail, clear_range,
}
use vm_tools.Bitmap.Range.Fills.{Fills, Fills-none, Fills-write}
use vm_tools.Bitmap.Range.Loop.{IsAt, place, range_loop-Ran}
use vm_tools.Bitmap.Range.Tail.{IsTail, FillsRange, behind-FillsRange}

pos_test : (n : ℕ) → 0 < n → (n == 0) ≡ false
pos_test n h = ground arith

module _ {T : Type 0} (o : BitOps T) (v : BitView o) where
  -- The mask of the places below that of `stop` in its word, where `stop` does not begin a word.
  end_mask :
      (stop k e j : ℕ)
      → k * o.len + e ≡ stop
      → 0 < e
      → e < o.len
      → v.bit (o.lhs o.full (bit_pos o (o.len - bit_pos o stop))) j ≡ ltb j e
  end_mask stop k e j at some short =
      let p : stop % o.len ≡ e =
        rw (← at) (mul-add-mod_self_right k o.len e ∙ mod-eq_of_lt short) in
      let q : (o.len - e) % o.len ≡ o.len - e = mod-eq_of_lt (omega arith) in
      rw (p, q) (ground (arith, v.bit-lhs o.full (o.len - e) j, v.bit-full (j + (o.len - e))))

  set_tail_writes :
      (stop : ℕ) (s : RangeLoop T)
      → 0 < s.length
      → s.index < size s.bitmap
      → set_tail o stop s ≡ (
        ok tt,
        write o s.bitmap s.index (
            o.bit_or
              (word_at o s.bitmap s.index)
              (o.bit_and s.mask (o.lhs o.full (bit_pos o (o.len - bit_pos o stop))))),
      )
  unfolding set_tail
  set_tail_writes stop s some h = ground arith

  set_tail-IsTail : (stop : ℕ) → IsTail o v true stop (set_tail o stop)
  set_tail-IsTail stop = record {
    nothing_left = λ s h. unfold set_tail in ground arith;
    no_word = λ s h k. unfold set_tail in ground arith;
    last_word = λ s p at some short h e.
        let mask_end = o.lhs o.full (bit_pos o (o.len - bit_pos o stop)) in
        rw (set_tail_writes stop s some h) (
          refl,
          subst
              (λ x. Fills o v true (place o v true s p) x s.bitmap (
                write o s.bitmap s.index
                  (o.bit_or (word_at o s.bitmap s.index) (o.bit_and s.mask mask_end))))
              (omega arith)
              (Fills-write o v true s.bitmap s.index
                (o.bit_or (word_at o s.bitmap s.index) (o.bit_and s.mask mask_end)) p (p + s.length)
                h (omega arith) (omega (arith, at.rest))
                λ j hj. ground (
                  arith,
                  v.bit-or (word_at o s.bitmap s.index) (o.bit_and s.mask mask_end) j,
                  v.bit-and s.mask mask_end j,
                  at.picks j hj,
                  end_mask stop s.index (p + s.length) j (omega (arith, e)) (omega arith)
                      (omega (arith, at.rest)),
                )),
        );
  }

  set_range-FillsRange :
      (b : Bitmap T) (start len : ℕ)
      → 0 < len
      → FillsRange o v true start len b (set_range o b start len)
  set_range-FillsRange b start len some =
      let p = start % o.len in
      let first : RangeLoop T = record {
        bitmap = b;
        index = start / o.len;
        bits = o.len - p;
        mask = o.rhs o.full p;
        length = len;
      } in
      let at : IsAt o v true p first = record {
        rest = omega (arith, pos-lt o v start);
        some_bits = omega (arith, pos-lt o v start);
        picks = λ j h. ground (arith, v.bit-rhs o.full p j h, v.bit-full (j - p));
      } in
      let enters : set_range o b start len
          ≡ behind o (range_loop o o.bit_or o.full (suc len) first) (set_tail o (start + len)) =
        unfold set_range in rw (pos_test len some) refl in
      rw enters (
        behind-FillsRange o v true start len first p (div-add-mod' start o.len) refl refl some
          (set_tail o (start + len)) (set_tail-IsTail (start + len))
          (range_loop o o.bit_or o.full (suc len) first)
          (range_loop-Ran o v true o.bit_or o.full (λ d m j h. ground (arith, v.bit-or d m j))
            (λ j h. ground (arith, v.bit-full j)) (suc len) p first at (omega arith)))

  clear_tail_writes :
      (stop : ℕ) (s : RangeLoop T)
      → 0 < s.length
      → s.index < size s.bitmap
      → clear_tail o stop s ≡ (
        ok tt,
        write o s.bitmap s.index (
            o.bit_and
              (word_at o s.bitmap s.index)
              (o.bit_or s.mask (o.bit_not (o.lhs o.full (bit_pos o (o.len - bit_pos o stop)))))),
      )
  unfolding clear_tail
  clear_tail_writes stop s some h = ground arith

  clear_tail-IsTail : (stop : ℕ) → IsTail o v false stop (clear_tail o stop)
  clear_tail-IsTail stop = record {
    nothing_left = λ s h. unfold clear_tail in ground arith;
    no_word = λ s h k. unfold clear_tail in ground arith;
    last_word = λ s p at some short h e.
        let mask_end = o.bit_not (o.lhs o.full (bit_pos o (o.len - bit_pos o stop))) in
        rw (clear_tail_writes stop s some h) (
          refl,
          subst
              (λ x. Fills o v false (place o v false s p) x s.bitmap (
                write o s.bitmap s.index
                  (o.bit_and (word_at o s.bitmap s.index) (o.bit_or s.mask mask_end))))
              (omega arith)
              (Fills-write o v false s.bitmap s.index
                (o.bit_and (word_at o s.bitmap s.index) (o.bit_or s.mask mask_end)) p (p + s.length)
                h (omega arith) (omega (arith, at.rest))
                λ j hj. ground (
                  arith,
                  v.bit-and (word_at o s.bitmap s.index) (o.bit_or s.mask mask_end) j,
                  v.bit-or s.mask mask_end j,
                  v.bit-not (o.lhs o.full (bit_pos o (o.len - bit_pos o stop))) j hj,
                  at.picks j hj,
                  end_mask stop s.index (p + s.length) j (omega (arith, e)) (omega arith)
                      (omega (arith, at.rest)),
                )),
        );
  }

  clear_range-FillsRange :
      (b : Bitmap T) (start len : ℕ)
      → 0 < len
      → FillsRange o v false start len b (clear_range o b start len)
  clear_range-FillsRange b start len some =
      let p = start % o.len in
      let first : RangeLoop T = record {
        bitmap = b;
        index = start / o.len;
        bits = o.len - p;
        mask = o.bit_not (o.rhs o.full p);
        length = len;
      } in
      let at : IsAt o v false p first = record {
        rest = omega (arith, pos-lt o v start);
        some_bits = omega (arith, pos-lt o v start);
        picks = λ j h.
            ground
              (arith, v.bit-not (o.rhs o.full p) j h, v.bit-rhs o.full p j h, v.bit-full (j - p));
      } in
      let enters : clear_range o b start len
          ≡ behind o (range_loop o o.bit_and o.zero (suc len) first) (clear_tail o (start + len)) =
        unfold clear_range in rw (pos_test len some) refl in
      rw enters (
        behind-FillsRange o v false start len first p (div-add-mod' start o.len) refl refl some
          (clear_tail o (start + len)) (clear_tail-IsTail (start + len))
          (range_loop o o.bit_and o.zero (suc len) first)
          (range_loop-Ran o v false o.bit_and o.zero (λ d m j h. ground (arith, v.bit-and d m j))
            (λ j h. v.bit-zero j) (suc len) p first at (omega arith)))

  -- For a range within the volume `set_range` succeeds, sets the bits from `start` up to `start + len`
  -- and leaves every other bit and the size as they were.
  pub set_range_within :
      (b : Bitmap T) (start len : ℕ)
      → start + len ≤ vol o b
      → ((set_range o b start len).0 ≡ ok tt)
        × Fills o v true start (start + len) b (set_range o b start len).1
  set_range_within b start zero h =
      unfold set_range in (refl, Fills-none o v true start (start + 0) b (omega arith))
  set_range_within b start (suc len) h =
      (set_range-FillsRange b start (suc len) (omega arith)).within h

  -- For a range of at least one bit that passes the volume `set_range` reports the first word that is
  -- not there, and has set the bits from `start` up to the volume by then.
  pub set_range_past :
      (b : Bitmap T) (start len : ℕ)
      → 0 < len
      → vol o b < start + len
      → ((set_range o b start len).0 ≡ err (out_of_bound (max (start / o.len) (size b)) (vol o b)))
        × Fills o v true start (vol o b) b (set_range o b start len).1
  set_range_past b start len some h = (set_range-FillsRange b start len some).past h

  -- For a range within the volume `clear_range` succeeds, clears the bits from `start` up to `start + len`
  -- and leaves every other bit and the size as they were.
  pub clear_range_within :
      (b : Bitmap T) (start len : ℕ)
      → start + len ≤ vol o b
      → ((clear_range o b start len).0 ≡ ok tt)
        × Fills o v false start (start + len) b (clear_range o b start len).1
  clear_range_within b start zero h =
      unfold clear_range in (refl, Fills-none o v false start (start + 0) b (omega arith))
  clear_range_within b start (suc len) h =
      (clear_range-FillsRange b start (suc len) (omega arith)).within h

  -- For a range of at least one bit that passes the volume `clear_range` reports the first word that is
  -- not there, and has cleared the bits from `start` up to the volume by then.
  pub clear_range_past :
      (b : Bitmap T) (start len : ℕ)
      → 0 < len
      → vol o b < start + len
      → ((clear_range o b start len).0
          ≡ err (out_of_bound (max (start / o.len) (size b)) (vol o b)))
        × Fills o v false start (vol o b) b (clear_range o b start len).1
  clear_range_past b start len some h = (clear_range-FillsRange b start len some).past h
