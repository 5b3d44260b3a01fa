-- ===== src/Bitmap/Refinement.antt =====
-- A bitmap against what it promises: a set of numbers below a volume. Every sequence of calls gets the
-- replies that the set gives, and leaves the bits that the set has.
use mathlib.Core.Path.{fun_ext}
use vm_tools.Common.{
  ℕ, ◌+◌, ◌*◌, ◌/◌, ◌<◌, ◌≤◌, ◌≡◌, refl, ap, ◌∙◌, arith, Bool, true, false, Bool-cases, inl, inr,
  not, List, [], ◌∷◌, ltb, leb, ◌==◌, ok, err, panic, out_of_fuel,
}
use vm_tools.BitOps.{BitOps, BitView}
use vm_tools.Bitmap.{Bitmap, Result, new, vol, set, clear, change, contain, clear_all}
use vm_tools.UtilErrors.{UtilError, out_of_bound}
use vm_tools.Bitmap.BitSet.{
  Call, set_bit, clear_bit, change_bit, contain_bit, set_bits, clear_bits, clear_all_bits,
  count_bits, Reply, done, failed, panicked, stuck, bit, number, BitSet, one, many, promise,
  promises,
}
use vm_tools.Bitmap.Bits.{bit_at}
use vm_tools.Bitmap.Range.{set_range, clear_range}
use vm_tools.Bitmap.Count.{count_front_bits}
use vm_tools.Bitmap.Single.{
  SetsBit, new_lem, set_lem, clear_lem, change_lem, contain_lem, contain_beyond,
  one_bit_out_of_bound, clear_all_lem,
}
use vm_tools.Bitmap.Range.Fills.{Fills}
use vm_tools.Bitmap.Range.Laws.{
  set_range_within, set_range_past, clear_range_within, clear_range_past,
}
use vm_tools.Bitmap.Count.Laws.{count_in, count_front_bits_lem}

abbrev pub reply : {A : Type 0} → (A → Reply) → Result A → Reply
reply f (ok a) = f a
reply f (err e) = failed
reply f panic = panicked
reply f out_of_fuel = stuck

module _ {T : Type 0} (o : BitOps T) where
  -- The methods of the bitmap, called in turn.
  abbrev pub call : Bitmap T → Call → Reply × Bitmap T
  call b (set_bit n) = let (r, b') = set o b n in (reply (λ _. done) r, b')
  call b (clear_bit n) = let (r, b') = clear o b n in (reply (λ _. done) r, b')
  call b (change_bit n) = let (r, b') = change o b n in (reply (λ _. done) r, b')
  call b (contain_bit n) = (reply bit (contain o b n), b)
  call b (set_bits start len) = let (r, b') = set_range o b start len in (reply (λ _. done) r, b')
  call b (clear_bits start len) =
      let (r, b') = clear_range o b start len in (reply (λ _. done) r, b')
  call b clear_all_bits = (done, clear_all o b)
  call b (count_bits n) = (reply number (count_front_bits o b n), b)

  abbrev pub calls : Bitmap T → List Call → List Reply × Bitmap T
  calls b [] = ([], b)
  calls b (c ∷ cs) = let (r, b') = call b c in let (rs, b'') = calls b' cs in (r ∷ rs, b'')

  module _ (v : BitView o) where
    -- The bitmap has the bits of the set, and its volume.
    pub record Represents (b : Bitmap T) (s : BitSet) : Type 0 where
      pub volumes : vol o b ≡ s.volume
      pub bits : (n : ℕ) → bit_at o v b n ≡ s.member n

    abbrev Refines : Reply × Bitmap T → Reply × BitSet → Type 0
    Refines x y = (x.0 ≡ y.0) × Represents x.1 y.1

    -- A method on one bit.
    one-Refines :
        (b : Bitmap T) (s : BitSet) (n : ℕ) (c c' : Bool) (x : Result (Unit {0}) × Bitmap T)
        → c ≡ c'
        → (n < vol o b → (x.0 ≡ ok tt) × SetsBit o v n c b x.1)
        → (vol o b ≤ n → x ≡ (err (out_of_bound (n / o.len) (vol o b)), b))
        → Represents b s
        → Refines (reply (λ _. done) x.0, x.1) (one s n c')
    one-Refines b s n c c' x same within beyond r = elim (Bool-cases (ltb n s.volume)) [
      | inl inside ↦
          let (succeeds, sets) = within (ground (arith, r.volumes)) in
          rw (inside, succeeds)
            (
              refl,
              record {
                volumes = ap (λ (k : ℕ). k * o.len) sets.same_size ∙ r.volumes;
                bits = λ i. ground (arith, same, sets.bits i, r.bits i);
              },
            )
      | inr outside ↦ rw (outside, beyond (ground (arith, r.volumes))) (refl, r)
    ]

    -- A method on a range: nothing is to be done, or the range stays within the volume, or it does not.
    many-Refines :
        (b : Bitmap T) (s : BitSet) (start len : ℕ) (c : Bool) (x : Result (Unit {0}) × Bitmap T)
        → (start + len ≤ vol o b → (x.0 ≡ ok tt) × Fills o v c start (start + len) b x.1)
        → (0 < len
            → vol o b < start + len
            → (e : UtilError) × (x.0 ≡ err e) × Fills o v c start (vol o b) b x.1)
        → (len ≡ 0 → x ≡ (ok tt, b))
        → Represents b s
        → Refines (reply (λ _. done) x.0, x.1) (many s start len c)
    many-Refines b s start len c x within past nothing r = elim (Bool-cases (len == 0)) [
      | inl empty ↦
          rw (nothing (ground arith), empty)
            (refl, record { volumes = r.volumes; bits = λ i. ground (arith, r.bits i) })
      | inr some ↦ elim (Bool-cases (leb (start + len) s.volume)) [
        | inl inside ↦
            let (succeeds, fills) = within (ground (arith, r.volumes)) in
            rw (some, inside, succeeds)
              (
                refl,
                record {
                  volumes = ap (λ (k : ℕ). k * o.len) fills.same_size ∙ r.volumes;
                  bits = λ i. ground (arith, fills.bits i, r.bits i);
                },
              )
        | inr outside ↦
            let (e, fails, fills) = past (ground arith) (ground (arith, r.volumes)) in
            rw (some, outside, fails)
              (
                refl,
                record {
                  volumes = ap (λ (k : ℕ). k * o.len) fills.same_size ∙ r.volumes;
                  bits = λ i. ground (arith, fills.bits i, r.bits i, r.volumes);
                },
              )
      ]
    ]

    call-Refines :
        (b : Bitmap T) (s : BitSet) (c : Call) → Represents b s → Refines (call b c) (promise s c)
    call-Refines b s (set_bit n) r =
        one-Refines b s n true true (set o b n) refl (set_lem o v b n)
          (λ h. (one_bit_out_of_bound o v b n h).0) r
    call-Refines b s (clear_bit n) r =
        one-Refines b s n false false (clear o b n) refl (clear_lem o v b n)
          (λ h. (one_bit_out_of_bound o v b n h).1) r
    call-Refines b s (change_bit n) r =
        one-Refines b s n (not (bit_at o v b n)) (not (s.member n)) (change o b n)
          (ap not (r.bits n)) (change_lem o v b n) (λ h. (one_bit_out_of_bound o v b n h).2) r
    call-Refines b s (contain_bit n) r = elim (Bool-cases (ltb n s.volume)) [
      | inl inside ↦
          rw (contain_lem o v b n (ground (arith, r.volumes)), inside) (ap bit (r.bits n), r)
      | inr outside ↦
          let what = contain_beyond o v b n (ground (arith, r.volumes)) in
          rw (what, outside) (ground (arith, r.volumes), r)
    ]
    call-Refines b s (set_bits start len) r =
        many-Refines b s start len true (set_range o b start len) (set_range_within o v b start len)
          (λ p q. let past = set_range_past o v b start len p q in (_, past.0, past.1))
          (λ e. unfold set_range in rw e refl) r
    call-Refines b s (clear_bits start len) r =
        many-Refines b s start len false (clear_range o b start len)
          (clear_range_within o v b start len)
          (λ p q. let past = clear_range_past o v b start len p q in (_, past.0, past.1))
          (λ e. unfold clear_range in rw e refl) r
    call-Refines b s clear_all_bits r =
        let (size_kept, none_left) = clear_all_lem o v b in
        (
          refl,
          record { volumes = ap (λ (k : ℕ). k * o.len) size_kept ∙ r.volumes; bits = none_left },
        )
    call-Refines b s (count_bits n) r =
        let counts = count_front_bits_lem o v b n in
        let members : count_in (bit_at o v b) 0 n ≡ count_in s.member 0 n =
          ap (λ (p : ℕ → Bool). count_in p 0 n) (fun_ext r.bits) in
        elim (Bool-cases (ltb s.volume n)) [
          | inl past ↦ rw (counts, r.volumes, past) (refl, r)
          | inr inside ↦ rw (counts, r.volumes, inside) (ap number members, r)
        ]

    -- Every sequence of calls on a bitmap that represents a set gets the replies that the set gives, and
    -- leaves a bitmap that represents the set then.
    pub calls-Refines :
        (b : Bitmap T) (s : BitSet) (cs : List Call)
        → Represents b s
        → ((calls b cs).0 ≡ (promises s cs).0) × Represents (calls b cs).1 (promises s cs).1
    calls-Refines b s [] r = (refl, r)
    calls-Refines b s (c ∷ cs) r =
        let (same, next) = call-Refines b s c r in
        let (rest, last) = calls-Refines (call b c).1 (promise s c).1 cs next in
        (rw (same, rest) refl, last)

    -- A new bitmap represents the empty set.
    pub new-Represents :
        (n : ℕ) → Represents (new o n) (record { volume = n * o.len; member = λ _. false })
    new-Represents n =
        let (sized, empty) = new_lem o v n in
        record { volumes = ap (λ (k : ℕ). k * o.len) sized; bits = empty }
