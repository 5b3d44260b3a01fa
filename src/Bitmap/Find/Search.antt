-- ===== src/Bitmap/Find/Search.antt =====
-- The search of `find_next_zero` and `find_next_bit`: what it comes back with.
use native.Mathlib.Nat.{div-add-mod', mul-le-mul_right, suc-mul, add-zero, le_of_mul-le-mul_right}
use native.Mathlib.Decide.{dec_lt, ℕ_discrete}
use vm_tools.Common.{
  ℕ, zero, suc, ◌+◌, ◌-◌, ◌*◌, ◌/◌, ◌%◌, ◌≤◌, ◌<◌, ◌≡◌, ◌⊎◌, inl, inr, refl, sym, subst, ap, ◌∙◌,
  arith, Bool, true, false, Bool-cases, Option, none, some, ok, get_elem?-within,
}
use vm_tools.BitOps.{BitOps, BitView}
use vm_tools.Bitmap.{Bitmap, Result, size, vol, word_at}
use vm_tools.Bitmap.Bits.{bit_at, bit_at-place, pos-lt}
use vm_tools.Bitmap.Single.{contain_lem}
use vm_tools.Bitmap.Find.{search_word, search_words, or_else}

-- `r` is the first number from `lo` on, and below `hi`, that `p` holds of; or it is `hi`, and there
-- is none.
pub record IsFirst (p : ℕ → Bool) (lo hi r : ℕ) : Type 0 where
  pub from : lo ≤ r
  pub upto : r ≤ hi
  pub before : (n : ℕ) → lo ≤ n → n < r → p n ≡ false
  pub at : r < hi → p r ≡ true

-- There is one such number.
pub IsFirst-unique : (p : ℕ → Bool) (lo hi r s : ℕ) → IsFirst p lo hi r → IsFirst p lo hi s → r ≡ s
IsFirst-unique p lo hi r s f g = elim (dec_lt r s) [
  | yes less ↦ absurd (cc (f.at (omega (arith, g.upto)), g.before r f.from less))
  | no more ↦ elim (dec_lt s r) [
    | yes less ↦ absurd (cc (g.at (omega (arith, f.upto)), f.before s g.from less))
    | no same ↦ omega arith
  ]
]

-- What the search of a stretch comes back with.
abbrev pub FoundIn : (ℕ → Bool) → ℕ → ℕ → Option ℕ → Type 0
FoundIn p lo hi none = (n : ℕ) → lo ≤ n → n < hi → p n ≡ false
FoundIn p lo hi (some r) = (r < hi) × IsFirst p lo hi r

FoundIn-miss :
    (p : ℕ → Bool) (lo hi : ℕ) (f : Option ℕ)
    → p lo ≡ false
    → FoundIn p (lo + 1) hi f
    → FoundIn p lo hi f
FoundIn-miss p lo hi none miss rest =
    λ n q k. elim (ℕ_discrete n lo) [ yes e ↦ rw e miss | no ne ↦ rest n (omega arith) k ]
FoundIn-miss p lo hi (some r) miss (below, first) = (
  below,
  record {
    from = omega (arith, first.from);
    upto = first.upto;
    before = λ n q k. elim (ℕ_discrete n lo) [
      | yes e ↦ rw e miss
      | no ne ↦ first.before n (omega arith) k
    ];
    at = first.at;
  },
)

FoundIn-here : (p : ℕ → Bool) (lo hi : ℕ) → p lo ≡ true → lo < hi → FoundIn p lo hi (some lo)
FoundIn-here p lo hi e h = (
  h,
  record {
    from = omega arith;
    upto = omega arith;
    before = λ n q k. absurd (omega arith);
    at = λ _. e;
  },
)

-- The search of a longer stretch, after that of its beginning.
IsFirst-found :
    (p : ℕ → Bool) (lo mid hi r : ℕ) → mid ≤ hi → FoundIn p lo mid (some r) → IsFirst p lo hi r
IsFirst-found p lo mid hi r h (below, first) = record {
  from = first.from;
  upto = omega (arith, first.upto);
  before = first.before;
  at = λ _. first.at below;
}

IsFirst-later :
    (p : ℕ → Bool) (lo mid hi r : ℕ)
    → lo ≤ mid
    → FoundIn p lo mid none
    → IsFirst p mid hi r
    → IsFirst p lo hi r
IsFirst-later p lo mid hi r h missed first = record {
  from = omega (arith, first.from);
  upto = first.upto;
  before = λ n q k. elim (dec_lt n mid) [
    | yes below ↦ missed n q below
    | no above ↦ first.before n (omega arith) k
  ];
  at = first.at;
}

module _ {T : Type 0} (o : BitOps T) (v : BitView o) (b : Bitmap T) (hit : Bool → Bool) where
  abbrev hits : ℕ → Bool
  hits n = hit (bit_at o v b n)

  search_word_lem :
      (i rounds j lo hi : ℕ)
      → i * o.len + j ≡ lo
      → lo + rounds ≡ hi
      → hi ≤ vol o b
      → (f : Option ℕ) × (search_word o b hit i rounds j ≡ ok f) × FoundIn hits lo hi f
  unfolding search_word
  search_word_lem i zero j lo hi e e' h = (none, refl, λ n p q. absurd (omega arith))
  search_word_lem i (suc rounds) j lo hi e e' h = elim (Bool-cases (hits lo)) [
    | inl found ↦ (
      some lo,
      rw (e, contain_lem o v b lo (omega arith), found) refl,
      FoundIn-here hits lo hi found (omega arith),
    )
    | inr missed ↦
        let (f, runs, found) =
          search_word_lem i rounds (j + 1) (lo + 1) hi (omega arith) (omega arith) h in
        (
          f,
          rw (e, contain_lem o v b lo (omega arith), missed) runs,
          FoundIn-miss hits lo hi f missed found,
        )
  ]

  module _ (skip : T) (skip_misses : (j : ℕ) → j < o.len → hit (v.bit skip j) ≡ false) where
    -- A word that is passed over has no hit.
    skipped :
        (i : ℕ)
        → o.beq (word_at o b i) skip ≡ true
        → FoundIn hits (i * o.len) (i * o.len + o.len) none
    skipped i e n p q =
        let here : n ≡ i * o.len + (n - i * o.len) = omega arith in
        let inside : n - i * o.len < o.len = omega arith in
        let w : word_at o b i ≡ skip = v.eq_of_beq (word_at o b i) skip e in
        let bit : bit_at o v b n ≡ v.bit skip (n - i * o.len) =
          subst (λ x. bit_at o v b x ≡ v.bit skip (n - i * o.len)) (sym here)
            (bit_at-place o v b i (n - i * o.len) inside ∙ rw w refl) in
        rw bit (skip_misses (n - i * o.len) inside)

    -- What the search of one word leaves to the words behind it.
    after_word :
        (lo mid : ℕ) (f : Option ℕ) (next : Result ℕ)
        → lo ≤ mid
        → mid ≤ vol o b
        → FoundIn hits lo mid f
        → (r : ℕ) × (next ≡ ok r) × IsFirst hits mid (vol o b) r
        → (r : ℕ) × (or_else o f next ≡ ok r) × IsFirst hits lo (vol o b) r
    after_word lo mid none next p q missed (r, runs, first) =
        (r, runs, IsFirst-later hits lo mid (vol o b) r p missed first)
    after_word lo mid (some r) next p q found rest =
        (r, refl, IsFirst-found hits lo mid (vol o b) r q found)

    search_words_lem :
        (rounds i j : ℕ)
        → i + rounds ≡ size b
        → j < o.len
        → (j ≡ 0) ⊎ (0 < rounds) × (o.beq (word_at o b i) skip ≡ false)
        → (r : ℕ) × (search_words o b skip hit rounds i j ≡ ok r)
          × IsFirst hits (i * o.len + j) (vol o b) r
    unfolding search_words
    search_words_lem zero i j e h start =
        let z : j ≡ 0 = elim start [ inl z ↦ z | inr (k, _) ↦ absurd (omega arith) ] in
        let at_end : i * o.len + j ≡ vol o b =
          omega (arith, z, ap (λ (t : ℕ). t * o.len) {x = i} {y = size b} (omega arith)) in
        (
          vol o b,
          refl,
          record {
            from = omega arith;
            upto = omega arith;
            before = λ n p q. absurd (omega arith);
            at = λ q. absurd (omega arith);
          },
        )
    search_words_lem (suc rounds) i j e h start =
        let inside : i < size b = omega arith in
        let next_lo : (i + 1) * o.len + 0 ≡ i * o.len + o.len = omega arith in
        let mid_in : i * o.len + o.len ≤ vol o b =
          omega (arith, mul-le-mul_right o.len inside, suc-mul i o.len) in
        elim (Bool-cases (o.beq (word_at o b i) skip)) [
          | inl full ↦
              let z : j ≡ 0 = elim start [ inl z ↦ z | inr (_, k) ↦ absurd (cc) ] in
              let (r, runs, first) =
                search_words_lem rounds (i + 1) 0 (omega arith) v.len-pos (inl refl) in
              (
                r,
                rw (get_elem?-within b.words i o.zero inside, full, z) runs,
                rw (z, add-zero)
                    (IsFirst-later hits (i * o.len) (i * o.len + o.len) (vol o b) r (omega arith)
                      (skipped i full) (subst (λ x. IsFirst hits x (vol o b) r) next_lo first)),
              )
          | inr opened ↦
              let (f, runs, found) =
                search_word_lem i (o.len - j) j (i * o.len + j) (i * o.len + o.len) refl
                  (omega arith) mid_in in
              rw (get_elem?-within b.words i o.zero inside, opened, runs)
                (after_word (i * o.len + j) (i * o.len + o.len) f
                  (search_words o b skip hit rounds (i + 1) 0) (omega arith) mid_in found
                  (rw (← next_lo)
                    (search_words_lem rounds (i + 1) 0 (omega arith) v.len-pos (inl refl))))
        ]

    -- From an offset within the bitmap, in a word that is not passed over or at its beginning.
    pub search_from_lem :
        (offset : ℕ)
        → offset ≤ vol o b
        → (offset % o.len ≡ 0) ⊎ (o.beq (word_at o b (offset / o.len)) skip ≡ false)
        → (r : ℕ) × (search_words o b skip hit
              (size b - offset / o.len)
              (offset / o.len)
              (offset % o.len)
            ≡ ok r)
          × IsFirst hits offset (vol o b) r
    search_from_lem offset h start =
        let whole : offset / o.len * o.len + offset % o.len ≡ offset = div-add-mod' offset o.len in
        let rounds : offset / o.len ≤ size b =
          le_of_mul-le-mul_right (omega (arith, whole)) v.len-pos in
        let (r, runs, first) =
          search_words_lem (size b - offset / o.len) (offset / o.len) (offset % o.len) (omega arith)
            (pos-lt o v offset)
            (elim start [
              | inl z ↦ inl z
              | inr opened ↦ elim (ℕ_discrete (offset % o.len) 0) [
                | yes z ↦ inl z
                | no some_pos ↦ inr (
                  elim (dec_lt (offset / o.len) (size b)) [
                    | yes p ↦ omega arith
                    | no p ↦
                        let q : size b ≤ offset / o.len = omega arith in
                        absurd (omega (arith, whole, mul-le-mul_right o.len q))
                  ],
                  opened,
                )
              ]
            ]) in
        (r, runs, subst (λ x. IsFirst hits x (vol o b) r) whole first)
