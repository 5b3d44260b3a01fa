-- ===== src/Bitmap/Range/Fills.antt =====
-- What a range of bits set or cleared means, and how such ranges are put together.
use native.Mathlib.Nat.{div-add-mod', mul-le-mul_right, suc-mul}
use vm_tools.Common.{
  ℕ, suc, ◌+◌, ◌*◌, ◌/◌, ◌%◌, ◌≤◌, ◌<◌, ◌≡◌, refl, ap, arith, Bool, ◌&&◌, ltb, leb, ◌==◌,
  if◌then◌else◌,
}
use vm_tools.BitOps.{BitOps, BitView}
use vm_tools.Bitmap.{Bitmap, size, word_at, write}
use vm_tools.Bitmap.Bits.{bit_at, pos-lt, bit_at-write, bit_at_in_word, size-write}

pub times_le : (a b k : ℕ) → a ≤ b → a * k ≤ b * k
times_le a b k h = mul-le-mul_right k h

module _ {T : Type 0} (o : BitOps T) (v : BitView o) where
  -- `b'` has the size of `b`, the bit `c` from `lo` up to `hi`, and the bits of `b` elsewhere.
  pub record Fills (c : Bool) (lo hi : ℕ) (b b' : Bitmap T) : Type 0 where
    pub same_size : size b' ≡ size b
    pub bits : (n : ℕ) → bit_at o v b' n ≡ (if leb lo n && ltb n hi then c else bit_at o v b n)

  pub Fills-none : (c : Bool) (lo hi : ℕ) (b : Bitmap T) → hi ≤ lo → Fills c lo hi b b
  Fills-none c lo hi b h = record { same_size = refl; bits = λ n. ground arith }

  -- An empty range is as good as another.
  pub Fills-empty :
      (c : Bool) (lo hi hi' : ℕ) {b b' : Bitmap T}
      → hi ≤ lo
      → hi' ≤ lo
      → Fills c lo hi b b'
      → Fills c lo hi' b b'
  Fills-empty c lo hi hi' p q f = record {
    same_size = f.same_size;
    bits = λ n. ground (arith, f.bits n);
  }

  pub Fills-trans :
      (c : Bool) (lo mid hi : ℕ) {a b d : Bitmap T}
      → lo ≤ mid
      → mid ≤ hi
      → Fills c lo mid a b
      → Fills c mid hi b d
      → Fills c lo hi a d
  Fills-trans c lo mid hi p q f g = record {
    same_size = omega arith;
    bits = λ n. ground (arith, f.bits n, g.bits n);
  }

  -- The bit `n` stands in word `k`, or below it, or above it.
  bit_in_word :
      (n k j0 j1 : ℕ)
      → j0 ≤ j1
      → j1 ≤ o.len
      → (leb (k * o.len + j0) n && ltb n (k * o.len + j1))
        ≡ ((n / o.len == k) && (leb j0 (n % o.len) && ltb (n % o.len) j1))
  bit_in_word n k j0 j1 p q = ground (
    arith,
    div-add-mod' n o.len,
    pos-lt o v n,
    times_le (suc (n / o.len)) k o.len,
    times_le (suc k) (n / o.len) o.len,
    suc-mul (n / o.len) o.len,
    suc-mul k o.len,
    ap (λ (t : ℕ). t * o.len) {x = n / o.len} {y = k},
  )

  -- A write of one word that fills the places from `j0` up to `j1` of that word.
  pub Fills-write :
      (c : Bool) (b : Bitmap T) (k : ℕ) (w : T) (j0 j1 : ℕ)
      → k < size b
      → j0 ≤ j1
      → j1 ≤ o.len
      → ((j : ℕ)
          → j < o.len
          → v.bit w j ≡ (if leb j0 j && ltb j j1 then c else v.bit (word_at o b k) j))
      → Fills c (k * o.len + j0) (k * o.len + j1) b (write o b k w)
  Fills-write c b k w j0 j1 h p q word = record {
    same_size = size-write o v b k w;
    bits = λ n. ground (
      arith,
      bit_at-write o v b k w n h,
      word (n % o.len) (pos-lt o v n),
      bit_in_word n k j0 j1 p q,
      bit_at_in_word o v b n k,
    );
  }
