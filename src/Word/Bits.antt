-- ===== src/Word/Bits.antt =====
-- Binary digits of natural numbers, at every width: what `&`, `|`, `^`, `<<` and `>>` do to the
-- digit at a position.
use Prim.Native.Nat.{
  ℕ, zero, suc, ◌+◌, ◌-◌, ◌*◌, ◌/◌, ◌%◌, ◌^◌, ◌≤◌, ◌<◌, min, max, digits, bitwise, bit_and, bit_or,
  bit_xor, bit_and-bitwise, bit_or-bitwise, bit_xor-bitwise, differ,
}
use native.Mathlib.Nat.{
  le_refl, pow-suc, one-le-pow, sub-zero, suc-sub-suc, add-zero, add-suc, mul_comm,
  div-div-eq-div-mul, div-add-mod',
}
use mathlib.Core.Bool.{xor}
use vm_tools.Common.{
  ◌≡◌, refl, arith, Bool, false, ◌&&◌, ◌||◌, ltb, leb, ◌==◌, if◌then◌else◌, ap, sym,
}

-- The digit of `x` at position `j`.
abbrev pub bit : ℕ → ℕ → Bool
bit x zero = x % 2 == 1
bit x (suc j) = bit (x / 2) j

module _ (z : ℕ → ℕ) (f : ℕ → ℕ → ℕ) where
  -- The native operations are a recursion on digits with fuel, of which any enough is the same.
  enough : (n m a b : ℕ) → a ≤ n → a ≤ m → digits z f n a b ≡ digits z f m a b
  enough zero zero a b p q = refl
  enough zero (suc m) zero b p q = refl
  enough zero (suc m) (suc a) b p q = absurd (omega arith)
  enough (suc n) zero zero b p q = refl
  enough (suc n) zero (suc a) b p q = absurd (omega arith)
  enough (suc n) (suc m) zero b p q = refl
  enough (suc n) (suc m) (suc a) b p q =
      rw (enough n m (suc a / 2) (b / 2) (omega arith) (omega arith))

  low_digit :
      (a b : ℕ)
      → bitwise z f (suc a) b ≡ bitwise z f (suc a / 2) (b / 2) * 2 + f (suc a % 2) (b % 2)
  low_digit a b = omega (arith, enough a (suc a / 2) (suc a / 2) (b / 2) (omega arith) (le_refl _))

bit_or_low : (a b : ℕ) → bit_or a b ≡ bit_or (a / 2) (b / 2) * 2 + max (a % 2) (b % 2)
bit_or_low zero b = simp bit_or-bitwise (omega arith)
bit_or_low (suc a) b = simp bit_or-bitwise (low_digit (λ y. y) max a b)

bit_and_low : (a b : ℕ) → bit_and a b ≡ bit_and (a / 2) (b / 2) * 2 + min (a % 2) (b % 2)
bit_and_low zero b = simp bit_and-bitwise (omega arith)
bit_and_low (suc a) b = simp bit_and-bitwise (low_digit (λ y. 0) min a b)

differ_sum : (x y : ℕ) → x < 2 → y < 2 → differ x y ≡ (x + y) % 2
differ_sum zero y h k = omega arith
differ_sum (suc zero) zero h k = refl
differ_sum (suc zero) (suc y) h k = omega arith
differ_sum (suc (suc x)) y h k = absurd (omega arith)

bit_xor_low : (a b : ℕ) → bit_xor a b ≡ bit_xor (a / 2) (b / 2) * 2 + (a % 2 + b % 2) % 2
bit_xor_low zero b = simp bit_xor-bitwise (omega arith)
bit_xor_low (suc a) b = omega (
  arith,
  bit_xor-bitwise (suc a) b,
  bit_xor-bitwise (suc a / 2) (b / 2),
  low_digit (λ y. y) differ a b,
  differ_sum (suc a % 2) (b % 2),
)

-- Nothing is left of a number under `&` with 0, at most `n` digits deep.
and_zero_upto : (n a : ℕ) → a ≤ n → bit_and a 0 ≡ 0
and_zero_upto n zero h = refl
and_zero_upto zero (suc a) h = absurd (omega arith)
and_zero_upto (suc n) (suc a) h =
    omega (arith, bit_and_low (suc a) 0, and_zero_upto n (suc a / 2) (omega arith))

pub bit_and-zero : (a : ℕ) → bit_and a 0 ≡ 0
bit_and-zero a = and_zero_upto a a (le_refl a)

pub bit-bit_or : (j a b : ℕ) → bit (bit_or a b) j ≡ (bit a j || bit b j)
bit-bit_or zero a b = ground (arith, bit_or_low a b)
bit-bit_or (suc j) a b =
    let e : bit_or a b / 2 ≡ bit_or (a / 2) (b / 2) = omega (arith, bit_or_low a b) in
    rw e (bit-bit_or j (a / 2) (b / 2))

pub bit-bit_and : (j a b : ℕ) → bit (bit_and a b) j ≡ (bit a j && bit b j)
bit-bit_and zero a b = ground (arith, bit_and_low a b)
bit-bit_and (suc j) a b =
    let e : bit_and a b / 2 ≡ bit_and (a / 2) (b / 2) = omega (arith, bit_and_low a b) in
    rw e (bit-bit_and j (a / 2) (b / 2))

pub bit-bit_xor : (j a b : ℕ) → bit (bit_xor a b) j ≡ xor (bit a j) (bit b j)
unfolding xor
bit-bit_xor zero a b = ground (arith, bit_xor_low a b)
bit-bit_xor (suc j) a b =
    let e : bit_xor a b / 2 ≡ bit_xor (a / 2) (b / 2) = omega (arith, bit_xor_low a b) in
    rw e (bit-bit_xor j (a / 2) (b / 2))

pub bit_of_zero : (j : ℕ) → bit 0 j ≡ false
bit_of_zero zero = refl
bit_of_zero (suc j) = bit_of_zero j

pub bit_of_one : (j : ℕ) → bit 1 j ≡ (j == 0)
bit_of_one zero = refl
bit_of_one (suc j) = ground (arith, bit_of_zero j)

-- A row of `w` ones.
pub bit_of_ones : (w j : ℕ) → bit (2 ^ w - 1) j ≡ ltb j w
bit_of_ones zero j = ground (arith, bit_of_zero j)
bit_of_ones (suc w) zero = ground (arith, pow-suc 2 w, one-le-pow w 2)
bit_of_ones (suc w) (suc j) =
    let e : (2 ^ suc w - 1) / 2 ≡ 2 ^ w - 1 = omega (arith, pow-suc 2 w, one-le-pow w 2) in
    rw e (ground (arith, bit_of_ones w j))

pub bit-shl : (k x j : ℕ) → bit (x * 2 ^ k) j ≡ (leb k j && bit x (j - k))
bit-shl zero x j = let e : x * 2 ^ 0 ≡ x = omega arith in rw (e, sub-zero) (ground arith)
bit-shl (suc k) x zero = ground (arith, pow-suc 2 k, ap (λ (t : ℕ). x * t) (pow-suc 2 k))
bit-shl (suc k) x (suc j) =
    let e : x * 2 ^ suc k / 2 ≡ x * 2 ^ k = omega (arith, ap (λ (t : ℕ). x * t) (pow-suc 2 k)) in
    rw (e, suc-sub-suc) (ground (arith, bit-shl k x j))

div-pow-suc : (x k : ℕ) → x / 2 ^ suc k ≡ x / 2 / 2 ^ k
div-pow-suc x k = rw (pow-suc, mul_comm (2 ^ k) 2) (sym (div-div-eq-div-mul x 2 (2 ^ k)))

pub bit-shr : (k x j : ℕ) → bit (x / 2 ^ k) j ≡ bit x (j + k)
bit-shr zero x j = let e : x / 2 ^ 0 ≡ x = omega arith in rw (e, add-zero)
bit-shr (suc k) x j = rw (div-pow-suc x k, add-suc) (bit-shr k (x / 2) j)

-- The remainder by `2 ^ suc w`, digit by digit.
mod-pow-suc : (x w : ℕ) → (x % 2 ^ suc w % 2 ≡ x % 2) × (x % 2 ^ suc w / 2 ≡ x / 2 % 2 ^ w)
mod-pow-suc x w = (
  omega (arith, div-add-mod' x (2 ^ suc w), ap (λ (t : ℕ). x / 2 ^ suc w * t) (pow-suc 2 w)),
  omega (
    arith,
    div-add-mod' x (2 ^ suc w),
    ap (λ (t : ℕ). x / 2 ^ suc w * t) (pow-suc 2 w),
    div-add-mod' (x / 2) (2 ^ w),
    ap (λ (t : ℕ). t * 2 ^ w) (div-pow-suc x w),
  ),
)

pub bit-mod : (w x j : ℕ) → j < w → bit (x % 2 ^ w) j ≡ bit x j
bit-mod zero x j h = absurd (omega arith)
bit-mod (suc w) x zero h = rw ((mod-pow-suc x w).0) refl
bit-mod (suc w) x (suc j) h = rw ((mod-pow-suc x w).1) (bit-mod w (x / 2) j (omega arith))

-- The test of one bit: `x & (1 << k)` is `1 << k` or 0.
pub bit_and-pow : (k x : ℕ) → bit_and x (2 ^ k) ≡ (if bit x k then 2 ^ k else 0)
bit_and-pow zero x = ground (arith, bit_and_low x 1, bit_and-zero (x / 2))
bit_and-pow (suc k) x =
    ground (arith, bit_and_low x (2 ^ suc k), pow-suc 2 k, bit_and-pow k (x / 2))
