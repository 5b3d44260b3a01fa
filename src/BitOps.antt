-- ===== src/BitOps.antt =====
-- The trait `BitOps` of utils/src/bitmap.rs: what a bitmap needs of the type of its words.
use vm_tools.Common.{ℕ, ◌+◌, ◌-◌, ◌<◌, ◌≡◌, Bool, true, false, not, ◌&&◌, ◌||◌, ltb, leb, ◌==◌}
use mathlib.Core.Bool.{xor}

-- The trait. `beq` is the `==` that it inherits from `Ord`.
pub record BitOps (T : Type 0) : Type 0 where
  pub bool : T → Bool
  pub len : ℕ
  pub zero : T
  pub one : T
  pub full : T
  pub value : T → ℕ
  pub bit_not : T → T
  pub bit_and : T → T → T
  pub bit_or : T → T → T
  pub bit_xor : T → T → T
  pub rhs : T → ℕ → T
  pub lhs : T → ℕ → T
  pub beq : T → T → Bool

-- A reading of the words as rows of bits, under which the operations are what their names say. The
-- laws of the bitmap rest on this contract alone.
pub record BitView {T : Type 0} (o : BitOps T) : Type 0 where
  pub bit : T → ℕ → Bool
  pub len-pos : 0 < o.len
  pub bit-zero : (j : ℕ) → bit o.zero j ≡ false
  pub bit-one : (j : ℕ) → bit o.one j ≡ (j == 0)
  pub bit-full : (j : ℕ) → bit o.full j ≡ ltb j o.len
  pub bit-not : (x : T) (j : ℕ) → j < o.len → bit (o.bit_not x) j ≡ not (bit x j)
  pub bit-and : (x y : T) (j : ℕ) → bit (o.bit_and x y) j ≡ (bit x j && bit y j)
  pub bit-or : (x y : T) (j : ℕ) → bit (o.bit_or x y) j ≡ (bit x j || bit y j)
  pub bit-xor : (x y : T) (j : ℕ) → bit (o.bit_xor x y) j ≡ xor (bit x j) (bit y j)
  pub bit-rhs : (x : T) (k j : ℕ) → j < o.len → bit (o.rhs x k) j ≡ (leb k j && bit x (j - k))
  pub bit-lhs : (x : T) (k j : ℕ) → bit (o.lhs x k) j ≡ bit x (j + k)
  pub bool-and-one : (x : T) (k : ℕ) → k < o.len → o.bool (o.bit_and x (o.rhs o.one k)) ≡ bit x k
  pub eq_of_beq : (x y : T) → (o.beq x y ≡ true) → x ≡ y
