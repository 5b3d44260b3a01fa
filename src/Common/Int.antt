-- ===== src/Common/Int.antt =====
-- Signed integers, as far as the models use them: `i32` values that foreign calls come back with.
use Prim.Native.Nat.{ℕ}

-- `negsuc n` is -(n + 1).
pub data ℤ : Type 0 where
  pos : ℕ → ℤ
  negsuc : ℕ → ℤ
