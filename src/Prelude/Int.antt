-- ===== src/Prelude/Int.antt =====
-- Integers, where the program is given an index that may be negative.
use Prim.Native.Nat.{ℕ}

-- `negsuc n` is -(n + 1).
pub data ℤ : Type 0 where
  pos : ℕ → ℤ
  negsuc : ℕ → ℤ
