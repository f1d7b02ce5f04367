-- ===== src/Prelude/Int.antt =====
-- Signed integers, for the 32-bit page sizes and limits of a request.
use Prim.Native.Nat.{ℕ}

-- `negsuc n` is -(n + 1).
pub data ℤ : Type 0 where
  pos : ℕ → ℤ
  negsuc : ℕ → ℤ
