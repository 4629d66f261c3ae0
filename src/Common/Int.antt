-- ===== src/Common/Int.antt =====
-- Signed integers, which carry the i32 codes of the macOS calls.
use Prim.Native.Nat.{ℕ}

-- `negsuc n` is -(n + 1).
pub data ℤ : Type 0 where
  pos : ℕ → ℤ
  negsuc : ℕ → ℤ
