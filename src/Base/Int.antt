-- ===== src/Base/Int.antt =====
-- Signed integers over the native numbers, under the library's names: `negsuc n` is -(n + 1).
use Prim.Native.Nat.{ℕ}

pub data ℤ : Type 0 where
  pos : ℕ → ℤ
  negsuc : ℕ → ℤ
