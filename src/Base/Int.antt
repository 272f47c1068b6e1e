-- ===== src/Base/Int.antt =====
-- Signed integers: `i64`, and the cast to it from `u64`.
use Prim.Native.Nat.{ℕ, ◌-◌, ◌^◌}
use pocket_oid.Base.Tests.{ltb, if◌then◌else◌}

-- `negsuc n` is -(n + 1).
pub data ℤ : Type 0 where
  pos : ℕ → ℤ
  negsuc : ℕ → ℤ

-- `x as i64`, of a `u64`.
unfoldable pub as_i64 : ℕ → ℤ
as_i64 x = if ltb x (2 ^ 63) then pos x else negsuc (2 ^ 64 - 1 - x)
