-- ===== src/Base/Float.antt =====
-- The operations on `f64` that the code uses. Floating point is a parameter of the development:
-- the type and its operations, with the one documented fact that `f64 as i64` saturates.
use gc_scope.Base.Int.{ℤ, InI64}
use Prim.Native.Nat.{ℕ}
use mathlib.Core.Bool.{Bool}

pub record Float64 (F : Type 0) : Type 0 where
  pub zero : F
  pub one : F
  -- The constant `1e9`.
  pub giga : F
  pub from_bits : ℕ → F
  pub of_i64 : ℤ → F
  pub sub : F → F → F
  pub mul : F → F → F
  pub div : F → F → F
  pub round : F → F
  pub is_finite : F → Bool
  -- `x as i64`.
  pub to_i64 : F → ℤ
  pub InI64-to_i64 : (x : F) → InI64 (to_i64 x)
