-- ===== src/Base/Float.antt =====
-- The double-precision operations that the source uses, as an interface: the numbers, their tests
-- and their rounding are the platform's, so they are parameters of every definition that needs
-- them.
use Prim.Native.Nat.{ℕ}
use mathlib.Core.Bool.{Bool}
use exoskeleton.Base.Tests.{if◌then◌else◌}

-- `decimal m k` is the literal m / 10 ^ k, `to_u64` the saturating cast `as u64`.
pub record F64 (F : Type 0) : Type 0 where
  pub lt : F → F → Bool
  pub le : F → F → Bool
  pub add : F → F → F
  pub sub : F → F → F
  pub mul : F → F → F
  pub div : F → F → F
  pub neg : F → F
  pub exp : F → F
  pub least : F → F → F
  pub greatest : F → F → F
  pub abs : F → F
  pub round : F → F
  pub to_u64 : F → ℕ
  pub of_u64 : ℕ → F
  pub decimal : ℕ → ℕ → F
  pub max_value : F
  pub epsilon : F

-- `clamp`, which leaves what compares with neither bound as it is.
abbrev pub clamp : {F : Type 0} → F64 F → F → F → F → F
clamp f least most x = if f.lt x least then least else if f.lt most x then most else x
