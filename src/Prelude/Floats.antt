-- ===== src/Prelude/Floats.antt =====
-- Python's floats, as a parameter: the type and the operations that the program calls. No law of
-- floating-point arithmetic is assumed.
use Prim.Native.Nat.{ℕ}
use mathlib.Core.Bool.{Bool}
use mathlib.Core.Option.{Option}
use diploma_munka.Prelude.Int.{ℤ}

pub record Floats : Type 1 where
  pub F : Type 0
  pub zero : F
  pub add : F → F → F
  pub sub : F → F → F
  pub mul : F → F → F
  pub div : F → F → F
  pub lt : F → F → Bool
  pub le : F → F → Bool
  -- `math.isfinite(x)`
  pub isfinite : F → Bool
  -- `float(n)` of a small count
  pub of_ℕ : ℕ → F
  -- `float(n)`; `none` is its OverflowError
  pub of_int : ℤ → Option F
  -- `x == n` and `x <= n` for an integer `n`
  pub eq_int : F → ℤ → Bool
  pub le_int : F → ℤ → Bool
