-- ===== src/Common/Float.antt =====
-- Go's float64, which the development does not compute with: its type and the operations that the
-- program uses are a parameter.
use mathlib.Core.Bool.{Bool}
use openadsource.Common.Int.{ℤ}

pub record Float64 : Type 1 where
  pub F : Type 0
  -- float64(n) of an integer
  pub of_int : ℤ → F
  pub add : F → F → F
  pub mul : F → F → F
  pub div : F → F → F
  -- a < b and a <= b
  pub lt : F → F → Bool
  pub le : F → F → Bool
  -- time.Duration.Hours of a number of nanoseconds
  pub hours : ℤ → F
