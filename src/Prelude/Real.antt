-- ===== src/Prelude/Real.antt =====
-- `f64` as the bookkeeping uses it: `str::parse::<f64>` and the comparison with 0.0. IEEE
-- arithmetic is a parameter of the model.
use Prim.Native.Nat.{ℕ}
use mathlib.Core.Bool.{Bool}
use mathlib.Core.Option.{Option}
use trolly.Prelude.Strings.{Text}

pub record Floats : Type 1 where
  pub F64 : Type 0
  pub parse : Text → Option F64
  pub is_zero : F64 → Bool

-- A floating-point type with the operations that the training code and the displays use, and no
-- laws. A decimal literal of the source stands under its text.
pub record Arithmetic : Type 1 where
  pub Float : Type 0
  pub literal : Text → Float
  pub parse : Text → Option Float
  pub of_nat : ℕ → Float
  pub plus : Float → Float → Float
  pub minus : Float → Float → Float
  pub times : Float → Float → Float
  pub over : Float → Float → Float
  pub negate : Float → Float
  pub sqrt : Float → Float
  pub abs : Float → Float
  pub maximum : Float → Float → Float
  pub infinity : Float
  pub below : Float → Float → Bool
  pub is_finite : Float → Bool
