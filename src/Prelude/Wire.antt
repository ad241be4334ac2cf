-- ===== src/Prelude/Wire.antt =====
-- What the program takes from serde_json and tungstenite, as interfaces: nothing is assumed of
-- them but what the fields' types say.
use mathlib.Core.Path.{◌≡◌}
use mathlib.Core.List.{List}
use mathlib.Core.Option.{Option, some}
use trolly.Prelude.Int.{ℤ}
use Prim.Native.Nat.{ℕ}
use trolly.Prelude.Results.{Result}
use trolly.Prelude.Strings.{Text}

-- `serde_json::Value` and its accessors. `as_u64` and `as_i64` return numbers of their width.
pub record Json : Type 1 where
  pub Value : Type 0
  pub Error : Type 0
  pub from_str : Text → Result Value Error
  pub get : Value → Text → Option Value
  pub as_str : Value → Option Text
  pub as_u64 : Value → Option ℕ
  pub as_i64 : Value → Option ℤ
  pub as_array : Value → Option (List Value)

-- `tungstenite::Message`: the payload of a text frame, and how one is made.
pub record Frames : Type 1 where
  pub Message : Type 0
  pub as_text : Message → Option Text
  pub of_text : Text → Message
  pub as_text-of_text : (t : Text) → as_text (of_text t) ≡ some t
