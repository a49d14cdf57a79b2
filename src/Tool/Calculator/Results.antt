-- ===== src/Tool/Calculator/Results.antt =====
-- The results of the calculator's parser, and what it takes from float64 and from formatting.
use go_agent_chat_server.Base.{Bool, ◌⊎◌, inl, inr}
use go_agent_chat_server.Base.Text.{Text}

pub data Error : Type 0 where
  unexpected_token : Text → Error
  division_by_zero missing_parenthesis number_expected no_expression : Error
  float_error : Text → Error

-- `out_of_fuel` has no counterpart in the program.
pub data Outcome {ℓ} (A : Type ℓ) : Type ℓ where
  ok : A → Outcome A
  err : Error → Outcome A
  out_of_fuel : Outcome A

abbrev pub bind {ℓ κ} : {A : Type ℓ} {B : Type κ} → Outcome A → (A → Outcome B) → Outcome B
bind (ok a) f = f a
bind (err e) f = err e
bind out_of_fuel f = out_of_fuel

-- float64, with strconv.ParseFloat (a value or the text of its error), `%g` and `%q`.
pub record Floats : Type 1 where
  pub Float : Type 0
  pub read_float : Text → Text ⊎ Float
  pub add : Float → Float → Float
  pub sub : Float → Float → Float
  pub mul : Float → Float → Float
  pub div : Float → Float → Float
  pub neg : Float → Float
  pub is_zero : Float → Bool
  pub show_float : Float → Text
  pub quote : Text → Text

-- (v, err) of strconv.ParseFloat as an outcome.
abbrev pub float_result : {F : Type 0} → Text ⊎ F → Outcome F
float_result (inl message) = err (float_error message)
float_result (inr v) = ok v

unfoldable pub parse_float : (floats : Floats) → Text → Outcome floats.Float
parse_float floats digits = float_result (floats.read_float digits)
