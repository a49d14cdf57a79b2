-- ===== src/World/Whole.antt =====
-- Natural numbers as floats.
use go_agent_chat_server.Base.{ℕ, ◌+◌, ◌-◌, ◌*◌, ◌/◌, ◌==◌, some, none, ◌⊎◌, inl, inr}
use go_agent_chat_server.Base.Text.{Text, codes}
use go_agent_chat_server.Base.Decimal.{format_uint, digits_value}
use go_agent_chat_server.Tool.Calculator.Results.{Floats}

abbrev pub read_whole : Text → Text ⊎ ℕ
read_whole digits = elim (digits_value 0 digits) [
  | none ↦ inl (codes "invalid syntax")
  | some n ↦ inr n
]

-- Natural numbers in the place of float64.
abbrev pub whole : Floats
whole = record {
  Float = ℕ;
  read_float = read_whole;
  add = λ a b. a + b;
  sub = λ a b. a - b;
  mul = λ a b. a * b;
  div = λ a b. a / b;
  neg = λ a. 0 - a;
  is_zero = λ a. a == 0;
  show_float = format_uint;
  quote = λ s. s;
}
