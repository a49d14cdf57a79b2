-- ===== src/Tool/Registry.antt =====
-- internal/tool/registry.go and internal/tool/time.go.
mod Tests
use go_agent_chat_server.Base.{
  ℕ, ◌+◌, Bool, true, false, ◌≡◌, refl, if◌then◌else◌, any, select, map, List, [], ◌∷◌, ◌++◌,
  Option, none, some, arith, ap, Bool-cases, inl, inr,
}
use go_agent_chat_server.Base.Text.{Text, codes, to_lower, contains}
use go_agent_chat_server.Tool.Calculator.Results.{
  Outcome, ok, err, out_of_fuel, Error, unexpected_token, division_by_zero, missing_parenthesis,
  number_expected, no_expression, float_error, Floats,
}
use go_agent_chat_server.Tool.Calculator.Extract

pub record Result : Type 0 where
  pub name : Text
  pub output : Text

-- (output, err) of a tool's Call: the output, or the text of the error.
pub data Called : Type 0 where
  output : Text → Called
  failed : Text → Called

-- The interface `Tool`; nothing calls its Description.
pub record Tool : Type 0 where
  pub name : Text
  pub should_use : Text → Bool
  pub call : Text → Called

-- The texts of the calculator's errors.
unfoldable pub error_text : Floats → Error → Text
unfolding codes
error_text floats (unexpected_token s) = codes "unexpected token " ++ floats.quote s
error_text floats division_by_zero = codes "division by zero"
error_text floats missing_parenthesis = codes "missing closing parenthesis"
error_text floats number_expected = codes "number expected"
error_text floats no_expression = codes "no arithmetic expression found"
error_text floats (float_error message) = message

-- The last clause is never met: the fuel of the parser is enough.
called : Floats → Outcome Text → Called
unfolding error_text
called floats (ok s) = output s
called floats (err e) = failed (error_text floats e)
called floats out_of_fuel = failed []

unfoldable pub calculator_tool : Floats → Tool
unfolding codes called Extract.should_use Extract.call
calculator_tool floats = record {
  name = codes "calculator";
  should_use = Extract.should_use;
  call = λ input. called floats (Extract.call floats input);
}

unfoldable pub time_keywords : List Text
unfolding codes
time_keywords =
    codes "几点"
    ∷ codes "现在时间"
    ∷ codes "当前时间"
    ∷ codes "日期"
    ∷ codes "today"
    ∷ codes "time"
    ∷ codes "date"
    ∷ []

-- `now` is what the clock reads, formatted.
unfoldable pub time_tool : Text → Tool
unfolding codes time_keywords any to_lower contains
time_tool now = record {
  name = codes "time";
  should_use = λ input. any (contains (to_lower input)) time_keywords;
  call = λ input. output now;
}

-- A `*Registry`: its tools, or nil.
abbrev pub Registry : Type 0
Registry = Option (List Tool)

unfoldable pub new_default_registry : Floats → Text → Registry
unfolding calculator_tool time_tool
new_default_registry floats now = some (calculator_tool floats ∷ time_tool now ∷ [])

abbrev pub shown : Called → Text
shown (output s) = s
shown (failed message) = codes "tool error: " ++ message

-- The loop of RunMatched.
unfoldable pub run_tools : List Tool → Text → List Result
run_tools [] input = []
run_tools (t ∷ tools) input =
    let rest = run_tools tools input in
    if t.should_use input
    then record { name = t.name; output = shown (t.call input) } ∷ rest
    else rest

unfoldable pub run_matched : Registry → Text → List Result
unfolding run_tools
run_matched none input = []
run_matched (some tools) input = run_tools tools input

-- What RunMatched promises of a tool that it runs: its name, and its output, or the error's text
-- behind "tool error: ".
abbrev pub Answers : Text → Tool → Result → Type 0
Answers input t r =
    (r.name ≡ t.name)
    × ((text : Text) → t.call input ≡ output text → r.output ≡ text)
    × ((text : Text) → t.call input ≡ failed text → r.output ≡ codes "tool error: " ++ text)

-- The results of the tools in their order: one of each tool that matches, and none of the others.
pub data Matched (input : Text) : List Tool → List Result → Type 0 where
  end : Matched input [] []
  used :
      {t : Tool} {r : Result} {tools : List Tool} {results : List Result}
      → t.should_use input ≡ true
      → Answers input t r
      → Matched input tools results
      → Matched input (t ∷ tools) (r ∷ results)
  skipped :
      {t : Tool} {tools : List Tool} {results : List Result}
      → t.should_use input ≡ false
      → Matched input tools results
      → Matched input (t ∷ tools) results

shown-Answers :
    (t : Tool) (input : Text)
    → Answers input t (record { name = t.name; output = shown (t.call input) })
shown-Answers t input = (refl, (λ text e. ap shown e), (λ text e. ap shown e))

-- Every tool that matches the input gives one result under its name, in the order of the registry,
-- and a tool that does not match gives none. A failed call does not stop the others: its result is
-- the error's text behind "tool error: ".
pub run_matched-Matched :
    (tools : List Tool) (input : Text) → Matched input tools (run_matched (some tools) input)
unfolding run_matched
run_matched-Matched [] input = end
run_matched-Matched (t ∷ tools) input = elim (Bool-cases (t.should_use input)) [
  | inl use_it ↦ rw use_it (used use_it (shown-Answers t input) (run_matched-Matched tools input))
  | inr skip ↦ rw skip (skipped skip (run_matched-Matched tools input))
]
