-- ===== src/Tool/Calculator/Tests.antt =====
-- Runs of the calculator over numbers as floats, and the theorems at them.
use go_agent_chat_server.Base.{◌≡◌, ◌≢◌, refl, [], ◌∷◌, ◌++◌, arith, true}
use go_agent_chat_server.Base.Text.{Text, codes, trim_space}
use go_agent_chat_server.Base.Decimal.{format_uint, digits_value}
use go_agent_chat_server.Tool.Calculator.Results.{ok, err, bind, out_of_fuel, division_by_zero}
use go_agent_chat_server.World.Whole.{whole}
use go_agent_chat_server.Tool.Calculator.{parse, parse_expression}
use go_agent_chat_server.Tool.Calculator.Syntax.{
  Expression, expression, no_sums, plus, term, no_products, times, number, print_expression, eval,
}
use go_agent_chat_server.Tool.Calculator.Fuel.{parse-ne-out_of_fuel}
use go_agent_chat_server.Tool.Calculator.Reading.{parse-print_expression}
use go_agent_chat_server.Tool.Calculator.Extract.{
  extract_expression, should_use, call, ascii_operators, is_expression_rune, contains_operator,
}
use go_agent_chat_server.Tool.Calculator.Found.{call-eval, extract_expression-found}

-- 1 + 2 * 3
abbrev sample : Expression
sample =
    expression (term (number 0 (b'1' ∷ [])) no_products)
      (plus 1 (term (number 1 (b'2' ∷ [])) (times 1 (number 1 (b'3' ∷ [])) no_products)) no_sums)

test_call : call whole (codes "帮我计算 1 + 2 * 3") ≡ ok (codes "1 + 2 * 3 = 7")
unfolding call codes format_uint digits_value parse_expression
test_call = refl

test_division : parse whole (codes "8 / (3-3)") ≡ err division_by_zero
unfolding parse codes digits_value parse_expression
test_division = refl

test_should_use : should_use (codes "帮我计算 1 + 2 * 3") ≡ true
unfolding should_use codes
test_should_use = refl

parse-print_expression_example : parse whole (print_expression sample []) ≡ eval whole sample
parse-print_expression_example = parse-print_expression whole sample (ground arith)

parse-ne-out_of_fuel_example : parse whole (codes "((1") ≢ out_of_fuel
parse-ne-out_of_fuel_example = parse-ne-out_of_fuel whole (codes "((1")

abbrev before : Text
before = codes "帮我计算"

abbrev written : Text
written = codes "1 + 2 × 3"

call-eval_example :
    call whole (before ++ written ++ codes "?")
    ≡ bind
        (eval whole sample)
        (λ v. ok (print_expression sample [] ++ codes " = " ++ format_uint v))
unfolding codes ascii_operators is_expression_rune contains_operator trim_space print_expression
call-eval_example =
    call-eval whole sample before written (codes "?") (ground arith) refl (ground arith)
      (ground arith) (ground arith) refl refl

extract_expression-found_example :
    extract_expression (before ++ written ++ codes "?") ≡ ascii_operators written
unfolding codes ascii_operators is_expression_rune contains_operator trim_space
extract_expression-found_example =
    extract_expression-found before written (codes "?") (ground arith) (ground arith) (ground arith)
      refl refl
