-- ===== src/Tool/Calculator/Extract.antt =====
-- internal/tool/calculator.go: when the tool is used, and how it finds its expression.
use go_agent_chat_server.Base.{
  ℕ, Bool, true, ◌&&◌, ◌||◌, ltb, ◌==◌, if◌then◌else◌, any, [], ◌∷◌, ◌++◌, map,
}
use go_agent_chat_server.Base.Text.{
  Text, codes, is_empty, trim_space, to_lower, contains, contains_rune, contains_any, byte_len,
  is_digit,
}
use go_agent_chat_server.Tool.Calculator.Results.{Outcome, ok, err, bind, no_expression, Floats}
use go_agent_chat_server.Tool.Calculator.{parse}

unfoldable pub should_use : Text → Bool
unfolding contains to_lower any is_digit contains_rune codes
should_use input =
    let text = to_lower input in
    if contains text (codes "计算")
      || contains text (codes "calculate")
      || contains text (codes "calculator")
    then true
    else any is_digit text && any (contains_rune (codes "+-*/×÷")) text

unfoldable pub contains_operator : Text → Bool
unfolding contains_any codes
contains_operator s = contains_any s (codes "+-*/")

-- strings.ReplaceAll of one rune by another
abbrev replace_rune : ℕ → ℕ → Text → Text
replace_rune old new = map (λ r. if r == old then new else r)

-- The runes that an expression is made of.
unfoldable pub is_expression_rune : ℕ → Bool
unfolding is_digit contains_rune codes
is_expression_rune r = is_digit r || contains_rune (codes "+-*/(). ") r

-- The closure `flush`: the new value of `best`.
unfoldable pub flush : Text → Text → Text
unfolding contains_operator trim_space byte_len
flush best current =
    let candidate = trim_space current in
    if ltb (byte_len best) (byte_len candidate) && contains_operator candidate
    then candidate
    else best

-- The loop over the input; the last clause is the `flush()` behind it.
unfoldable pub extract_loop : Text → Text → Text → Text
unfolding flush is_expression_rune
extract_loop best current [] = flush best current
extract_loop best current (r ∷ s) =
    let longer = extract_loop best (current ++ r ∷ []) s in
    let next = extract_loop (flush best current) [] s in
    if is_expression_rune r then longer else next

-- × and ÷ written as * and /.
unfoldable pub ascii_operators : Text → Text
ascii_operators input = replace_rune 0xf7 b'/' (replace_rune 0xd7 b'*' input)

unfoldable pub extract_expression : Text → Text
unfolding extract_loop trim_space ascii_operators
extract_expression input = trim_space (extract_loop [] [] (ascii_operators input))

module _ (floats : Floats) where
  -- Call: the value behind its expression, as `%s = %g`.
  unfoldable pub call : Text → Outcome Text
  unfolding extract_expression parse codes
  call input =
      let expr = extract_expression input in
      if is_empty expr
      then err no_expression
      else bind (parse floats expr) (λ v. ok (expr ++ codes " = " ++ floats.show_float v))
