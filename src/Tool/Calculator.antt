-- ===== src/Tool/Calculator.antt =====
-- internal/tool/calculator.go: the expression parser. It reads bytes; every byte that it accepts is
-- ASCII, so reading runes gives the same values and errors. A parser's state is the rest of its text,
-- `p.s[p.pos:]`. float64 and the formatting of values are a parameter.
pub mod Results
pub mod Syntax
pub mod Fuel
pub mod Printing
pub mod Reading
pub mod Extract
pub mod Found
mod Tests
use go_agent_chat_server.Base.{
  ℕ, zero, suc, ◌+◌, ◌*◌, Bool, true, false, ◌&&◌, ◌||◌, not, ◌∷◌, [], length, leb, ◌==◌, drop,
  if◌then◌else◌,
}
use go_agent_chat_server.Base.Text.{Text, is_empty}
use Results.{
  Outcome, ok, err, out_of_fuel, bind, Error, unexpected_token, division_by_zero,
  missing_parenthesis, number_expected, Floats, parse_float,
}

unfoldable pub skip_spaces : Text → Text
skip_spaces [] = []
skip_spaces (r ∷ s) = let rest = skip_spaces s in if r == b' ' then rest else r ∷ s

-- Does `match(ch)` succeed? It then moves past one byte.
unfoldable pub matches : ℕ → Text → Bool
matches ch [] = false
matches ch (r ∷ s) = r == ch

-- The loop of parseNumber: the bytes passed over and the rest.
unfoldable pub scan_number : Bool → Text → Text × Text
scan_number seen_dot [] = ([], [])
scan_number seen_dot (ch ∷ s) =
    let dot = scan_number true s in
    let digit = scan_number seen_dot s in
    if ch == b'.' && not seen_dot
    then (ch ∷ dot.0, dot.1)
    else if not (leb b'0' ch && leb ch b'9')
    then ([], ch ∷ s)
    else (ch ∷ digit.0, digit.1)

module _ (floats : Floats) where
  open floats use {Float, add, sub, mul, div, neg, is_zero}

  unfoldable pub parse_number : Text → Outcome (Float × Text)
  unfolding scan_number skip_spaces parse_float
  parse_number s =
      let (digits, rest) = scan_number false (skip_spaces s) in
      if is_empty digits
      then err number_expected
      else bind (parse_float floats digits) (λ v. ok (v, rest))

  -- The check of the divisor comes after it is read and before the division.
  abbrev divide : Float → Float → Outcome Float
  divide left right = if is_zero right then err division_by_zero else ok (div left right)

  unfoldable mutual
    unfolding parse_number skip_spaces matches

    pub parse_expression : ℕ → Text → Outcome (Float × Text)
    parse_expression zero s = out_of_fuel
    parse_expression (suc f) s = bind (parse_term f s) (λ (left, s'). expression_loop f left s')

    -- for { … } of parseExpression
    pub expression_loop : ℕ → Float → Text → Outcome (Float × Text)
    expression_loop zero left s = out_of_fuel
    expression_loop (suc f) left s =
        let s' = skip_spaces s in
        let plus =
          bind (parse_term f (drop 1 s')) (λ (right, t). expression_loop f (add left right) t) in
        let minus =
          bind (parse_term f (drop 1 s')) (λ (right, t). expression_loop f (sub left right) t) in
        if matches b'+' s' then plus else if matches b'-' s' then minus else ok (left, s')

    pub parse_term : ℕ → Text → Outcome (Float × Text)
    parse_term zero s = out_of_fuel
    parse_term (suc f) s = bind (parse_factor f s) (λ (left, s'). term_loop f left s')

    -- for { … } of parseTerm
    pub term_loop : ℕ → Float → Text → Outcome (Float × Text)
    term_loop zero left s = out_of_fuel
    term_loop (suc f) left s =
        let s' = skip_spaces s in
        let times =
          bind (parse_factor f (drop 1 s')) (λ (right, t). term_loop f (mul left right) t) in
        let over =
          bind (parse_factor f (drop 1 s'))
            (λ (right, t). bind (divide left right) (λ v. term_loop f v t)) in
        if matches b'*' s' then times else if matches b'/' s' then over else ok (left, s')

    pub parse_factor : ℕ → Text → Outcome (Float × Text)
    parse_factor zero s = out_of_fuel
    parse_factor (suc f) s =
        let s' = skip_spaces s in
        let positive = parse_factor f (drop 1 s') in
        let negative = bind (parse_factor f (drop 1 s')) (λ (v, t). ok (neg v, t)) in
        let group = bind (parse_expression f (drop 1 s')) (λ (v, t).
          let t' = skip_spaces t in
          if matches b')' t' then ok (v, drop 1 t') else err missing_parenthesis) in
        if matches b'+' s'
        then positive
        else if matches b'-' s'
        then negative
        else if matches b'(' s'
        then group
        else parse_number s'

  -- What follows parseExpression in `parse`.
  at_end : Float × Text → Outcome Float
  at_end (v, s) = let s' = skip_spaces s in if is_empty s' then ok v else err (unexpected_token s')

  unfoldable pub parse : Text → Outcome Float
  unfolding at_end
  parse s = bind (parse_expression (3 * length s + 4) s) at_end
