-- ===== src/Tool/Calculator/Fuel.antt =====
-- The parser terminates: the fuel that `parse` gives is never used up.
use go_agent_chat_server.Base.{
  ℕ, zero, suc, ◌+◌, ◌*◌, ◌≤◌, ◌≡◌, ◌≢◌, refl, Bool, true, false, [], ◌∷◌, length, drop,
  if◌then◌else◌, arith, ◌⊎◌, inl, inr,
}
use go_agent_chat_server.Base.Text.{Text, is_empty}
use go_agent_chat_server.Tool.Calculator.Results.{
  Outcome, ok, err, out_of_fuel, bind, Error, Floats, float_error, float_result, parse_float,
  division_by_zero, number_expected, missing_parenthesis,
}
use go_agent_chat_server.Tool.Calculator.{
  skip_spaces, matches, scan_number, parse_number, parse_expression, expression_loop, parse_term,
  term_loop, parse_factor, at_end, parse,
}

-- The run kept within its fuel, and left fewer than `n` bytes if it read a value.
data Within {A : Type 0} (n : ℕ) : Outcome (A × Text) → Type 0 where
  read : (a : A) (rest : Text) → length rest + 1 ≤ n → Within n (ok (a, rest))
  failed : (e : Error) → Within n (err e)

module _ {A : Type 0} {n : ℕ} where
  Within-if :
      (b : Bool) {x y : Outcome (A × Text)}
      → (b ≡ true → Within n x)
      → (b ≡ false → Within n y)
      → Within n (if b then x else y)
  Within-if true hx hy = hx refl
  Within-if false hx hy = hy refl

  Within-bind :
      {B : Type 0} {m : ℕ} {r : Outcome (B × Text)} (f : B × Text → Outcome (A × Text))
      → Within m r
      → ((b : B) (rest : Text) → length rest + 1 ≤ m → Within n (f (b, rest)))
      → Within n (bind r f)
  Within-bind f (read b rest h) k = k b rest h
  Within-bind f (failed e) k = failed e

  Within-le : {m : ℕ} {r : Outcome (A × Text)} → m ≤ n → Within m r → Within n r
  Within-le h (read a rest le) = read a rest (omega arith)
  Within-le h (failed e) = failed e

  Within-guard :
      {B : Type 0} (b : Bool) (e : Error) (v : B) (f : B → Outcome (A × Text))
      → Within n (f v)
      → Within n (bind (if b then err e else ok v) f)
  Within-guard true e v f h = failed e
  Within-guard false e v f h = h

length-skip_spaces : (s : Text) → length (skip_spaces s) ≤ length s
unfolding skip_spaces
length-skip_spaces [] = omega arith
length-skip_spaces (r ∷ s) = ground (arith, length-skip_spaces s)

length-matches : (ch : ℕ) (s : Text) → matches ch s ≡ true → length (drop 1 s) + 1 ≡ length s
unfolding matches
length-matches ch [] h = cc
length-matches ch (r ∷ s) h = omega arith

after_match :
    (ch : ℕ) (s : Text)
    → matches ch (skip_spaces s) ≡ true
    → length (drop 1 (skip_spaces s)) + 1 ≤ length s
after_match ch s p = omega (arith, length-matches ch (skip_spaces s) p, length-skip_spaces s)

length-scan_number :
    (seen : Bool) (s : Text)
    → length (scan_number seen s).0 + length (scan_number seen s).1 ≡ length s
unfolding scan_number
length-scan_number seen [] = omega arith
length-scan_number seen (ch ∷ s) =
    ground (arith, length-scan_number true s, length-scan_number seen s)

nonempty_length : (s : Text) → is_empty s ≡ false → 1 ≤ length s
nonempty_length [] h = cc
nonempty_length (x ∷ s) h = omega arith

float_result-Within :
    {F : Type 0} {n : ℕ} (r : Text ⊎ F) (rest : Text)
    → length rest + 1 ≤ n
    → Within n (bind (float_result r) (λ v. ok (v, rest)))
float_result-Within (inl message) rest h = failed (float_error message)
float_result-Within (inr v) rest h = read v rest h

module _ (floats : Floats) where
  parse_number-Within : (s : Text) → Within (length s) (parse_number floats s)
  unfolding parse_number parse_float
  parse_number-Within s =
      let s' = skip_spaces s in
      let scanned = scan_number false s' in
      Within-if (is_empty scanned.0) (λ _. failed number_expected)
        λ some_digits. float_result-Within (floats.read_float scanned.0) scanned.1 (
          omega (
            arith,
            length-scan_number false s',
            length-skip_spaces s,
            nonempty_length scanned.0 some_digits,
          ))

  mutual
    unfolding parse_expression

    expression-Within :
        (f : ℕ) (s : Text) → 3 * length s + 3 ≤ f → Within (length s) (parse_expression floats f s)
    expression-Within zero s h = absurd (omega arith)
    expression-Within (suc f) s h =
        Within-bind _ (term-Within f s (omega arith))
          λ left s' less. expression_loop-Within f left s' (length s) (omega arith) less

    expression_loop-Within :
        (f : ℕ) (left : floats.Float) (s : Text) (n : ℕ)
        → 3 * length s + 2 ≤ f
        → length s + 1 ≤ n
        → Within n (expression_loop floats f left s)
    expression_loop-Within zero left s n h le = absurd (omega arith)
    expression_loop-Within (suc f) left s n h le =
        let s' = skip_spaces s in
        Within-if (matches b'+' s')
          (λ p.
            let shorter = after_match b'+' s p in
            Within-bind _ (term-Within f (drop 1 s') (omega arith)) λ right t less.
              expression_loop-Within f (floats.add left right) t n (omega arith) (omega arith))
          λ _.
            Within-if (matches b'-' s')
              (λ p.
                let shorter = after_match b'-' s p in
                Within-bind _ (term-Within f (drop 1 s') (omega arith)) λ right t less.
                  expression_loop-Within f (floats.sub left right) t n (omega arith) (omega arith))
              λ _. read left s' (omega (arith, length-skip_spaces s))

    term-Within :
        (f : ℕ) (s : Text) → 3 * length s + 2 ≤ f → Within (length s) (parse_term floats f s)
    term-Within zero s h = absurd (omega arith)
    term-Within (suc f) s h =
        Within-bind _ (factor-Within f s (omega arith))
          λ left s' less. term_loop-Within f left s' (length s) (omega arith) less

    term_loop-Within :
        (f : ℕ) (left : floats.Float) (s : Text) (n : ℕ)
        → 3 * length s + 1 ≤ f
        → length s + 1 ≤ n
        → Within n (term_loop floats f left s)
    term_loop-Within zero left s n h le = absurd (omega arith)
    term_loop-Within (suc f) left s n h le =
        let s' = skip_spaces s in
        Within-if (matches b'*' s')
          (λ p.
            let shorter = after_match b'*' s p in
            Within-bind _ (factor-Within f (drop 1 s') (omega arith)) λ right t less.
              term_loop-Within f (floats.mul left right) t n (omega arith) (omega arith))
          λ _.
            Within-if (matches b'/' s')
              (λ p.
                let shorter = after_match b'/' s p in
                Within-bind _ (factor-Within f (drop 1 s') (omega arith)) λ right t less.
                  Within-guard (floats.is_zero right) division_by_zero (floats.div left right) _
                    (term_loop-Within f (floats.div left right) t n (omega arith) (omega arith)))
              λ _. read left s' (omega (arith, length-skip_spaces s))

    factor-Within :
        (f : ℕ) (s : Text) → 3 * length s + 1 ≤ f → Within (length s) (parse_factor floats f s)
    factor-Within zero s h = absurd (omega arith)
    factor-Within (suc f) s h =
        let s' = skip_spaces s in
        Within-if (matches b'+' s')
          (λ p.
            let shorter = after_match b'+' s p in
            Within-le (omega arith) (factor-Within f (drop 1 s') (omega arith)))
          λ _.
            Within-if (matches b'-' s')
              (λ p.
                let shorter = after_match b'-' s p in
                Within-bind _ (factor-Within f (drop 1 s') (omega arith))
                  λ v t less. read (floats.neg v) t (omega arith))
              λ _.
                Within-if (matches b'(' s')
                  (λ p.
                    let shorter = after_match b'(' s p in
                    Within-bind _ (expression-Within f (drop 1 s') (omega arith)) λ v t less.
                      Within-if (matches b')' (skip_spaces t))
                        (λ q.
                          let closed = after_match b')' t q in
                          read v (drop 1 (skip_spaces t)) (omega arith))
                        λ _. failed missing_parenthesis)
                  λ _. Within-le (length-skip_spaces s) (parse_number-Within s')

  at_end-total :
      {n : ℕ} (r : Outcome (floats.Float × Text))
      → Within n r
      → bind r (at_end floats) ≢ out_of_fuel
  unfolding at_end
  at_end-total r (read v s h) = ground arith
  at_end-total r (failed e) = cc

  -- On every input the parser ends with a value or an error: the fuel that the model gives it is
  -- enough.
  pub parse-ne-out_of_fuel : (s : Text) → parse floats s ≢ out_of_fuel
  unfolding parse
  parse-ne-out_of_fuel s = at_end-total _ (expression-Within (3 * length s + 4) s (omega arith))
