-- ===== src/Tool/Calculator/Reading.antt =====
-- The parser reads the text of every tree with the tree's value: precedence, left associativity and
-- the order of errors are those of the grammar.
use go_agent_chat_server.Base.{
  ℕ, zero, suc, ◌+◌, ◌*◌, ◌≤◌, ◌≡◌, refl, true, false, [], ◌∷◌, ◌++◌, length, ◌==◌, arith,
  Bool-cases, inl, inr, ap, ◌∙◌,
}
use go_agent_chat_server.Base.Text.{Text}
use go_agent_chat_server.Tool.Calculator.Results.{
  Outcome, ok, err, out_of_fuel, bind, Floats, parse_float,
}
use go_agent_chat_server.Tool.Calculator.{
  skip_spaces, parse_expression, expression_loop, parse_term, term_loop, parse_factor, divide,
  at_end, parse,
}
use go_agent_chat_server.Tool.Calculator.Printing.{
  EndsTerm, EndsExpression, EndsExpression-close, EndsExpression-nil, ends_number,
  ends_number-products, EndsTerm-sums, skip_spaces-spaces, scan_number-digits, first_digit, attach,
  attach-bind, length-after, length-print_factor, length-print_term,
}
use go_agent_chat_server.Tool.Calculator.Syntax.{
  Expression, Sums, Term, Products, Factor, expression, no_sums, plus, minus, term, no_products,
  times, over, positive, negative, group, number, spaces, print_expression, print_sums, print_term,
  print_products, print_factor, AreDigits, NumbersOf, NumbersOfSums, NumbersOfTerm,
  NumbersOfProducts, NumbersOfFactor, eval, eval_sums, eval_term, eval_products, eval_factor,
}

skip_spaces_idem : (s : Text) → skip_spaces (skip_spaces s) ≡ skip_spaces s
unfolding skip_spaces
skip_spaces_idem [] = refl
skip_spaces_idem (r ∷ s) = elim (Bool-cases (r == b' ')) [
  | inl blank ↦ rw blank (skip_spaces_idem s)
  | inr other ↦ rw (other, skip_spaces, other)
]

bind-ok : {F : Type 0} (r : Outcome F) → bind r ok ≡ r
bind-ok (ok v) = refl
bind-ok (err e) = refl
bind-ok out_of_fuel = refl

bind-attach :
    {F G : Type 0} (r : Outcome F) (g : F → Outcome (G × Text)) (k : F → Outcome G) (t : Text)
    → ((q : F) → g q ≡ attach (k q) t)
    → bind r g ≡ attach (bind r k) t
bind-attach (ok v) g k t h = h v
bind-attach (err e) g k t h = refl
bind-attach out_of_fuel g k t h = refl

module _ (floats : Floats) where
  -- A number is read at once.
  number-reads :
      (f k d : ℕ) (ds rest : Text)
      → AreDigits false (d ∷ ds)
      → ends_number rest ≡ true
      → parse_factor floats (suc f) (spaces k ++ (d ∷ ds ++ rest))
        ≡ attach (parse_float floats (d ∷ ds)) rest
  unfolding parse_factor
  number-reads f k d ds rest h e =
      let (blank, p, m, o) = first_digit d ds h in
      rw (
        skip_spaces-spaces k d (ds ++ rest) blank,
        p,
        m,
        o,
        skip_spaces-spaces 0 d (ds ++ rest) blank,
        scan_number-digits false (d ∷ ds) rest h e,
      )

  mutual
    unfolding print_factor parse_expression eval

    factor-reads :
        (x : Factor) (rest : Text) (f : ℕ)
        → NumbersOfFactor x
        → ends_number rest ≡ true
        → 3 * length (print_factor x rest) + 1 ≤ f
        → parse_factor floats f (print_factor x rest) ≡ attach (eval_factor floats x) rest
    factor-reads x rest zero h e le = absurd (omega arith)
    factor-reads (positive k x) rest (suc f) h e le =
        let shorter = length-after k b'+' (print_factor x rest) in
        rw (skip_spaces-spaces k b'+' (print_factor x rest) refl)
          (factor-reads x rest f h e (omega arith))
    factor-reads (negative k x) rest (suc f) h e le =
        let shorter = length-after k b'-' (print_factor x rest) in
        rw (skip_spaces-spaces k b'-' (print_factor x rest) refl) (
          rw (factor-reads x rest f h e (omega arith))
            (attach-bind (eval_factor floats x) rest rest _ (λ v. ok (floats.neg v)) (λ v. refl)))
    factor-reads (group k x l) rest (suc f) h e le =
        let closing = spaces l ++ b')' ∷ rest in
        let shorter = length-after k b'(' (print_expression x closing) in
        let stop = skip_spaces-spaces l b')' rest refl in
        rw (skip_spaces-spaces k b'(' (print_expression x closing) refl) (
          rw (expression-reads x closing f h (EndsExpression-close l rest) (omega arith), stop)
            (attach-bind (eval floats x) (b')' ∷ rest) rest _ ok (λ v. refl)
              ∙ ap (λ (r : Outcome floats.Float). attach r rest) (bind-ok (eval floats x))))
    factor-reads (number k []) rest (suc f) h e le = cc (h.0)
    factor-reads (number k (d ∷ ds)) rest (suc f) h e le = number-reads f k d ds rest h.1 e

    expression-reads :
        (x : Expression) (rest : Text) (f : ℕ)
        → NumbersOf x
        → EndsExpression rest
        → 3 * length (print_expression x rest) + 3 ≤ f
        → parse_expression floats f (print_expression x rest)
          ≡ attach (eval floats x) (skip_spaces rest)
    expression-reads x rest zero h e le = absurd (omega arith)
    expression-reads (expression t ts) rest (suc f) h e le =
        let shorter = length-print_term t (print_sums ts rest) h.0 in
        rw (term-reads t (print_sums ts rest) f h.0 (EndsTerm-sums ts rest e.term) (omega arith)) (
          attach-bind (eval_term floats t) (skip_spaces (print_sums ts rest)) (skip_spaces rest) _
            (λ v. eval_sums floats v ts) λ v. sums-reads ts v rest f h.1 e (omega arith))

    -- The loop gets the text from which the term has already taken the spaces.
    sums-reads :
        (ts : Sums) (v : floats.Float) (rest : Text) (f : ℕ)
        → NumbersOfSums ts
        → EndsExpression rest
        → 3 * length (print_sums ts rest) + 2 ≤ f
        → expression_loop floats f v (skip_spaces (print_sums ts rest))
          ≡ attach (eval_sums floats v ts) (skip_spaces rest)
    sums-reads ts v rest zero h e le = absurd (omega arith)
    sums-reads no_sums v rest (suc f) h e le = rw (skip_spaces_idem rest, e.no_plus, e.no_minus)
    sums-reads (plus k t ts) v rest (suc f) h e le =
        let more = print_term t (print_sums ts rest) in
        let shorter = length-after k b'+' more in
        let shorter' = length-print_term t (print_sums ts rest) h.0 in
        rw (skip_spaces-spaces k b'+' more refl) (
          rw (term-reads t (print_sums ts rest) f h.0 (EndsTerm-sums ts rest e.term) (omega arith))
            (attach-bind (eval_term floats t) (skip_spaces (print_sums ts rest)) (skip_spaces rest)
              _ (λ w. eval_sums floats (floats.add v w) ts)
              λ w. sums-reads ts (floats.add v w) rest f h.1 e (omega arith)))
    sums-reads (minus k t ts) v rest (suc f) h e le =
        let more = print_term t (print_sums ts rest) in
        let shorter = length-after k b'-' more in
        let shorter' = length-print_term t (print_sums ts rest) h.0 in
        rw (skip_spaces-spaces k b'-' more refl) (
          rw (term-reads t (print_sums ts rest) f h.0 (EndsTerm-sums ts rest e.term) (omega arith))
            (attach-bind (eval_term floats t) (skip_spaces (print_sums ts rest)) (skip_spaces rest)
              _ (λ w. eval_sums floats (floats.sub v w) ts)
              λ w. sums-reads ts (floats.sub v w) rest f h.1 e (omega arith)))

    term-reads :
        (x : Term) (rest : Text) (f : ℕ)
        → NumbersOfTerm x
        → EndsTerm rest
        → 3 * length (print_term x rest) + 2 ≤ f
        → parse_term floats f (print_term x rest) ≡ attach (eval_term floats x) (skip_spaces rest)
    term-reads x rest zero h e le = absurd (omega arith)
    term-reads (term x xs) rest (suc f) h e le =
        let shorter = length-print_factor x (print_products xs rest) h.0 in
        rw
          (factor-reads x (print_products xs rest) f h.0 (ends_number-products xs rest e.number)
            (omega arith))
          (attach-bind (eval_factor floats x) (print_products xs rest) (skip_spaces rest) _
            (λ v. eval_products floats v xs) λ v. products-reads xs v rest f h.1 e (omega arith))

    products-reads :
        (xs : Products) (v : floats.Float) (rest : Text) (f : ℕ)
        → NumbersOfProducts xs
        → EndsTerm rest
        → 3 * length (print_products xs rest) + 1 ≤ f
        → term_loop floats f v (print_products xs rest)
          ≡ attach (eval_products floats v xs) (skip_spaces rest)
    products-reads xs v rest zero h e le = absurd (omega arith)
    products-reads no_products v rest (suc f) h e le = rw (e.no_times, e.no_over)
    products-reads (times k x xs) v rest (suc f) h e le =
        let more = print_factor x (print_products xs rest) in
        let shorter = length-after k b'*' more in
        let shorter' = length-print_factor x (print_products xs rest) h.0 in
        rw (skip_spaces-spaces k b'*' more refl) (
          rw
            (factor-reads x (print_products xs rest) f h.0 (ends_number-products xs rest e.number)
              (omega arith))
            (attach-bind (eval_factor floats x) (print_products xs rest) (skip_spaces rest) _
              (λ w. eval_products floats (floats.mul v w) xs)
              λ w. products-reads xs (floats.mul v w) rest f h.1 e (omega arith)))
    products-reads (over k x xs) v rest (suc f) h e le =
        let more = print_factor x (print_products xs rest) in
        let shorter = length-after k b'/' more in
        let shorter' = length-print_factor x (print_products xs rest) h.0 in
        rw (skip_spaces-spaces k b'/' more refl) (
          rw
            (factor-reads x (print_products xs rest) f h.0 (ends_number-products xs rest e.number)
              (omega arith))
            (attach-bind (eval_factor floats x) (print_products xs rest) (skip_spaces rest) _
              (λ w. bind (divide floats v w) (λ q. eval_products floats q xs))
              λ w.
                bind-attach (divide floats v w) _ (λ q. eval_products floats q xs)
                  (skip_spaces rest) λ q. products-reads xs q rest f h.1 e (omega arith)))

  at_end-attach : (r : Outcome floats.Float) → bind (attach r []) (at_end floats) ≡ r
  unfolding at_end skip_spaces
  at_end-attach (ok v) = refl
  at_end-attach (err e) = refl
  at_end-attach out_of_fuel = refl

  -- The text of an expression tree, with any spaces before its tokens, parses to the value of the tree
  -- or to its first error: `*` and `/` bind tighter than `+` and `-`, each associates to the left, and
  -- a division by zero is reported. The numbers of the tree are nonempty digits with at most one point.
  pub parse-print_expression :
      (x : Expression) → NumbersOf x → parse floats (print_expression x []) ≡ eval floats x
  unfolding parse skip_spaces
  parse-print_expression x h =
      rw
        (expression-reads x [] (3 * length (print_expression x []) + 4) h EndsExpression-nil
          (omega arith))
        (at_end-attach (eval floats x))
