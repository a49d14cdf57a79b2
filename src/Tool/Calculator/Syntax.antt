-- ===== src/Tool/Calculator/Syntax.antt =====
-- The grammar of arithmetic expressions, apart from the parser: trees, the texts that stand for them
-- (any number of spaces before a token), and their values from left to right.
use go_agent_chat_server.Base.{
  ℕ, ◌≡◌, Bool, true, false, ◌&&◌, ◌∷◌, [], ◌++◌, leb, ◌==◌, replicate, if◌then◌else◌,
}
use go_agent_chat_server.Base.Text.{Text, is_empty}
use go_agent_chat_server.Tool.Calculator.Results.{
  Outcome, ok, err, bind, Floats, parse_float, division_by_zero,
}

mutual
  -- A term, and what is added to it or subtracted from it.
  pub data Expression : Type 0 where
    expression : Term → Sums → Expression

  pub data Sums : Type 0 where
    no_sums : Sums
    plus : ℕ → Term → Sums → Sums
    minus : ℕ → Term → Sums → Sums

  -- A factor, and what it is multiplied or divided by.
  pub data Term : Type 0 where
    term : Factor → Products → Term

  pub data Products : Type 0 where
    no_products : Products
    times : ℕ → Factor → Products → Products
    over : ℕ → Factor → Products → Products

  pub data Factor : Type 0 where
    positive : ℕ → Factor → Factor
    negative : ℕ → Factor → Factor
    group : ℕ → Expression → ℕ → Factor
    number : ℕ → Text → Factor

abbrev pub spaces : ℕ → Text
spaces k = replicate k b' '

unfoldable mutual
  pub print_expression : Expression → Text → Text
  print_expression (expression t ts) rest = print_term t (print_sums ts rest)

  pub print_sums : Sums → Text → Text
  print_sums no_sums rest = rest
  print_sums (plus k t ts) rest = spaces k ++ b'+' ∷ print_term t (print_sums ts rest)
  print_sums (minus k t ts) rest = spaces k ++ b'-' ∷ print_term t (print_sums ts rest)

  pub print_term : Term → Text → Text
  print_term (term x xs) rest = print_factor x (print_products xs rest)

  pub print_products : Products → Text → Text
  print_products no_products rest = rest
  print_products (times k x xs) rest = spaces k ++ b'*' ∷ print_factor x (print_products xs rest)
  print_products (over k x xs) rest = spaces k ++ b'/' ∷ print_factor x (print_products xs rest)

  -- The text of a tree, with what follows it.
  pub print_factor : Factor → Text → Text
  print_factor (positive k x) rest = spaces k ++ b'+' ∷ print_factor x rest
  print_factor (negative k x) rest = spaces k ++ b'-' ∷ print_factor x rest
  print_factor (group k e l) rest = spaces k ++ b'(' ∷ print_expression e (spaces l ++ b')' ∷ rest)
  print_factor (number k digits) rest = spaces k ++ (digits ++ rest)

-- ASCII digits with at most one point.
abbrev pub AreDigits : Bool → Text → Type 0
AreDigits seen_dot [] = Unit
AreDigits seen_dot (ch ∷ s) =
    if ch == b'.'
    then (seen_dot ≡ false) × AreDigits true s
    else ((leb b'0' ch && leb ch b'9') ≡ true) × AreDigits seen_dot s

-- Every number of the tree is a nonempty text of that kind.
abbrev mutual
  pub NumbersOf : Expression → Type 0
  NumbersOf (expression t ts) = NumbersOfTerm t × NumbersOfSums ts

  pub NumbersOfSums : Sums → Type 0
  NumbersOfSums no_sums = Unit
  NumbersOfSums (plus k t ts) = NumbersOfTerm t × NumbersOfSums ts
  NumbersOfSums (minus k t ts) = NumbersOfTerm t × NumbersOfSums ts

  pub NumbersOfTerm : Term → Type 0
  NumbersOfTerm (term x xs) = NumbersOfFactor x × NumbersOfProducts xs

  pub NumbersOfProducts : Products → Type 0
  NumbersOfProducts no_products = Unit
  NumbersOfProducts (times k x xs) = NumbersOfFactor x × NumbersOfProducts xs
  NumbersOfProducts (over k x xs) = NumbersOfFactor x × NumbersOfProducts xs

  pub NumbersOfFactor : Factor → Type 0
  NumbersOfFactor (positive k x) = NumbersOfFactor x
  NumbersOfFactor (negative k x) = NumbersOfFactor x
  NumbersOfFactor (group k e l) = NumbersOf e
  NumbersOfFactor (number k digits) = (is_empty digits ≡ false) × AreDigits false digits

-- Values: sums and products associate to the left, products come first, and the first error from
-- the left is the result.
module _ (floats : Floats) where
  open floats use {Float, add, sub, mul, div, neg, is_zero}

  abbrev pub checked_div : Float → Float → Outcome Float
  checked_div v w = if is_zero w then err division_by_zero else ok (div v w)

  unfoldable mutual
    pub eval : Expression → Outcome Float
    eval (expression t ts) = bind (eval_term t) (λ v. eval_sums v ts)

    pub eval_sums : Float → Sums → Outcome Float
    eval_sums v no_sums = ok v
    eval_sums v (plus k t ts) = bind (eval_term t) (λ w. eval_sums (add v w) ts)
    eval_sums v (minus k t ts) = bind (eval_term t) (λ w. eval_sums (sub v w) ts)

    pub eval_term : Term → Outcome Float
    eval_term (term x xs) = bind (eval_factor x) (λ v. eval_products v xs)

    pub eval_products : Float → Products → Outcome Float
    eval_products v no_products = ok v
    eval_products v (times k x xs) = bind (eval_factor x) (λ w. eval_products (mul v w) xs)
    eval_products v (over k x xs) =
        bind (eval_factor x) (λ w. bind (checked_div v w) (λ q. eval_products q xs))

    pub eval_factor : Factor → Outcome Float
    eval_factor (positive k x) = eval_factor x
    eval_factor (negative k x) = bind (eval_factor x) (λ v. ok (neg v))
    eval_factor (group k e l) = eval e
    eval_factor (number k digits) = parse_float floats digits
