-- ===== src/Tool/Calculator/Printing.antt =====
-- Facts about printed trees: what may follow each part, how its parts are scanned, and its length.
use mathlib.Core.Bool.{not}
use go_agent_chat_server.Base.{
  ℕ, zero, suc, ◌+◌, ◌≤◌, ◌≡◌, refl, Bool, true, false, ◌&&◌, [], ◌∷◌, ◌++◌, length, leb, ◌==◌,
  arith, Bool-cases, inl, inr, ap, length-append,
}
use go_agent_chat_server.Base.Text.{Text}
use go_agent_chat_server.Tool.Calculator.Results.{Outcome, ok, err, out_of_fuel, bind}
use go_agent_chat_server.Tool.Calculator.{skip_spaces, matches, scan_number}
use go_agent_chat_server.Tool.Calculator.Syntax.{
  Expression, Sums, Term, Products, Factor, expression, no_sums, plus, minus, term, no_products,
  times, over, positive, negative, group, number, spaces, print_expression, print_sums, print_term,
  print_products, print_factor, AreDigits, NumbersOf, NumbersOfSums, NumbersOfTerm,
  NumbersOfProducts, NumbersOfFactor,
}

-- What may follow a number, a term and an expression.
abbrev pub ends_number : Text → Bool
ends_number [] = true
ends_number (ch ∷ s) = not (ch == b'.') && not (leb b'0' ch && leb ch b'9')

pub record EndsTerm (s : Text) : Type 0 where
  pub number : ends_number s ≡ true
  pub no_times : matches b'*' (skip_spaces s) ≡ false
  pub no_over : matches b'/' (skip_spaces s) ≡ false

pub record EndsExpression (s : Text) : Type 0 where
  pub term : EndsTerm s
  pub no_plus : matches b'+' (skip_spaces s) ≡ false
  pub no_minus : matches b'-' (skip_spaces s) ≡ false

pub skip_spaces-spaces :
    (k ch : ℕ) (s : Text) → (ch == b' ') ≡ false → skip_spaces (spaces k ++ ch ∷ s) ≡ ch ∷ s
unfolding skip_spaces
skip_spaces-spaces zero ch s h = rw h
skip_spaces-spaces (suc k) ch s h = skip_spaces-spaces k ch s h

ends_number-spaces :
    (k ch : ℕ) (s : Text) → ends_number (ch ∷ s) ≡ true → ends_number (spaces k ++ ch ∷ s) ≡ true
ends_number-spaces zero ch s h = h
ends_number-spaces (suc k) ch s h = refl

-- A closing parenthesis ends an expression, and so does the end of the text.
pub EndsExpression-close : (k : ℕ) (s : Text) → EndsExpression (spaces k ++ b')' ∷ s)
unfolding matches
EndsExpression-close k s =
    let skip = skip_spaces-spaces k b')' s refl in
    record {
      term = record {
        number = ends_number-spaces k b')' s refl;
        no_times = rw skip;
        no_over = rw skip;
      };
      no_plus = rw skip;
      no_minus = rw skip;
    }

pub EndsExpression-nil : EndsExpression []
unfolding matches skip_spaces
EndsExpression-nil = record {
  term = record { number = refl; no_times = refl; no_over = refl };
  no_plus = refl;
  no_minus = refl;
}

pub ends_number-products :
    (xs : Products) (rest : Text)
    → ends_number rest ≡ true
    → ends_number (print_products xs rest) ≡ true
unfolding print_products
ends_number-products no_products rest h = h
ends_number-products (times k x xs) rest h = ends_number-spaces k b'*' _ refl
ends_number-products (over k x xs) rest h = ends_number-spaces k b'/' _ refl

EndsTerm-at :
    (k ch : ℕ) (s : Text)
    → (ch == b' ') ≡ false
    → ends_number (ch ∷ s) ≡ true
    → (ch == b'*') ≡ false
    → (ch == b'/') ≡ false
    → EndsTerm (spaces k ++ ch ∷ s)
unfolding matches
EndsTerm-at k ch s blank stop t o =
    let skip = skip_spaces-spaces k ch s blank in
    record {
      number = ends_number-spaces k ch s stop;
      no_times = rw (skip, matches) t;
      no_over = rw (skip, matches) o;
    }

pub EndsTerm-sums : (ts : Sums) (rest : Text) → EndsTerm rest → EndsTerm (print_sums ts rest)
unfolding print_sums
EndsTerm-sums no_sums rest h = h
EndsTerm-sums (plus k t ts) rest h = EndsTerm-at k b'+' _ refl refl refl refl
EndsTerm-sums (minus k t ts) rest h = EndsTerm-at k b'-' _ refl refl refl refl

-- A scan takes the digits and stops behind them.
pub scan_number-digits :
    (seen : Bool) (digits rest : Text)
    → AreDigits seen digits
    → ends_number rest ≡ true
    → scan_number seen (digits ++ rest) ≡ (digits, rest)
unfolding scan_number
scan_number-digits seen [] [] h e = refl
scan_number-digits seen [] (ch ∷ rest) h e = ground arith
scan_number-digits seen (ch ∷ digits) rest h e = elim (Bool-cases (ch == b'.')) [
  | inl dot ↦
      let (once, more) = rw dot at h in
      rw (dot, once)
        (ap (λ (r : Text × Text). (ch ∷ r.0, r.1)) (scan_number-digits true digits rest more e))
  | inr digit ↦
      let (is, more) = rw digit at h in
      rw (digit, is)
        (ap (λ (r : Text × Text). (ch ∷ r.0, r.1)) (scan_number-digits seen digits rest more e))
]

-- The first byte of a number is none of the bytes that parseFactor tests for.
pub first_digit :
    (d : ℕ) (ds : Text)
    → AreDigits false (d ∷ ds)
    → ((d == b' ') ≡ false) × ((d == b'+') ≡ false) × ((d == b'-') ≡ false) × ((d == b'(') ≡ false)
first_digit d ds h = elim (Bool-cases (d == b'.')) [
  | inl dot ↦ ground arith
  | inr digit ↦ let (is, more) = rw digit at h in ground arith
]

-- A value with the rest of the text behind it.
abbrev pub attach : {F : Type 0} → Outcome F → Text → Outcome (F × Text)
attach r s = bind r (λ v. ok (v, s))

pub attach-bind :
    {F G : Type 0} (r : Outcome F) (s t : Text) (g : F × Text → Outcome (G × Text))
    (k : F → Outcome G)
    → ((w : F) → g (w, s) ≡ attach (k w) t)
    → bind (attach r s) g ≡ attach (bind r k) t
attach-bind (ok v) s t g k h = h v
attach-bind (err e) s t g k h = refl
attach-bind out_of_fuel s t g k h = refl

length-append_text : (xs ys : Text) → length (xs ++ ys) ≡ length xs + length ys
length-append_text = length-append

pub length-after : (k ch : ℕ) (s : Text) → length s + 1 ≤ length (spaces k ++ ch ∷ s)
length-after k ch s = omega (arith, length-append_text (spaces k) (ch ∷ s))

-- A printed number takes at least one byte, so a printed factor or term does.
mutual
  unfolding print_factor

  pub length-print_factor :
      (x : Factor) (rest : Text)
      → NumbersOfFactor x
      → length rest + 1 ≤ length (print_factor x rest)
  length-print_factor (positive k x) rest h = omega (
    arith,
    length-append_text (spaces k) (b'+' ∷ print_factor x rest),
    length-print_factor x rest h,
  )
  length-print_factor (negative k x) rest h = omega (
    arith,
    length-append_text (spaces k) (b'-' ∷ print_factor x rest),
    length-print_factor x rest h,
  )
  length-print_factor (group k e l) rest h = omega (
    arith,
    length-append_text (spaces k) (b'(' ∷ print_expression e (spaces l ++ b')' ∷ rest)),
    length-print_expression e (spaces l ++ b')' ∷ rest) h,
    length-append_text (spaces l) (b')' ∷ rest),
  )
  length-print_factor (number k []) rest h = cc (h.0)
  length-print_factor (number k (d ∷ ds)) rest h =
      omega (arith, length-append_text (spaces k) (d ∷ ds ++ rest), length-append_text ds rest)

  pub length-print_expression :
      (e : Expression) (rest : Text)
      → NumbersOf e
      → length rest + 1 ≤ length (print_expression e rest)
  length-print_expression (expression t ts) rest h =
      omega (arith, length-print_term t (print_sums ts rest) h.0, length-print_sums ts rest h.1)

  pub length-print_term :
      (t : Term) (rest : Text) → NumbersOfTerm t → length rest + 1 ≤ length (print_term t rest)
  length-print_term (term x xs) rest h =
      omega (
        arith,
        length-print_factor x (print_products xs rest) h.0,
        length-print_products xs rest h.1,
      )

  pub length-print_sums :
      (ts : Sums) (rest : Text) → NumbersOfSums ts → length rest ≤ length (print_sums ts rest)
  length-print_sums no_sums rest h = omega arith
  length-print_sums (plus k t ts) rest h = omega (
    arith,
    length-append_text (spaces k) (b'+' ∷ print_term t (print_sums ts rest)),
    length-print_term t (print_sums ts rest) h.0,
    length-print_sums ts rest h.1,
  )
  length-print_sums (minus k t ts) rest h = omega (
    arith,
    length-append_text (spaces k) (b'-' ∷ print_term t (print_sums ts rest)),
    length-print_term t (print_sums ts rest) h.0,
    length-print_sums ts rest h.1,
  )

  pub length-print_products :
      (xs : Products) (rest : Text)
      → NumbersOfProducts xs
      → length rest ≤ length (print_products xs rest)
  length-print_products no_products rest h = omega arith
  length-print_products (times k x xs) rest h = omega (
    arith,
    length-append_text (spaces k) (b'*' ∷ print_factor x (print_products xs rest)),
    length-print_factor x (print_products xs rest) h.0,
    length-print_products xs rest h.1,
  )
  length-print_products (over k x xs) rest h = omega (
    arith,
    length-append_text (spaces k) (b'/' ∷ print_factor x (print_products xs rest)),
    length-print_factor x (print_products xs rest) h.0,
    length-print_products xs rest h.1,
  )
