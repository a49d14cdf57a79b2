-- ===== src/Tool/Calculator/Found.antt =====
-- An expression inside other text is found and evaluated.
use mathlib.Core.List.{map-append}
use go_agent_chat_server.Base.{
  ℕ, ◌≡◌, refl, true, false, ltb, [], ◌∷◌, ◌++◌, All, arith, append_assoc, append-nil, sym, ap, ◌∙◌,
  any,
}
use go_agent_chat_server.Base.Text.{Text, codes, trim_space, byte_len, is_empty}
use go_agent_chat_server.Tool.Calculator.Results.{ok, bind, Floats}
use go_agent_chat_server.Tool.Calculator.Extract.{
  flush, is_expression_rune, contains_operator, extract_loop, ascii_operators, extract_expression,
  call,
}
use go_agent_chat_server.Tool.Calculator.Syntax.{Expression, NumbersOf, print_expression, eval}
use go_agent_chat_server.Tool.Calculator.Reading.{parse-print_expression}

-- Runes that can stand in an expression, and runes that cannot.
abbrev pub AreInside : Text → Type 0
AreInside = All (λ r. is_expression_rune r ≡ true)

abbrev pub AreOutside : Text → Type 0
AreOutside = All (λ r. is_expression_rune r ≡ false)

flush-nil : (best : Text) → flush best [] ≡ best
unfolding flush
flush-nil best = ground arith

loop_in :
    (best current : Text) (r : ℕ) (s : Text)
    → is_expression_rune r ≡ true
    → extract_loop best current (r ∷ s) ≡ extract_loop best (current ++ r ∷ []) s
unfolding extract_loop
loop_in best current r s h = rw h

loop_out :
    (best current : Text) (r : ℕ) (s : Text)
    → is_expression_rune r ≡ false
    → extract_loop best current (r ∷ s) ≡ extract_loop (flush best current) [] s
unfolding extract_loop
loop_out best current r s h = rw h

loop_end : (best current : Text) → extract_loop best current [] ≡ flush best current
unfolding extract_loop
loop_end best current = refl

extract_loop-inside :
    (best current expr s : Text)
    → AreInside expr
    → extract_loop best current (expr ++ s) ≡ extract_loop best (current ++ expr) s
extract_loop-inside best current [] s h = rw append-nil
extract_loop-inside best current (r ∷ expr) s h =
    loop_in best current r (expr ++ s) h.0
    ∙ extract_loop-inside best (current ++ r ∷ []) expr s h.1
    ∙ ap (λ (c : Text). extract_loop best c s) (append_assoc current (r ∷ []) expr)

extract_loop-outside :
    (best pre s : Text) → AreOutside pre → extract_loop best [] (pre ++ s) ≡ extract_loop best [] s
extract_loop-outside best [] s h = refl
extract_loop-outside best (r ∷ pre) s h =
    loop_out best [] r (pre ++ s) h.0
    ∙ ap (λ (b : Text). extract_loop b [] (pre ++ s)) (flush-nil best)
    ∙ extract_loop-outside best pre s h.1

-- The end of the text or a rune outside ends the run that has been read.
extract_loop-end :
    (current post : Text) → AreOutside post → extract_loop [] current post ≡ flush [] current
extract_loop-end current [] h = loop_end [] current
extract_loop-end current (r ∷ post) h =
    loop_out [] current r post h.0
    ∙ ap (λ (t : Text). extract_loop (flush [] current) [] t) (sym (append-nil post))
    ∙ extract_loop-outside (flush [] current) post [] h.1
    ∙ loop_end (flush [] current) []
    ∙ flush-nil (flush [] current)

flush-first :
    (expr : Text) → trim_space expr ≡ expr → contains_operator expr ≡ true → flush [] expr ≡ expr
unfolding flush
flush-first [] t h = ground arith
flush-first (r ∷ expr) t h = rw (t, h, fits)
  where
    fits : ltb (byte_len []) (byte_len (r ∷ expr)) ≡ true
    fits = ground arith

ascii_operators-append :
    (s t : Text) → ascii_operators (s ++ t) ≡ ascii_operators s ++ ascii_operators t
unfolding ascii_operators
ascii_operators-append s t = simp map-append

-- A text with one run of expression runes, which has an operator and no blanks at its ends: that run
-- is the expression, its × and ÷ written as * and /.
pub extract_expression-found :
    (pre expr post : Text)
    → AreOutside (ascii_operators pre)
    → AreInside (ascii_operators expr)
    → AreOutside (ascii_operators post)
    → trim_space (ascii_operators expr) ≡ ascii_operators expr
    → contains_operator (ascii_operators expr) ≡ true
    → extract_expression (pre ++ expr ++ post) ≡ ascii_operators expr
unfolding extract_expression
extract_expression-found pre expr post hpre hexpr hpost trimmed operator =
    let found = ascii_operators expr in
    ap (λ (s : Text). trim_space (extract_loop [] [] s))
      (ascii_operators-append (pre ++ expr) post
        ∙ ap (λ (s : Text). s ++ ascii_operators post) (ascii_operators-append pre expr))
    ∙ ap trim_space (
        ap (λ (s : Text). extract_loop [] [] s)
          (append_assoc (ascii_operators pre) found (ascii_operators post))
        ∙ extract_loop-outside [] (ascii_operators pre) (found ++ ascii_operators post) hpre
        ∙ extract_loop-inside [] [] found (ascii_operators post) hexpr
        ∙ extract_loop-end found (ascii_operators post) hpost
        ∙ flush-first found trimmed operator)
    ∙ trimmed

not_empty : (s : Text) → contains_operator s ≡ true → is_empty s ≡ false
unfolding contains_operator any
not_empty [] h = ground arith
not_empty (r ∷ s) h = refl

module _ (floats : Floats) where
  -- The tool's answer to a text in which the only run of expression runes is the text of an expression
  -- tree, perhaps with × and ÷ for * and /, with an operator and no blanks at its ends: that text
  -- with the tree's value, or the tree's first error.
  pub call-eval :
      (x : Expression) (pre expr post : Text)
      → NumbersOf x
      → ascii_operators expr ≡ print_expression x []
      → AreOutside (ascii_operators pre)
      → AreInside (print_expression x [])
      → AreOutside (ascii_operators post)
      → trim_space (print_expression x []) ≡ print_expression x []
      → contains_operator (print_expression x []) ≡ true
      → call floats (pre ++ expr ++ post)
        ≡ bind
            (eval floats x)
            (λ v. ok (print_expression x [] ++ codes " = " ++ floats.show_float v))
  unfolding call
  call-eval x pre expr post numbers same hpre hexpr hpost trimmed operator =
      let found : extract_expression (pre ++ expr ++ post) ≡ print_expression x [] =
        extract_expression-found pre expr post hpre (rw same hexpr) hpost (rw same trimmed)
          (rw same operator)
        ∙ same in
      rw (found, not_empty _ operator, parse-print_expression floats x numbers)
