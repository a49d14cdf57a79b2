-- ===== src/Base/Text/Splitting.antt =====
-- strings.Split and the texts between the separators.
use go_agent_chat_server.Base.Tests.{◌==◌, ==_iff, Bool-cases}
use go_agent_chat_server.Base.Lists.{nonempty}
use go_agent_chat_server.Base.Text.{Text, split, join, cons_first}
use Prim.Native.Nat.{ℕ}
use mathlib.Core.Path.{◌≡◌, refl, sym, ap, ◌∙◌}
use mathlib.Core.Logic.{◌≢◌, inl, inr}
use mathlib.Core.Bool.{true, false}
use mathlib.Core.List.{List, [], ◌∷◌, ◌++◌}
use native.Mathlib.Omega.{arith}

-- No rune of the text is the separator.
abbrev pub IsFree : ℕ → Text → Type 0
IsFree sep [] = Unit {0}
IsFree sep (x ∷ xs) = (x ≢ sep) × IsFree sep xs

same_rune : (x : ℕ) → (x == x) ≡ true
same_rune x = ground arith

other_rune : (x y : ℕ) → x ≢ y → (x == y) ≡ false
other_rune x y ne = ground arith

pub split-free : (sep : ℕ) (s : Text) → IsFree sep s → split sep s ≡ s ∷ []
unfolding split cons_first
split-free sep [] free = refl
split-free sep (x ∷ xs) (ne, free) = rw (other_rune x sep ne, split-free sep xs free) refl

pub split-++ :
    (sep : ℕ) (s rest : Text) → IsFree sep s → split sep (s ++ sep ∷ rest) ≡ s ∷ split sep rest
unfolding split cons_first
split-++ sep [] rest free = rw (same_rune sep) refl
split-++ sep (x ∷ xs) rest (ne, free) = rw (other_rune x sep ne, split-++ sep xs rest free) refl

nonempty-cons_first : (x : ℕ) (ps : List Text) → nonempty (cons_first x ps) ≡ true
unfolding cons_first
nonempty-cons_first x [] = refl
nonempty-cons_first x (p ∷ ps) = refl

nonempty-split : (sep : ℕ) (s : Text) → nonempty (split sep s) ≡ true
unfolding split cons_first
nonempty-split sep [] = refl
nonempty-split sep (x ∷ xs) = elim (Bool-cases (x == sep)) [
  | inl cut ↦ rw cut refl
  | inr kept ↦ rw kept (nonempty-cons_first x (split sep xs))
]

join-cut :
    (sep : ℕ) (ps : List Text)
    → nonempty ps ≡ true
    → join ([] ∷ ps) (sep ∷ []) ≡ sep ∷ join ps (sep ∷ [])
unfolding join
join-cut sep [] h = ground arith
join-cut sep (p ∷ ps) h = refl

join-cons_first :
    (sep x : ℕ) (ps : List Text) → join (cons_first x ps) (sep ∷ []) ≡ x ∷ join ps (sep ∷ [])
unfolding join cons_first
join-cons_first sep x [] = refl
join-cons_first sep x (p ∷ []) = refl
join-cons_first sep x (p ∷ q ∷ ps) = refl

pub join-split : (sep : ℕ) (s : Text) → join (split sep s) (sep ∷ []) ≡ s
unfolding split join
join-split sep [] = refl
join-split sep (x ∷ xs) = elim (Bool-cases (x == sep)) [
  | inl cut ↦ rw cut (
      join-cut sep (split sep xs) (nonempty-split sep xs)
      ∙ ap (λ s. sep ∷ s) (join-split sep xs)
      ∙ ap (λ y. y ∷ xs) (sym ((==_iff x sep).0 cut)))
  | inr kept ↦ rw kept (join-cons_first sep x (split sep xs) ∙ ap (λ s. x ∷ s) (join-split sep xs))
]
