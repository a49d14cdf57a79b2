-- ===== src/Base/Text.antt =====
-- Go strings that hold valid UTF-8, as their runes, and the functions of `strings` and `unicode`
-- that the program calls.
pub mod Splitting
use Prim.Native.Char.{code}
use Prim.Native.String.{String}
use Prim.Native.Nat.{ℕ, zero, suc, ◌+◌, ◌-◌}
use mathlib.Core.Path.{◌≡◌, refl, ap}
use mathlib.Core.Logic.{◌↔◌}
use mathlib.Core.Bool.{Bool, true, false, ◌&&◌, ◌||◌}
use mathlib.Core.List.{List, [], ◌∷◌, ◌++◌, map, reverse}
use native.Mathlib.Omega.{arith}
use go_agent_chat_server.Base.Tests.{ltb, leb, ◌==◌, if◌then◌else◌}
use go_agent_chat_server.Base.Lists.{length, any}

abbrev pub Text : Type 0
Text = List ℕ

-- The runes of a literal.
unfoldable pub codes : String → Text
codes String.[] = []
codes (String.◌∷◌ c s) = code c ∷ codes s

-- s == t
unfoldable pub text_eq : Text → Text → Bool
text_eq [] [] = true
text_eq (x ∷ xs) (y ∷ ys) = x == y && text_eq xs ys
text_eq _ _ = false

-- s == ""
abbrev pub is_empty : Text → Bool
is_empty [] = true
is_empty (x ∷ xs) = false

pub text_eq_refl : (s : Text) → text_eq s s ≡ true
unfolding text_eq
text_eq_refl [] = refl
text_eq_refl (x ∷ xs) = ground (arith, text_eq_refl xs)

pub text_eq-eq : (s t : Text) → text_eq s t ≡ true → s ≡ t
unfolding text_eq
text_eq-eq [] [] h = refl
text_eq-eq [] (y ∷ ys) h = ground arith
text_eq-eq (x ∷ xs) [] h = ground arith
text_eq-eq (x ∷ xs) (y ∷ ys) h = ground (arith, text_eq-eq xs ys)

pub text_eq_iff : (s t : Text) → (text_eq s t ≡ true) ↔ (s ≡ t)
text_eq_iff s t = (text_eq-eq s t, λ e. subst_true (ap (λ (u : Text). text_eq s u) e))
  where
    subst_true : text_eq s s ≡ text_eq s t → text_eq s t ≡ true
    subst_true e = cc (text_eq_refl s)

-- unicode.IsSpace
unfoldable pub is_space : ℕ → Bool
is_space r =
    (leb 9 r && leb r 13)
    || r == 32
    || r == 0x85
    || r == 0xa0
    || r == 0x1680
    || (leb 0x2000 r && leb r 0x200a)
    || r == 0x2028
    || r == 0x2029
    || r == 0x202f
    || r == 0x205f
    || r == 0x3000

unfoldable pub trim_left : Text → Text
trim_left [] = []
trim_left (r ∷ s) = let rest = trim_left s in if is_space r then rest else r ∷ s

unfoldable pub drop_byte : ℕ → Text → Text
drop_byte b [] = []
drop_byte b (r ∷ s) = let rest = drop_byte b s in if r == b then rest else r ∷ s

-- strings.TrimRight with a cutset of one byte
unfoldable pub trim_right : Text → ℕ → Text
unfolding drop_byte
trim_right s b = reverse (drop_byte b (reverse s))

-- strings.TrimSpace
unfoldable pub trim_space : Text → Text
unfolding trim_left is_space
trim_space s = reverse (trim_left (reverse (trim_left s)))

-- unicode.ToLower, where the result can be compared with a text of lower-case ASCII letters and of
-- runes without case: A to Z, İ (whose lower case is i) and the Kelvin sign. Other runes with a case
-- have a lower case outside ASCII, and stand for themselves.
unfoldable pub lower_rune : ℕ → ℕ
lower_rune r =
    if leb 65 r && leb r 90
    then r + 32
    else if r == 0x130
    then 105
    else if r == 0x212a
    then 107
    else r

-- strings.ToLower
unfoldable pub to_lower : Text → Text
unfolding lower_rune
to_lower = map lower_rune

-- strings.HasPrefix
unfoldable pub has_prefix : Text → Text → Bool
has_prefix s [] = true
has_prefix [] (y ∷ ys) = false
has_prefix (x ∷ xs) (y ∷ ys) = x == y && has_prefix xs ys

-- strings.Contains
unfoldable pub contains : Text → Text → Bool
unfolding has_prefix
contains [] sub = is_empty sub
contains (x ∷ xs) sub = has_prefix (x ∷ xs) sub || contains xs sub

-- strings.ContainsRune
unfoldable pub contains_rune : Text → ℕ → Bool
contains_rune [] r = false
contains_rune (x ∷ xs) r = x == r || contains_rune xs r

-- strings.ContainsAny
unfoldable pub contains_any : Text → Text → Bool
unfolding contains_rune
contains_any s chars = any (contains_rune chars) s

-- strings.Join
unfoldable pub join : List Text → Text → Text
join [] sep = []
join (s ∷ []) sep = s
join (s ∷ t ∷ rest) sep = s ++ sep ++ join (t ∷ rest) sep

-- The scan of strings.ReplaceAll for a text that is not empty: `skip` runes of the last match are
-- still to be passed over.
unfoldable pub replace_from : ℕ → Text → Text → Text → Text
replace_from skip [] old new = []
replace_from (suc skip) (x ∷ xs) old new = replace_from skip xs old new
replace_from zero (x ∷ xs) old new =
    let replaced = new ++ replace_from (length old - 1) xs old new in
    let kept = x ∷ replace_from zero xs old new in
    if has_prefix (x ∷ xs) old then replaced else kept

-- strings.ReplaceAll, whose second argument is never empty here.
unfoldable pub replace_all : Text → Text → Text → Text
unfolding replace_from has_prefix
replace_all s old new = replace_from zero s old new

cons_first : ℕ → List Text → List Text
cons_first x [] = (x ∷ []) ∷ []
cons_first x (p ∷ ps) = (x ∷ p) ∷ ps

-- strings.Split by one rune.
unfoldable pub split : ℕ → Text → List Text
unfolding cons_first
split sep [] = [] ∷ []
split sep (x ∷ xs) = let rest = split sep xs in if x == sep then [] ∷ rest else cons_first x rest

-- The bytes that a rune takes in UTF-8, and len(s).
abbrev pub rune_len : ℕ → ℕ
rune_len r = if ltb r 0x80 then 1 else if ltb r 0x800 then 2 else if ltb r 0x10000 then 3 else 4

unfoldable pub byte_len : Text → ℕ
byte_len [] = 0
byte_len (r ∷ s) = rune_len r + byte_len s

-- The zeros of the decimal digits of Unicode 15, which stand in runs of ten.
unfoldable pub digit_zeros : List ℕ
digit_zeros =
    0x30 ∷ 0x660 ∷ 0x6f0 ∷ 0x7c0 ∷ 0x966 ∷ 0x9e6 ∷ 0xa66 ∷ 0xae6 ∷ 0xb66 ∷ 0xbe6 ∷ 0xc66 ∷ 0xce6
    ∷ 0xd66 ∷ 0xde6 ∷ 0xe50 ∷ 0xed0 ∷ 0xf20 ∷ 0x1040 ∷ 0x1090 ∷ 0x17e0 ∷ 0x1810 ∷ 0x1946 ∷ 0x19d0
    ∷ 0x1a80 ∷ 0x1a90 ∷ 0x1b50 ∷ 0x1bb0 ∷ 0x1c40 ∷ 0x1c50 ∷ 0xa620 ∷ 0xa8d0 ∷ 0xa900 ∷ 0xa9d0
    ∷ 0xa9f0 ∷ 0xaa50 ∷ 0xabf0 ∷ 0xff10 ∷ 0x104a0 ∷ 0x10d30 ∷ 0x11066 ∷ 0x110f0 ∷ 0x11136 ∷ 0x111d0
    ∷ 0x112f0 ∷ 0x11450 ∷ 0x114d0 ∷ 0x11650 ∷ 0x116c0 ∷ 0x11730 ∷ 0x118e0 ∷ 0x11950 ∷ 0x11c50
    ∷ 0x11d50 ∷ 0x11da0 ∷ 0x11f50 ∷ 0x16a60 ∷ 0x16ac0 ∷ 0x16b50 ∷ 0x1d7ce ∷ 0x1d7d8 ∷ 0x1d7e2
    ∷ 0x1d7ec ∷ 0x1d7f6 ∷ 0x1e140 ∷ 0x1e2f0 ∷ 0x1e4f0 ∷ 0x1e950 ∷ 0x1fbf0 ∷ []

-- unicode.IsDigit
unfoldable pub is_digit : ℕ → Bool
unfolding digit_zeros any
is_digit r = any (λ z. leb z r && ltb r (z + 10)) digit_zeros

text_tests :
    (trim_space (codes "  a b\n") ≡ codes "a b")
    × (contains (to_lower (codes "My History")) (codes "history") ≡ true)
    × (replace_all (codes "aabaa") (codes "aa") (codes "x") ≡ codes "xbx")
    × (join (codes "a" ∷ codes "b" ∷ []) (codes ", ") ≡ codes "a, b")
    × (split 46 (codes "a..b") ≡ codes "a" ∷ [] ∷ codes "b" ∷ [])
    × (is_digit 0x664 ≡ true)
unfolding codes trim_space is_space contains to_lower replace_all join split is_digit
text_tests = (refl, refl, refl, refl, refl, refl)
