-- ===== src/Base/Decimal.antt =====
-- strconv: FormatInt in base 10, and Atoi.
use Prim.Native.Nat.{ℕ, zero, suc, ◌+◌, ◌-◌, ◌*◌, ◌/◌, ◌%◌, ◌^◌, ◌<◌}
use mathlib.Core.Path.{◌≡◌, refl}
use mathlib.Core.Bool.{Bool, true, false, ◌&&◌}
use mathlib.Core.Option.{Option, none, some}
use mathlib.Core.List.{[], ◌∷◌}
use native.Mathlib.Omega.{arith}
use go_agent_chat_server.Base.Tests.{ltb, leb, ◌==◌, if◌then◌else◌}
use go_agent_chat_server.Base.Text.{Text, codes}
use go_agent_chat_server.Base.Int.{ℤ, pos, negsuc}

-- The digits of `n`, pushed on `acc` from the last one. `fuel` is above `n`.
format_digits : ℕ → ℕ → Text → Text
format_digits zero n acc = acc
format_digits (suc fuel) n acc =
    let shown = (b'0' + n % 10) ∷ acc in
    let more = format_digits fuel (n / 10) shown in if n / 10 == 0 then shown else more

unfoldable pub format_uint : ℕ → Text
unfolding format_digits
format_uint n = format_digits (suc n) n []

-- strconv.FormatInt(n, 10)
unfoldable pub format_int : ℤ → Text
unfolding format_uint
format_int (pos n) = format_uint n
format_int (negsuc n) = b'-' ∷ format_uint (suc n)

-- The number that ASCII digits stand for, after a prefix that stands for `v`.
unfoldable pub digits_value : ℕ → Text → Option ℕ
digits_value v [] = some v
digits_value v (r ∷ s) =
    let rest = digits_value (v * 10 + (r - b'0')) s in
    if leb b'0' r && leb r b'9' then rest else none

-- An int64 from its sign and its magnitude, or the range error.
in_range : Bool → ℕ → Option ℤ
in_range true n = if leb n (2 ^ 63) then some (if n == 0 then pos 0 else negsuc (n - 1)) else none
in_range false n = if ltb n (2 ^ 63) then some (pos n) else none

signed : Bool → Text → Option ℤ
signed neg [] = none
signed neg (r ∷ s) = elim (digits_value 0 (r ∷ s)) [ none ↦ none | some n ↦ in_range neg n ]

-- strconv.Atoi on a 64-bit machine; `none` is a syntax or a range error.
unfoldable pub atoi : Text → Option ℤ
unfolding digits_value in_range signed
atoi [] = none
atoi (r ∷ s) =
    if r == b'-' then signed true s else if r == b'+' then signed false s else signed false (r ∷ s)

digits_value-format_digits :
    (fuel n : ℕ) (acc : Text)
    → n < fuel
    → digits_value 0 (format_digits fuel n acc) ≡ digits_value n acc
unfolding digits_value format_digits
digits_value-format_digits zero n acc h = absurd (omega arith)
digits_value-format_digits (suc fuel) n acc h =
    ground (arith, digits_value-format_digits fuel (n / 10) ((b'0' + n % 10) ∷ acc))

pub digits_value-format_uint : (n : ℕ) → digits_value 0 (format_uint n) ≡ some n
unfolding format_uint digits_value
digits_value-format_uint n = digits_value-format_digits (suc n) n [] (omega arith)

pub format_uint-injective : (m n : ℕ) → format_uint m ≡ format_uint n → m ≡ n
format_uint-injective m n e = cc (digits_value-format_uint m, digits_value-format_uint n)

format_test : (format_uint 2024 ≡ codes "2024") × (atoi (codes "-17") ≡ some (negsuc 16))
unfolding format_uint codes atoi
format_test = (refl, refl)
