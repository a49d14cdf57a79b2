-- ===== src/Base/Exec.antt =====
-- Go functions that change state and return `(value, error)`.
pub mod Keeps
pub mod Leads
pub mod Anything
pub mod Inversion
use mathlib.Core.Path.{◌≡◌, refl, ap}
use mathlib.Core.Logic.{◌⊎◌, inl, inr}
use native.Mathlib.Omega.{arith}
use mathlib.Core.Bool.{Bool, true, false}
use go_agent_chat_server.Base.Text.{Text, codes}
use go_agent_chat_server.Base.Tests.{if◌then◌else◌}

-- Errors: the sentinel values that the program compares with `errors.Is`, and all others by their
-- text.
pub data Err : Type 0 where
  message : Text → Err
  too_many_requests async_queue_disabled record_not_found : Err

-- err.Error()
unfoldable pub error_text : Err → Text
unfolding codes
error_text (message s) = s
error_text too_many_requests = codes "too many llm requests"
error_text async_queue_disabled = codes "async chat queue is disabled"
error_text record_not_found = codes "record not found"

pub data Result (A : Type 0) : Type 0 where
  ok : A → Result A
  err : Err → Result A

-- What is written before an error stays written, so the state comes back beside the error too.
abbrev pub Exec : Type 0 → Type 0 → Type 0
Exec S A = S → Result A × S

module _ {S A : Type 0} where
  abbrev pub pure : A → Exec S A
  pure a s = (ok a, s)

  abbrev pub fail : Err → Exec S A
  fail e s = (err e, s)

module _ {S A B : Type 0} where
  abbrev pub continue : Result A × S → (A → Exec S B) → Result B × S
  continue (ok a, s) f = f a s
  continue (err e, s) f = (err e, s)

  infixl 5 ◌>>=◌ ◌>>◌
  -- `if err != nil { return …, err }`
  abbrev pub ◌>>=◌ : Exec S A → (A → Exec S B) → Exec S B
  ◌>>=◌ m f s = continue (m s) f

  abbrev pub ◌>>◌ : Exec S A → Exec S B → Exec S B
  ◌>>◌ m n s = continue (m s) (λ _. n)

  -- The error of a call is looked at, not passed on.
  abbrev pub attempt : Result A × S → (Err → Exec S B) → (A → Exec S B) → Result B × S
  attempt (ok a, s) fails f = f a s
  attempt (err e, s) fails f = fails e s

  abbrev pub on_error : Exec S A → (Err → Exec S B) → (A → Exec S B) → Exec S B
  on_error m fails f s = attempt (m s) fails f

-- `if condition { return …, errors.New(…) }`
abbrev pub reject : {S : Type 0} → Bool → Err → Exec S (Unit {0})
reject true e s = (err e, s)
reject false e s = (ok tt, s)

-- `_ = f()`
abbrev pub ignore : {S A : Type 0} → Exec S A → Exec S (Unit {0})
ignore m s = (ok tt, (m s).1)

abbrev pub of_result : {S A : Type 0} → Result A → Exec S A
of_result r s = (r, s)

-- What stands in a result: a value, or an error.
pub Result-cases : {A : Type 0} (r : Result A) → ((x : A) × (r ≡ ok x)) ⊎ ((e : Err) × (r ≡ err e))
Result-cases (ok x) = inl (x, refl)
Result-cases (err e) = inr (e, refl)

abbrev value_or : {A : Type 0} → A → Result A → A
value_or x (ok y) = y
value_or x (err e) = x

pub ok-injective : {A : Type 0} {x y : A} → ok x ≡ ok y → x ≡ y
ok-injective {x = x} e = ap (value_or x) e

abbrev is_ok : {A : Type 0} → Result A → Bool
is_ok (ok x) = true
is_ok (err e) = false

false-ne-true : false ≡ true → ⊥
false-ne-true p = ground arith

pub err-ne-ok : {A : Type 0} {e : Err} {x : A} → err e ≡ ok x → ⊥
err-ne-ok p = false-ne-true (ap is_ok p)
