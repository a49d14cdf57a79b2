-- ===== src/Base/Exec/Inversion.antt =====
-- What a call that returned a value went through.
use mathlib.Core.Path.{◌≡◌, refl, sym, ap}
use mathlib.Core.Bool.{Bool, true, false}
use go_agent_chat_server.Base.Exec.{
  Err, Result, ok, err, Exec, fail, continue, attempt, reject, err-ne-ok,
}

module _ {S A B : Type 0} {y : B} {t : S} where
  pub continue-ok :
      (r : Result A × S) (f : A → Exec S B)
      → continue r f ≡ (ok y, t)
      → (x : A) × (s : S) × (r ≡ (ok x, s)) × (f x s ≡ (ok y, t))
  continue-ok (ok x, s) f h = (x, s, refl, h)
  continue-ok (err e, s) f h = elim (err-ne-ok (ap (λ r. r.0) h)) [ ]

  -- Every error of the call leads to the error `e`.
  pub attempt-ok :
      (r : Result A × S) (e : Err) (f : A → Exec S B)
      → attempt r (λ _. fail e) f ≡ (ok y, t)
      → (x : A) × (s : S) × (r ≡ (ok x, s)) × (f x s ≡ (ok y, t))
  attempt-ok (ok x, s) e f h = (x, s, refl, h)
  attempt-ok (err d, s) e f h = elim (err-ne-ok (ap (λ r. r.0) h)) [ ]

pub reject-ok :
    {S : Type 0} (b : Bool) (e : Err) (s : S) {x : Unit {0}} {t : S}
    → reject b e s ≡ (ok x, t)
    → (b ≡ false) × (t ≡ s)
reject-ok true e s h = elim (err-ne-ok (ap (λ r. r.0) h)) [ ]
reject-ok false e s h = (refl, sym (ap (λ r. r.1) h))

-- The call that follows a test which did not reject.
pub after_reject :
    {S B : Type 0} (b : Bool) (e : Err) (m : Exec S B) (s : S) {y : B} {t : S}
    → continue (reject b e s) (λ _. m) ≡ (ok y, t)
    → (b ≡ false) × (m s ≡ (ok y, t))
after_reject true e m s h = elim (err-ne-ok (ap (λ r. r.0) h)) [ ]
after_reject false e m s h = (refl, h)
