-- ===== src/Base/Exec/Anything.antt =====
-- Calls whose state is not looked at: what they tell of their values.
use go_agent_chat_server.Base.Exec.{Exec, Result, ok, err, pure, continue, ◌>>=◌}
use go_agent_chat_server.Base.Exec.Leads.{Ends, Leads, Leads-bind}

-- Every state.
abbrev pub Anything : {S : Type 0} → S → Type 0
Anything s = Unit {0}

module _ {S A : Type 0} where
  any-Ends : (r : Result A × S) → Ends {S = S} (λ _ _. Unit {0}) Anything r
  any-Ends (ok a, s) = tt
  any-Ends (err e, s) = tt

  pub any-Leads : (m : Exec S A) → Leads Anything m (λ _ _. Unit {0}) Anything
  any-Leads m = record { at = λ s h. any-Ends (m s) }

  pub pure-Leads :
      {Q : A → S → Type 0} (a : A) → ((s : S) → Q a s) → Leads Anything (pure a) Q Anything
  pure-Leads a q = record { at = λ s h. q s }

known-Ends :
    {S A B : Type 0} {X : A → Type 0} {R : B → S → Type 0} (r : Result A × S) (f : A → Exec S B)
    → Ends {S = S} (λ a _. X a) Anything r
    → ((a : A) → X a → Leads Anything (f a) R Anything)
    → Ends R Anything (continue r f)
known-Ends (ok a, s) f h k = (k a h).at s tt
known-Ends (err e, s) f h k = tt

-- A call that tells something of its value.
pub known-Leads :
    {S A B : Type 0} {X : A → Type 0} {R : B → S → Type 0} (m : Exec S A) (f : A → Exec S B)
    → Leads Anything m (λ a _. X a) Anything
    → ((a : A) → X a → Leads Anything (f a) R Anything)
    → Leads Anything (m >>= f) R Anything
known-Leads m f km k = record { at = λ s h. known-Ends (m s) f (km.at s h) k }

module _ {S A B : Type 0} {R : B → S → Type 0} where
  -- A call of which nothing is asked.
  pub after-Leads :
      (m : Exec S A) (f : A → Exec S B)
      → ((a : A) → Leads Anything (f a) R Anything)
      → Leads Anything (m >>= f) R Anything
  after-Leads m f k = Leads-bind m f (any-Leads m) k
