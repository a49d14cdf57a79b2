-- ===== src/Base/Exec/Leads.antt =====
-- What a call leads to: one assertion of its value and the state, and one of the state beside an
-- error.
use mathlib.Core.Bool.{Bool, true, false}
use go_agent_chat_server.Base.Tests.{if◌then◌else◌}
use go_agent_chat_server.Base.Exec.{
  Exec, Err, Result, ok, err, attempt, continue, on_error, of_result, reject, ignore, ◌>>=◌, ◌>>◌,
}
use go_agent_chat_server.Base.Exec.Keeps.{Keeps}

-- What holds behind a call: `Q` of a value and the state, or `E` of the state beside an error.
abbrev pub Ends : {S A : Type 0} → (A → S → Type 0) → (S → Type 0) → Result A × S → Type 0
Ends Q E (ok a, s) = Q a s
Ends Q E (err e, s) = E s

-- A call from a state with `P` ends so.
pub record Leads {S A : Type 0} (P : S → Type 0) (m : Exec S A) (Q : A → S → Type 0)
    (E : S → Type 0) : Type 0 where
  pub at : (s : S) → P s → Ends Q E (m s)

module _ {S A B : Type 0} {Q : A → S → Type 0} {E : S → Type 0} {R : B → S → Type 0}
    {F : S → Type 0} where
  attempt-Ends :
      (r : Result A × S) (fails : Err → Exec S B) (f : A → Exec S B)
      → Ends Q E r
      → ((e : Err) → Leads E (fails e) R F)
      → ((a : A) → Leads (Q a) (f a) R F)
      → Ends R F (attempt r fails f)
  attempt-Ends (ok a, s) fails f h kfails kf = (kf a).at s h
  attempt-Ends (err e, s) fails f h kfails kf = (kfails e).at s h

  pub Leads-on_error :
      {P : S → Type 0} (m : Exec S A) (fails : Err → Exec S B) (f : A → Exec S B)
      → Leads P m Q E
      → ((e : Err) → Leads E (fails e) R F)
      → ((a : A) → Leads (Q a) (f a) R F)
      → Leads P (on_error m fails f) R F
  Leads-on_error m fails f km kfails kf = record {
    at = λ s h. attempt-Ends (m s) fails f (km.at s h) kfails kf;
  }

module _ {S A : Type 0} {P : S → Type 0} {Q : A → S → Type 0} {E : S → Type 0} where
  pub Leads-if :
      (b : Bool) (m n : Exec S A) → Leads P m Q E → Leads P n Q E → Leads P (if b then m else n) Q E
  Leads-if true m n km kn = km
  Leads-if false m n km kn = kn

  pub reject-Ends :
      (b : Bool) (e : Err) (s : S) (m : Exec S A)
      → P s
      → ((u : S) → P u → E u)
      → Leads P m Q E
      → Ends Q E (continue (reject b e s) (λ _. m))
  reject-Ends true e s m h kept km = kept s h
  reject-Ends false e s m h kept km = km.at s h

module _ {S A : Type 0} (P : S → Type 0) where
  kept-Ends : (r : Result A × S) → P r.1 → Ends {A = A} (λ _ s. P s) P r
  kept-Ends (ok x, s) h = h
  kept-Ends (err e, s) h = h

module _ {S A : Type 0} {P : S → Type 0} where
  pub Keeps-Leads : (m : Exec S A) → Keeps P m → Leads P m (λ _ s. P s) P
  Keeps-Leads m km = record { at = λ s h. kept-Ends P (m s) (km.at s h) }

module _ {S A : Type 0} {P : S → Type 0} where
  pub Leads-of_result : (r : Result A) → Leads P (of_result r) (λ _ s. P s) P
  Leads-of_result (ok a) = record { at = λ s h. h }
  Leads-of_result (err e) = record { at = λ s h. h }

module _ {S A B : Type 0} {Q : A → S → Type 0} {E : S → Type 0} {R : B → S → Type 0} where
  continue-Ends :
      (r : Result A × S) (f : A → Exec S B)
      → Ends Q E r
      → ((a : A) → Leads (Q a) (f a) R E)
      → Ends R E (continue r f)
  continue-Ends (ok a, s) f h kf = (kf a).at s h
  continue-Ends (err e, s) f h kf = h

  pub Leads-bind :
      {P : S → Type 0} (m : Exec S A) (f : A → Exec S B)
      → Leads P m Q E
      → ((a : A) → Leads (Q a) (f a) R E)
      → Leads P (m >>= f) R E
  Leads-bind m f km kf = record { at = λ s h. continue-Ends (m s) f (km.at s h) kf }

  pub Leads-then :
      {P : S → Type 0} (m : Exec S A) (n : Exec S B)
      → Leads P m Q E
      → ((a : A) → Leads (Q a) n R E)
      → Leads P (m >> n) R E
  Leads-then m n km kn = Leads-bind m (λ _. n) km kn

module _ {S A : Type 0} (Q : S → Type 0) where
  ended : (r : Result A × S) → Ends {A = A} (λ _ s. Q s) Q r → Q r.1
  ended (ok a, s) h = h
  ended (err e, s) h = h

module _ {S A : Type 0} {P Q F : S → Type 0} where
  pub Leads-ignore : (m : Exec S A) → Leads P m (λ _ s. Q s) Q → Leads P (ignore m) (λ _ s. Q s) F
  Leads-ignore m km = record { at = λ s h. ended Q (m s) (km.at s h) }

module _ {S : Type 0} {P : S → Type 0} where
  pub Leads-reject : (b : Bool) (e : Err) → Leads P (reject b e) (λ _ s. P s) P
  Leads-reject true e = record { at = λ s h. h }
  Leads-reject false e = record { at = λ s h. h }

module _ {S A : Type 0} (Q R : A → S → Type 0) (E : S → Type 0) where
  pub Ends-mono : (r : Result A × S) → Ends Q E r → ((a : A) (s : S) → Q a s → R a s) → Ends R E r
  Ends-mono (ok a, s) h f = f a s h
  Ends-mono (err e, s) h f = h

module _ {S A : Type 0} (Q R : A → S → Type 0) (E F : S → Type 0) where
  Ends-map :
      (r : Result A × S)
      → ((a : A) (s : S) → Q a s → R a s)
      → ((s : S) → E s → F s)
      → Ends Q E r
      → Ends R F r
  Ends-map (ok a, s) f g h = f a s h
  Ends-map (err e, s) f g h = g s h

module _ {S A : Type 0} {Q R : A → S → Type 0} {E F : S → Type 0} where
  pub Leads-map :
      {P : S → Type 0} (m : Exec S A)
      → Leads P m Q E
      → ((a : A) (s : S) → Q a s → R a s)
      → ((s : S) → E s → F s)
      → Leads P m R F
  Leads-map m km f g = record { at = λ s h. Ends-map Q R E F (m s) f g (km.at s h) }

module _ {S A : Type 0} {P : S → Type 0} {Q : A → S → Type 0} {E : S → Type 0} where
  -- A fact that does not speak of the state.
  pub Leads-given : {X : Type 0} (m : Exec S A) → (X → Leads P m Q E) → Leads (λ s. X × P s) m Q E
  Leads-given m f = record { at = λ s (x, h). (f x).at s h }

module _ {S A : Type 0} {P : S → Type 0} {Q : A → S → Type 0} where
  -- What is the same behind a value and behind an error.
  pub Leads-Keeps : (m : Exec S A) → ((a : A) (s : S) → Q a s → P s) → Leads P m Q P → Keeps P m
  Leads-Keeps m f km = record {
    at = λ s h. ended P (m s) (Ends-mono Q (λ _ u. P u) P (m s) (km.at s h) f);
  }
