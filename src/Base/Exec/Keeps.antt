-- ===== src/Base/Exec/Keeps.antt =====
-- Invariants of calls: one rule for each way to build one.
use mathlib.Core.Bool.{Bool, true, false}
use go_agent_chat_server.Base.Tests.{if◌then◌else◌}
use go_agent_chat_server.Base.Exec.{
  Err, Result, ok, err, Exec, pure, fail, continue, attempt, reject, ignore, of_result, on_error,
  ◌>>=◌, ◌>>◌,
}

-- `m` keeps `P` on every path, its errors included.
pub record Keeps {S R : Type 0} (P : S → Type 0) (m : S → R × S) : Type 0 where
  pub at : (s : S) → P s → P (m s).1

module _ {S : Type 0} {P : S → Type 0} where
  pub Keeps-reject : (b : Bool) (e : Err) → Keeps P (reject b e)
  Keeps-reject true e = record { at = λ s h. h }
  Keeps-reject false e = record { at = λ s h. h }

module _ {S R : Type 0} {P : S → Type 0} where
  pub Keeps-if : (b : Bool) (m n : S → R × S) → Keeps P m → Keeps P n → Keeps P (if b then m else n)
  Keeps-if true m n km kn = km
  Keeps-if false m n km kn = kn

module _ {S A : Type 0} {P : S → Type 0} where
  pub Keeps-pure : (a : A) → Keeps {R = Result A} P (pure a)
  Keeps-pure a = record { at = λ s h. h }

  pub Keeps-fail : (e : Err) → Keeps {R = Result A} P (fail e)
  Keeps-fail e = record { at = λ s h. h }

  pub Keeps-ignore : (m : Exec S A) → Keeps P m → Keeps P (ignore m)
  Keeps-ignore m km = record { at = λ s h. km.at s h }

module _ {S A B : Type 0} {P : S → Type 0} where
  attempt-at :
      (r : Result A) (fails : Err → Exec S B) (f : A → Exec S B) (s : S)
      → P s
      → ((e : Err) → Keeps P (fails e))
      → ((a : A) → Keeps P (f a))
      → P (attempt (r, s) fails f).1
  attempt-at (ok a) fails f s h kfails kf = (kf a).at s h
  attempt-at (err e) fails f s h kfails kf = (kfails e).at s h

  continue-at :
      (r : Result A) (f : A → Exec S B) (s : S)
      → P s
      → ((a : A) → Keeps P (f a))
      → P (continue (r, s) f).1
  continue-at (ok a) f s h kf = (kf a).at s h
  continue-at (err e) f s h kf = h

  pub Keeps-bind :
      (m : Exec S A) (f : A → Exec S B) → Keeps P m → ((a : A) → Keeps P (f a)) → Keeps P (m >>= f)
  Keeps-bind m f km kf = record { at = λ s h. continue-at (m s).0 f (m s).1 (km.at s h) kf }

  pub Keeps-then : (m : Exec S A) (n : Exec S B) → Keeps P m → Keeps P n → Keeps P (m >> n)
  Keeps-then m n km kn = Keeps-bind m (λ _. n) km (λ _. kn)

  pub Keeps-on_error :
      (m : Exec S A) (fails : Err → Exec S B) (f : A → Exec S B)
      → Keeps P m
      → ((e : Err) → Keeps P (fails e))
      → ((a : A) → Keeps P (f a))
      → Keeps P (on_error m fails f)
  Keeps-on_error m fails f km kfails kf = record {
    at = λ s h. attempt-at (m s).0 fails f (m s).1 (km.at s h) kfails kf;
  }

module _ {S A : Type 0} {P : S → Type 0} where
  pub Keeps-of_result : (r : Result A) → Keeps P (of_result r)
  Keeps-of_result r = record { at = λ s h. h }

pub ruleset keeps_rules = (
  Keeps-pure, Keeps-fail, Keeps-reject, Keeps-if, Keeps-ignore, Keeps-bind, Keeps-then,
  Keeps-on_error, Keeps-of_result,
)
