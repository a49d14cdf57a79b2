-- ===== src/Jwt/Checks.antt =====
-- internal/pkg/jwtutil/jwt.go: what a result without an error went through.
use go_agent_chat_server.Base.{◌≡◌, refl, Bool, true, false, if◌then◌else◌, arith}
use go_agent_chat_server.Base.Text.{Text}
use go_agent_chat_server.Base.Int.{ℤ, ◌<ℤ◌, leb_ℤ}
use go_agent_chat_server.Base.Exec.{Err, Result, ok, err, err-ne-ok}
use go_agent_chat_server.Jwt.{and_then, wrapped}

pub later_than : (exp now : ℤ) → leb_ℤ exp now ≡ false → now <ℤ exp
later_than exp now h = ground arith

module _ {A : Type 0} where
  -- A test that leads to an error was not met, or was met.
  pub unless-ok :
      (b : Bool) (e : Err) (r : Result A) {x : A}
      → (if b then err e else r) ≡ ok x
      → (b ≡ false) × (r ≡ ok x)
  unless-ok true e r h = elim (err-ne-ok h) [ ]
  unless-ok false e r h = (refl, h)

  pub provided-ok :
      (b : Bool) (e : Err) (r : Result A) {x : A}
      → (if b then r else err e) ≡ ok x
      → (b ≡ true) × (r ≡ ok x)
  provided-ok true e r h = (refl, h)
  provided-ok false e r h = elim (err-ne-ok h) [ ]

module _ {A B : Type 0} where
  pub and_then-ok :
      (r : Result A) (f : A → Result B) {y : B}
      → and_then r f ≡ ok y
      → (x : A) × (r ≡ ok x) × (f x ≡ ok y)
  unfolding and_then
  and_then-ok (ok x) f h = (x, refl, h)
  and_then-ok (err e) f h = elim (err-ne-ok h) [ ]

  pub wrapped-ok :
      (prefix : Text) (r : Result A) (f : A → Result B) {y : B}
      → wrapped prefix r f ≡ ok y
      → (x : A) × (r ≡ ok x) × (f x ≡ ok y)
  unfolding wrapped
  wrapped-ok prefix (ok x) f h = (x, refl, h)
  wrapped-ok prefix (err e) f h = elim (err-ne-ok h) [ ]
