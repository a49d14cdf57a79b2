-- ===== src/Middleware/Auth/Admission.antt =====
-- internal/middleware/auth.go: which requests go on to the handlers, as whose.
use go_agent_chat_server.Base.{
  ℕ, ◌==◌, Bool, true, false, Bool-cases, ◌||◌, not, ◌++◌, ◌∷◌, [], Option, none, some, ◌≡◌, refl,
  ap, ◌⊎◌, inl, inr, if◌then◌else◌, arith,
}
use go_agent_chat_server.Base.Text.{Text, codes, is_empty}
use go_agent_chat_server.Base.Int.{ℤ, ◌<ℤ◌}
use go_agent_chat_server.Base.Exec.{ok, Result-cases, error_text}
use go_agent_chat_server.Jwt
use go_agent_chat_server.Jwt.{Codec, Claims, signed, decode_json}
use go_agent_chat_server.Jwt.RoundTrip.{parse_token-IsSigned}
use go_agent_chat_server.Api.Code
use go_agent_chat_server.Middleware.{Exchange, Turn, stops, next, write_json}
use go_agent_chat_server.Middleware.Auth.{
  split_cons, split_first, is_bearer, bearer_token, with_user_id, check_parsed, check_bearer, auth,
}

module _ (r : ℕ) (s before after : Text) where
  split_cons-joins :
      (b : Bool) (rest : Option (Text × Text))
      → (b ≡ true → r ≡ b' ')
      → ((u : Text) → rest ≡ some (u, after) → s ≡ u ++ codes " " ++ after)
      → split_cons b r s rest ≡ some (before, after)
      → r ∷ s ≡ before ++ codes " " ++ after
  unfolding split_cons codes
  split_cons-joins true rest space joined h = ground (arith, space refl)
  split_cons-joins false none space joined h = ground arith
  split_cons-joins false (some (u, v)) space joined h = ground (arith, joined u (ground arith))

-- The two parts stand around the first space.
split_first-joins :
    (s before after : Text)
    → split_first s ≡ some (before, after)
    → s ≡ before ++ codes " " ++ after
unfolding split_first
split_first-joins [] before after h = ground arith
split_first-joins (r ∷ s) before after h =
    split_cons-joins r s before after (r == b' ') (split_first s) (λ e. ground arith)
      (λ u e. split_first-joins s u after e) h

given_bearer :
    (b : Bool) (scheme given token : Text)
    → (if not b || is_empty given then none else some given) ≡ some token
    → (b ≡ true) × (given ≡ token)
given_bearer true scheme [] token h = ground arith
given_bearer true scheme (r ∷ s) token h = (refl, ground arith)
given_bearer false scheme given token h = ground arith

bearer_token-some :
    (parts : Option (Text × Text)) (token : Text)
    → bearer_token parts ≡ some token
    → (scheme : Text) × (parts ≡ some (scheme, token)) × (is_bearer scheme ≡ true)
unfolding bearer_token
bearer_token-some none token h = ground arith
bearer_token-some (some (scheme, given)) token h =
    let (bearer, same) = given_bearer (is_bearer scheme) scheme given token h in
    (scheme, ap (λ t. some (scheme, t)) same, bearer)

module _ {S : Type 0} (codec : Codec) (secret : Text) (now : S → ℤ) (x : Exchange S) where
  -- The header holds a token that was signed under the secret and has not expired; the request
  -- goes on as that of the token's user, and nothing else changes.
  abbrev pub IsAdmitted : Exchange S → Type 0
  IsAdmitted y =
      (scheme token h p : Text) × (claims : Claims) × (x.context.header (codes "Authorization")
        ≡ scheme ++ codes " " ++ token)
      × (is_bearer scheme ≡ true)
      × (token ≡ signed codec secret h p)
      × (decode_json codec codec.unmarshal_claims p ≡ ok claims)
      × (now x.process.outside <ℤ claims.exp)
      × (y ≡ with_user_id claims.user_id x)

  -- One response of status 401 is written, and nothing else changes.
  abbrev pub IsRefused : Exchange S → Type 0
  IsRefused y = (code : ℕ) × (message : Text) × (y ≡ write_json 401 code message x)

  -- The end of a request that is refused.
  abbrev refusal : ℕ → Text → Exchange S
  refusal code message = write_json 401 code message x

  abbrev Decided : Turn S → Type 0
  Decided t =
      ((y : Exchange S) × (t ≡ next y) × IsAdmitted y)
      ⊎ ((y : Exchange S) × (t ≡ stops y) × IsRefused y)

  parsed-Decided :
      (scheme token : Text)
      → x.context.header (codes "Authorization") ≡ scheme ++ codes " " ++ token
      → is_bearer scheme ≡ true
      → Decided (check_parsed x (Jwt.parse_token codec (now x.process.outside) token secret))
  unfolding check_parsed
  parsed-Decided scheme token given bearer =
      elim (Result-cases (Jwt.parse_token codec (now x.process.outside) token secret)) [
        | inl (claims, e) ↦
            let (h, p, is_signed, decoded, named, later) =
              parse_token-IsSigned codec (now x.process.outside) token secret claims e in
            inl (
              with_user_id claims.user_id x,
              rw e refl,
              (scheme, token, h, p, claims, given, bearer, is_signed, decoded, later, refl),
            )
        | inr (e, failed) ↦
            let y = refusal Code.invalid_token (codes "invalid token: " ++ error_text e) in
            inr (y, rw failed refl, (_, _, refl))
      ]

  bearer-Decided :
      (parts : Option Text)
      → bearer_token (split_first (x.context.header (codes "Authorization"))) ≡ parts
      → Decided (check_bearer codec secret now x parts)
  unfolding check_bearer
  bearer-Decided none e = inr (_, refl, (_, _, refl))
  bearer-Decided (some token) e =
      let (scheme, parts, bearer) = bearer_token-some _ token e in
      parsed-Decided scheme token (split_first-joins _ scheme token parts) bearer

  -- Auth either calls c.Next, with the request as that of the user of a token in its header that
  -- was signed under the secret and has not expired, or it returns without that call, with one
  -- response of status 401 written; it changes nothing else.
  pub auth-IsAdmitted :
      ((y : Exchange S) × (auth codec secret now x ≡ next y) × IsAdmitted y)
      ⊎ ((y : Exchange S) × (auth codec secret now x ≡ stops y) × IsRefused y)
  unfolding auth
  auth-IsAdmitted = elim (Bool-cases (is_empty (x.context.header (codes "Authorization")))) [
    | inl missing ↦
        let y = refusal Code.missing_authorization (codes "missing authorization header") in
        inr (y, rw missing refl, (_, _, refl))
    | inr present ↦ rw present (bearer-Decided _ refl)
  ]
