-- ===== src/Middleware/Auth.antt =====
-- internal/middleware/auth.go
pub mod Admission
use go_agent_chat_server.Base.{
  ℕ, ◌+◌, leb, Bool, true, false, ◌&&◌, ◌||◌, not, List, [], ◌∷◌, ◌++◌, ◌==◌, map, Option, none,
  some, if◌then◌else◌, ◌≡◌, ◌⊎◌, refl,
}
use go_agent_chat_server.Base.Text.{Text, codes, is_empty, text_eq}
use go_agent_chat_server.Base.Int.{ℤ}
use go_agent_chat_server.Base.Exec.{Result, ok, err, error_text}
use go_agent_chat_server.Queue.Event.{text}
use go_agent_chat_server.Jwt
use go_agent_chat_server.Jwt.{Codec, Claims}
use go_agent_chat_server.Api.Code
use go_agent_chat_server.Middleware.{Exchange, Turn, stops, next, Middleware, write_json}

-- A rune, which is the space or not, before what the rest splits into.
unfoldable pub split_cons : Bool → ℕ → Text → Option (Text × Text) → Option (Text × Text)
split_cons true r s rest = some ([], s)
split_cons false r s none = none
split_cons false r s (some (before, after)) = some (r ∷ before, after)

-- strings.SplitN(s, " ", 2) when it has two parts.
unfoldable pub split_first : Text → Option (Text × Text)
unfolding split_cons
split_first [] = none
split_first (r ∷ s) = split_cons (r == b' ') r s (split_first s)

-- strings.EqualFold(s, "Bearer"): the letters of that word have no variants outside ASCII.
unfoldable pub is_bearer : Text → Bool
unfolding codes text_eq
is_bearer s = text_eq (map (λ r. if leb 65 r && leb r 90 then r + 32 else r) s) (codes "bearer")

-- The token of the header's parts.
unfoldable pub bearer_token : Option (Text × Text) → Option Text
unfolding is_bearer
bearer_token none = none
bearer_token (some (scheme, token)) =
    if not (is_bearer scheme) || is_empty token then none else some token

module _ {S : Type 0} where
  unfoldable pub with_user_id : Text → Exchange S → Exchange S
  with_user_id user_id x = record x {
    context = record x.context { current_user_id = some (text user_id) };
  }

  -- Behind ParseToken.
  unfoldable pub check_parsed : Exchange S → Result Claims → Turn S
  unfolding codes error_text write_json with_user_id
  check_parsed x (err e) =
      stops (write_json 401 Code.invalid_token (codes "invalid token: " ++ error_text e) x)
  check_parsed x (ok claims) = next (with_user_id claims.user_id x)

module _ {S : Type 0} (codec : Codec) (secret : Text) (now : S → ℤ) where
  unfoldable pub check_bearer : Exchange S → Option Text → Turn S
  unfolding codes write_json Jwt.parse_token check_parsed
  check_bearer x none =
      stops (write_json 401 Code.unauthorized (codes "invalid authorization header") x)
  check_bearer x (some token) =
      check_parsed x (Jwt.parse_token codec (now x.process.outside) token secret)

  -- The clock is read in seconds.
  unfoldable pub auth : Middleware S
  unfolding codes write_json split_first bearer_token check_bearer
  auth x =
      let auth_header = x.context.header (codes "Authorization") in
      if is_empty auth_header
      then stops
          (write_json 401 Code.missing_authorization (codes "missing authorization header") x)
      else check_bearer x (bearer_token (split_first auth_header))
