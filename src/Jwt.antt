-- ===== src/Jwt.antt =====
-- internal/pkg/jwtutil/jwt.go. HMAC-SHA256, base64 and JSON are parameters.

pub mod Checks
pub mod RoundTrip
mod Tests
use go_agent_chat_server.Base.{
  ℕ, ◌+◌, ◌/◌, Bool, true, false, ◌&&◌, not, List, [], ◌∷◌, ◌++◌, if◌then◌else◌,
}
use go_agent_chat_server.Base.Text.{Text, codes, text_eq, is_empty, split}
use go_agent_chat_server.Base.Int.{ℤ, pos, negsuc, ◌+ℤ◌, leb_ℤ}
use go_agent_chat_server.Base.Exec.{Err, message, error_text, Result, ok, err}

pub record Claims : Type 0 where
  pub user_id : Text
  pub username : Text
  -- in seconds
  pub exp : ℤ

pub record Header : Type 0 where
  pub alg : Text
  pub typ : Text

-- `encode` of a text is base64.RawURLEncoding, and `mac` is HMAC-SHA256 of a text under a secret.
pub record Codec : Type 0 where
  pub encode : Text → Text
  pub decode : Text → Result Text
  pub marshal_header : Header → Result Text
  pub unmarshal_header : Text → Result Header
  pub marshal_claims : Claims → Result Text
  pub unmarshal_claims : Text → Result Claims
  pub mac : Text → Text → Text

-- time.Time.Unix of a time in nanoseconds: the whole seconds, rounded down.
unfoldable pub unix : ℤ → ℤ
unix (pos n) = pos (n / 1000000000)
unix (negsuc n) = negsuc (n / 1000000000)

unfoldable pub and_then : {A B : Type 0} → Result A → (A → Result B) → Result B
and_then (ok x) f = f x
and_then (err e) f = err e

-- fmt.Errorf("…: %w", err)
unfoldable pub wrapped : {A B : Type 0} → Text → Result A → (A → Result B) → Result B
wrapped prefix (ok x) f = f x
wrapped prefix (err e) f = err (message (prefix ++ error_text e))

module _ (codec : Codec) where
  unfoldable pub encode_json : {V : Type 0} → (V → Result Text) → V → Result Text
  encode_json marshal v = and_then (marshal v) (λ data_text. ok (codec.encode data_text))

  unfoldable pub decode_json : {V : Type 0} → (Text → Result V) → Text → Result V
  decode_json unmarshal value = and_then (codec.decode value) unmarshal

  unfoldable pub sign : Text → Text → Text
  sign signing_input secret = codec.encode (codec.mac signing_input secret)

  unfoldable pub hs256 : Header
  unfolding codes
  hs256 = record { alg = codes "HS256"; typ = codes "JWT" }

  -- The two parts and their signature.
  unfoldable pub signed : Text → Text → Text → Text
  unfolding codes sign
  signed secret header_part payload_part =
      let signing_input = header_part ++ codes "." ++ payload_part in
      signing_input ++ codes "." ++ sign signing_input secret

  -- `now` and `ttl` are in nanoseconds.
  unfoldable pub generate_token : ℤ → Text → Text → Text → ℤ → Result Text
  unfolding codes unix encode_json hs256 signed
  generate_token now user_id username secret ttl =
      if is_empty secret
      then err (message (codes "jwt secret is required"))
      else and_then (encode_json codec.marshal_header hs256) λ header_part.
        and_then
          (encode_json codec.marshal_claims
            (record { user_id = user_id; username = username; exp = unix (now +ℤ ttl) }))
          λ payload_part. ok (signed secret header_part payload_part)

  -- `now` is in seconds, here and below.
  unfoldable pub check_claims : ℤ → Claims → Result Claims
  unfolding codes
  check_claims now claims =
      if is_empty claims.user_id
      then err (message (codes "missing user_id"))
      else if leb_ℤ claims.exp now
      then err (message (codes "token expired"))
      else ok claims

  unfoldable pub check_header : Header → Result (Unit {0})
  unfolding codes text_eq
  check_header h =
      if text_eq h.alg (codes "HS256") && text_eq h.typ (codes "JWT")
      then ok tt
      else err (message (codes "unsupported token header"))

  -- Behind the check of the signature.
  unfoldable pub parse_parts : ℤ → Text → Text → Result Claims
  unfolding codes decode_json check_header check_claims
  parse_parts now header_part payload_part =
      wrapped (codes "decode jwt header failed: ") (decode_json codec.unmarshal_header header_part)
        λ h. and_then (check_header h) λ _.
          wrapped (codes "decode jwt claims failed: ")
            (decode_json codec.unmarshal_claims payload_part) (check_claims now)

  -- The parts between the dots, when there are three.
  unfoldable pub parse_three : ℤ → Text → List Text → Result Claims
  unfolding codes sign text_eq parse_parts
  parse_three now secret (header_part ∷ payload_part ∷ signature ∷ []) =
      if text_eq (sign (header_part ++ codes "." ++ payload_part) secret) signature
      then parse_parts now header_part payload_part
      else err (message (codes "invalid token signature"))
  parse_three now secret _ = err (message (codes "invalid token format"))

  unfoldable pub parse_token : ℤ → Text → Text → Result Claims
  unfolding codes split parse_three
  parse_token now token secret =
      if is_empty secret
      then err (message (codes "jwt secret is required"))
      else parse_three now secret (split 46 token)
