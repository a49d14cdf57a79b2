-- ===== src/Jwt/Tests.antt =====
-- Tokens over a simple codec.
use go_agent_chat_server.Base.{
  ℕ, zero, suc, ◌+◌, ◌-◌, ◌≡◌, refl, sym, ap, ◌∙◌, false, [], ◌∷◌, ◌++◌, map, length, take, drop,
  take-append, drop-append, arith,
}
use go_agent_chat_server.Base.Text.{Text, codes, is_empty}
use go_agent_chat_server.Base.Text.Splitting.{IsFree}
use go_agent_chat_server.Base.Int.{ℤ, ◌<ℤ◌, pos, negsuc}
use go_agent_chat_server.Base.Exec.{message, Result, ok, err, ok-injective}
use go_agent_chat_server.Jwt.{
  Claims, Header, Codec, and_then, wrapped, unix, generate_token, parse_token, signed, decode_json,
}
use go_agent_chat_server.Jwt.RoundTrip.{
  IsFaithful, parse_token-generate_token, parse_token-IsSigned,
}

-- A rune moves behind the dot.
abbrev shift : Text → Text
shift = map (λ r. r + 47)

abbrev unshift : Text → Text
unshift = map (λ r. r - 47)

abbrev read_exp : ℕ → ℕ → ℤ
read_exp zero n = pos n
read_exp (suc k) n = negsuc n

-- The length of the first text, then both.
abbrev pair : Text → Text → Text
pair s t = length s ∷ (s ++ t)

abbrev read_header : Text → Result Header
read_header [] = err (message [])
read_header (n ∷ rest) = ok (record { alg = take n rest; typ = drop n rest })

abbrev write_exp : ℤ → Text → Text
write_exp (pos n) rest = 0 ∷ n ∷ rest
write_exp (negsuc n) rest = 1 ∷ n ∷ rest

abbrev write_claims : Claims → Text
write_claims c = write_exp c.exp (pair c.user_id c.username)

abbrev read_claims : Text → Result Claims
read_claims (tag ∷ n ∷ k ∷ rest) =
    ok (record { user_id = take k rest; username = drop k rest; exp = read_exp tag n })
read_claims _ = err (message [])

abbrev codec : Codec
codec = record {
  encode = shift;
  decode = λ t. ok (unshift t);
  marshal_header = λ h. ok (pair h.alg h.typ);
  unmarshal_header = read_header;
  marshal_claims = λ c. ok (write_claims c);
  unmarshal_claims = read_claims;
  mac = λ input secret. secret ++ input;
}

shift-IsFree : (t : Text) → IsFree 46 (shift t)
shift-IsFree [] = tt
shift-IsFree (r ∷ t) = (omega arith, shift-IsFree t)

unshift-shift : (t : Text) → unshift (shift t) ≡ t
unshift-shift [] = refl
unshift-shift (r ∷ t) = let same : r + 47 - 47 ≡ r = omega arith in rw (same, unshift-shift t) refl

read_header-pair : (h : Header) → read_header (pair h.alg h.typ) ≡ ok h
read_header-pair h = rw (take-append h.alg h.typ, drop-append h.alg h.typ) refl

read_claims-write :
    (user_id username : Text) (exp : ℤ)
    → read_claims (write_exp exp (pair user_id username))
      ≡ ok (record { user_id = user_id; username = username; exp = exp })
read_claims-write user_id username (pos n) =
    rw (take-append user_id username, drop-append user_id username) refl
read_claims-write user_id username (negsuc n) =
    rw (take-append user_id username, drop-append user_id username) refl

codec-IsFaithful : IsFaithful codec
codec-IsFaithful = record {
  encode-IsFree = shift-IsFree;
  decode-encode = λ t. ap ok (unshift-shift t);
  header = λ h t e. ap read_header (sym (ok-injective e)) ∙ read_header-pair h;
  claims =
      λ c t e. ap read_claims (sym (ok-injective e)) ∙ read_claims-write c.user_id c.username c.exp;
}

abbrev token : Text
token =
    signed codec (codes "k") (shift (pair (codes "HS256") (codes "JWT")))
      (shift (0 ∷ 150 ∷ pair (codes "u") (codes "ann")))

abbrev claims : Claims
claims = record { user_id = codes "u"; username = codes "ann"; exp = pos 150 }

parse_token-generate_token_example : parse_token codec (pos 149) token (codes "k") ≡ ok claims
unfolding codes unix generate_token and_then
parse_token-generate_token_example =
    parse_token-generate_token codec codec-IsFaithful (pos 100999999999) (pos 149) (codes "u")
      (codes "ann") (codes "k") (pos 49000000001) token refl refl (omega arith)

parse_token-IsSigned_example :
    (h : Text) × (p : Text) × (token ≡ signed codec (codes "k") h p)
    × (decode_json codec codec.unmarshal_claims p ≡ ok claims)
    × (is_empty claims.user_id ≡ false)
    × (pos 149 <ℤ claims.exp)
unfolding codes parse_token signed wrapped and_then
parse_token-IsSigned_example = parse_token-IsSigned codec (pos 149) token (codes "k") claims refl
