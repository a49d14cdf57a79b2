-- ===== src/Jwt/RoundTrip.antt =====
-- internal/pkg/jwtutil/jwt.go: tokens that are generated and tokens that are accepted.
use go_agent_chat_server.Base.{
  ◌≡◌, refl, sym, ap, ◌∙◌, subst, false, List, [], ◌∷◌, ◌++◌, append_assoc, arith,
}
use go_agent_chat_server.Base.Text.{Text, codes, text_eq_refl, text_eq-eq, is_empty, split, join}
use go_agent_chat_server.Base.Text.Splitting.{IsFree, split-free, split-++, join-split}
use go_agent_chat_server.Base.Int.{ℤ, ◌+ℤ◌, ◌<ℤ◌, leb_ℤ}
use go_agent_chat_server.Base.Exec.{ok, err-ne-ok, ok-injective}
use go_agent_chat_server.Jwt.Checks.{later_than, unless-ok, provided-ok, and_then-ok, wrapped-ok}
use go_agent_chat_server.Jwt.{
  Claims, Header, Codec, unix, and_then, wrapped, encode_json, decode_json, sign, hs256, signed,
  generate_token, check_claims, check_header, parse_parts, parse_three, parse_token,
}

-- base64.RawURLEncoding writes no dot and is read back; JSON is read back.
pub record IsFaithful (codec : Codec) : Type 0 where
  pub encode-IsFree : (t : Text) → IsFree 46 (codec.encode t)
  pub decode-encode : (t : Text) → codec.decode (codec.encode t) ≡ ok t
  pub header :
      (h : Header) (t : Text) → codec.marshal_header h ≡ ok t → codec.unmarshal_header t ≡ ok h
  pub claims :
      (c : Claims) (t : Text) → codec.marshal_claims c ≡ ok t → codec.unmarshal_claims t ≡ ok c

module _ (codec : Codec) where
  split-signed :
      (secret header_part payload_part : Text)
      → IsFree 46 header_part
      → IsFree 46 payload_part
      → IsFree 46 (sign codec (header_part ++ codes "." ++ payload_part) secret)
      → split 46 (signed codec secret header_part payload_part)
        ≡ header_part
          ∷ payload_part
          ∷ sign codec (header_part ++ codes "." ++ payload_part) secret
          ∷ []
  unfolding codes signed
  split-signed secret h p fh fp fs =
      let signature = sign codec (h ++ codes "." ++ p) secret in
      let nested : signed codec secret h p ≡ h ++ 46 ∷ (p ++ 46 ∷ signature) = simp append_assoc in
      ap (split 46) nested
      ∙ split-++ 46 h (p ++ 46 ∷ signature) fh
      ∙ ap (λ parts. h ∷ parts) (split-++ 46 p signature fp)
      ∙ ap (λ parts. h ∷ p ∷ parts) (split-free 46 signature fs)

  parse_parts-encoded :
      (faithful : IsFaithful codec) (now : ℤ) (c : Claims) (th tc : Text)
      → codec.marshal_header (hs256 codec) ≡ ok th
      → codec.marshal_claims c ≡ ok tc
      → parse_parts codec now (codec.encode th) (codec.encode tc) ≡ check_claims codec now c
  unfolding parse_parts decode_json check_header hs256 and_then wrapped
  parse_parts-encoded faithful now c th tc eh ec =
      rw
        (
          faithful.decode-encode th,
          faithful.header _ th eh,
          faithful.decode-encode tc,
          faithful.claims c tc ec,
        )
        refl

  check_claims-valid :
      (now : ℤ) (c : Claims)
      → is_empty c.user_id ≡ false
      → now <ℤ c.exp
      → check_claims codec now c ≡ ok c
  unfolding check_claims
  check_claims-valid now c named later =
      let unexpired : leb_ℤ c.exp now ≡ false = ground arith in rw (named, unexpired) refl

  parse_token-signed :
      (faithful : IsFaithful codec) (now : ℤ) (secret : Text) (c : Claims) (th tc : Text)
      → is_empty secret ≡ false
      → codec.marshal_header (hs256 codec) ≡ ok th
      → codec.marshal_claims c ≡ ok tc
      → parse_token codec now (signed codec secret (codec.encode th) (codec.encode tc)) secret
        ≡ check_claims codec now c
  unfolding parse_token parse_three sign
  parse_token-signed faithful now secret c th tc keyed eh ec =
      let h = codec.encode th in
      let p = codec.encode tc in
      let parts =
        split-signed secret h p (faithful.encode-IsFree th) (faithful.encode-IsFree tc)
          (faithful.encode-IsFree _) in
      rw (keyed, parts, text_eq_refl (sign codec (h ++ codes "." ++ p) secret))
        (parse_parts-encoded faithful now c th tc eh ec)

  -- What a generated token is made of.
  generate_token-signed :
      (now : ℤ) (user_id username secret : Text) (ttl : ℤ) (token : Text)
      → generate_token codec now user_id username secret ttl ≡ ok token
      → (th : Text) × (tc : Text) × (is_empty secret ≡ false)
        × (codec.marshal_header (hs256 codec) ≡ ok th)
        × (codec.marshal_claims
              (record { user_id = user_id; username = username; exp = unix (now +ℤ ttl) })
            ≡ ok tc)
        × (signed codec secret (codec.encode th) (codec.encode tc) ≡ token)
  unfolding generate_token encode_json
  generate_token-signed now user_id username secret ttl token made =
      let (keyed, made1) = unless-ok _ _ _ made in
      let (h, eh, made2) = and_then-ok _ _ made1 in
      let (th, mh, dh) = and_then-ok _ _ eh in
      let (p, ep, made3) = and_then-ok _ _ made2 in
      let (tc, mc, dc) = and_then-ok _ _ ep in
      (
        th,
        tc,
        keyed,
        mh,
        mc,
        ap (λ x. signed codec secret x (codec.encode tc)) (ok-injective dh)
            ∙ ap (λ x. signed codec secret h x) (ok-injective dc)
            ∙ ok-injective made3,
      )

  -- When base64 writes no dot and is read back, and JSON is read back, a token that was generated
  -- for a user is accepted under the same secret before it expires, with the claims that it was
  -- made of. The user's identifier is not empty.
  pub parse_token-generate_token :
      (faithful : IsFaithful codec) (now later : ℤ) (user_id username secret : Text) (ttl : ℤ)
      (token : Text)
      → generate_token codec now user_id username secret ttl ≡ ok token
      → is_empty user_id ≡ false
      → later <ℤ unix (now +ℤ ttl)
      → parse_token codec later token secret
        ≡ ok (record { user_id = user_id; username = username; exp = unix (now +ℤ ttl) })
  parse_token-generate_token faithful now later user_id username secret ttl token made named
        unexpired =
      let (th, tc, keyed, mh, mc, is_signed) =
        generate_token-signed now user_id username secret ttl token made in
      ap (λ t. parse_token codec later t secret) (sym is_signed)
      ∙ parse_token-signed faithful later secret _ th tc keyed mh mc
      ∙ check_claims-valid later _ named unexpired

  parse_three-signed :
      (now : ℤ) (secret : Text) (parts : List Text) (c : Claims)
      → parse_three codec now secret parts ≡ ok c
      → (h : Text) × (p : Text) × (join parts (codes ".") ≡ signed codec secret h p)
        × (parse_parts codec now h p ≡ ok c)
  unfolding parse_three codes join signed
  parse_three-signed now secret (h ∷ p ∷ s ∷ []) c accepted =
      let (same, parsed) = provided-ok _ _ _ accepted in
      let rejoin : join (h ∷ p ∷ sign codec (h ++ codes "." ++ p) secret ∷ []) (codes ".")
          ≡ signed codec secret h p =
        simp append_assoc in
      (
        h,
        p,
        ap (λ t. join (h ∷ p ∷ t ∷ []) (codes ".")) (sym (text_eq-eq _ s same)) ∙ rejoin,
        parsed,
      )
  parse_three-signed now secret [] c accepted = elim (err-ne-ok accepted) [ ]
  parse_three-signed now secret (h ∷ []) c accepted = elim (err-ne-ok accepted) [ ]
  parse_three-signed now secret (h ∷ p ∷ []) c accepted = elim (err-ne-ok accepted) [ ]
  parse_three-signed now secret (h ∷ p ∷ s ∷ t ∷ rest) c accepted = elim (err-ne-ok accepted) [ ]

  parse_parts-checked :
      (now : ℤ) (h p : Text) (c : Claims)
      → parse_parts codec now h p ≡ ok c
      → (decode_json codec codec.unmarshal_claims p ≡ ok c)
        × (is_empty c.user_id ≡ false)
        × (now <ℤ c.exp)
  unfolding parse_parts check_claims
  parse_parts-checked now h p c parsed =
      let (header, eh, parsed1) = wrapped-ok _ _ _ parsed in
      let (_, checked, parsed2) = and_then-ok _ _ parsed1 in
      let (d, ed, parsed3) = wrapped-ok _ _ _ parsed2 in
      let (named, parsed4) = unless-ok _ _ _ parsed3 in
      let (unexpired, parsed5) = unless-ok _ _ _ parsed4 in
      let same : d ≡ c = ok-injective parsed5 in
      let late = later_than d.exp now unexpired in
      (
        ed ∙ ap ok same,
        subst (λ x. is_empty x.user_id ≡ false) same named,
        subst (λ x. now <ℤ x.exp) same late,
      )

  -- A token that is accepted consists of two parts and their signature under the secret; its
  -- claims are those of the second part, name a user and have not expired.
  pub parse_token-IsSigned :
      (now : ℤ) (token secret : Text) (c : Claims)
      → parse_token codec now token secret ≡ ok c
      → (h : Text) × (p : Text) × (token ≡ signed codec secret h p)
        × (decode_json codec codec.unmarshal_claims p ≡ ok c)
        × (is_empty c.user_id ≡ false)
        × (now <ℤ c.exp)
  unfolding parse_token
  parse_token-IsSigned now token secret c accepted =
      let (keyed, accepted1) = unless-ok _ _ _ accepted in
      let (h, p, is_signed, parsed) = parse_three-signed now secret (split 46 token) c accepted1 in
      let (dc, named, late) = parse_parts-checked now h p c parsed in
      (h, p, sym (join-split 46 token) ∙ is_signed, dc, named, late)
