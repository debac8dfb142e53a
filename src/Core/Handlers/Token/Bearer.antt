-- ===== src/Core/Handlers/Token/Bearer.antt =====
-- The access tokens of backend/core/src/handlers/auth/token.ts, read back by `verifyBearerToken` of
-- backend/core/src/lib/auth.ts.
use corner_tasks.Prelude.{
  ℕ, ◌+◌, ◌/◌, ◌≡◌, refl, ap, ◌∙◌, true, some, [], ◌∷◌, ◌++◌, arith, ltb, if◌then◌else◌,
}
use corner_tasks.Prelude.Text.{Text, text_eq, starts_with, lacks, split, split-append, split-lacks}
use corner_tasks.Prelude.Json.{Json, field_of}
use corner_tasks.Prelude.Outcome.{returned}
use corner_tasks.Core.Jwt.{
  Bytes, Codec, JwtHeader, DecodedJwt, ed_dsa, alg_of, read_header, header_json, signing_input_of,
  decode_jwt, sign_ed_dsa, verify_ed_dsa,
}
use corner_tasks.Core.Did.{did_key}
use corner_tasks.Core.Http.{token_expired}
use corner_tasks.Core.Auth.{
  SigningKey, granted, refused, check_claims, check_subject, signature_valid, verify_decoded,
  verify_bearer_token,
}
use corner_tasks.Core.Config.{Config}
use corner_tasks.Core.Handlers.Token.{bearer_claims, sign_bearer}

append_assoc : (a b c : Text) → (a ++ b) ++ c ≡ a ++ (b ++ c)
append_assoc [] b c = refl
append_assoc (x ∷ a) b c = ap (λ s. x ∷ s) (append_assoc a b c)

split_three :
    (a b c : Text)
    → lacks b'.' a ≡ true
    → lacks b'.' b ≡ true
    → lacks b'.' c ≡ true
    → split b'.' ((a ++ b'.' ∷ b) ++ b'.' ∷ c) ≡ a ∷ b ∷ c ∷ []
split_three a b c h k l =
    ap (split b'.') (append_assoc a (b'.' ∷ b) (b'.' ∷ c))
    ∙ split-append b'.' a (b ++ b'.' ∷ c) h
    ∙ ap (λ s. a ∷ s) (split-append b'.' b c k)
    ∙ ap (λ s. a ∷ b ∷ s) (split-lacks b'.' c l)

-- What the runtime and the packages do for the tokens of a key: base64url reads back what it writes and
-- writes no dot, JSON reads back the header and the claims, and a signature of the private key verifies.
pub record IsFaithful (c : Codec) (key : SigningKey) (header claims : Json) : Type 0 where
  pub reads_back : (b : Bytes) → c.base64url_decode (c.base64url_encode b) ≡ b
  pub dotless : (b : Bytes) → lacks b'.' (c.base64url_encode b) ≡ true
  pub reads_header : c.json_parse (c.json_bytes header) ≡ some header
  pub reads_claims : c.json_parse (c.json_bytes claims) ≡ some claims
  pub verifies :
      (m : Bytes) → c.ed_verify (c.ed_sign m key.private_key) m key.public_key ≡ returned true

abbrev pub header_of : SigningKey → JwtHeader
header_of key = record { alg = ed_dsa; kid = some key.kid }

decode_signed :
    (c : Codec) (key : SigningKey) (claims : Json) (sig : Bytes)
    → IsFaithful c key (header_json (header_of key)) claims
    → decode_jwt c (signing_input_of c (header_of key) claims ++ b'.' ∷ c.base64url_encode sig)
      ≡ some (record {
        header = header_of key;
        claims = claims;
        signing_input = signing_input_of c (header_of key) claims;
        signature = sig;
      })
unfolding decode_jwt read_header field_of text_eq alg_of
decode_signed c key claims sig f = rw (
  split_three (c.base64url_encode (c.json_bytes (header_json (header_of key))))
      (c.base64url_encode (c.json_bytes claims)) (c.base64url_encode sig) (f.dotless _)
      (f.dotless _) (f.dotless _),
  f.reads_back (c.json_bytes (header_json (header_of key))),
  f.reads_header,
  f.reads_back (c.json_bytes claims),
  f.reads_claims,
  f.reads_back sig,
)

sign_bearer-ed_dsa :
    (config : Config) (claims : Json)
    → config.signing.alg ≡ ed_dsa
    → let si = signing_input_of config.codec (header_of config.signing) claims in
      let sig = config.codec.ed_sign (config.codec.utf8_encode si) config.signing.private_key in
      sign_bearer config claims ≡ si ++ b'.' ∷ config.codec.base64url_encode sig
unfolding sign_bearer sign_ed_dsa
sign_bearer-ed_dsa config claims ed = rw ed refl

-- A token that decodes to a good signature is judged by its claims.
verify_signed :
    (c : Codec) (key : SigningKey) (now_ms : ℕ) (decoded : DecodedJwt)
    → key.alg ≡ ed_dsa
    → decoded.header.alg ≡ ed_dsa
    → c.ed_verify decoded.signature (c.utf8_encode decoded.signing_input) key.public_key
      ≡ returned true
    → verify_decoded c key now_ms decoded ≡ check_claims (now_ms / 1000) decoded.claims
unfolding verify_decoded signature_valid verify_ed_dsa
verify_signed c key now_ms decoded ed ed' good = ground (arith, ed, ed', good)

check_bearer_claims :
    (config : Config) (issued_at_s now_s : ℕ) (account audience jti : Text)
    → starts_with did_key account ≡ true
    → check_claims now_s (bearer_claims config issued_at_s account audience jti)
      ≡ returned (
          if ltb (issued_at_s + config.access_token_ttl_s) now_s
          then refused token_expired
          else granted account)
unfolding check_claims check_subject field_of text_eq
check_bearer_claims config issued_at_s now_s account audience jti did = ground (arith, did)

-- An access token that the server signs with an Ed25519 key for a `did:key` account is taken for that
-- account as long as the second of its expiry has not passed, and is refused as expired from then on,
-- where the runtime and the packages do what they promise.
pub bearer_accepted :
    (config : Config) (issued_at_s now_ms : ℕ) (account audience jti : Text)
    → config.signing.alg ≡ ed_dsa
    → starts_with did_key account ≡ true
    → IsFaithful config.codec config.signing
        (header_json (header_of config.signing))
        (bearer_claims config issued_at_s account audience jti)
    → verify_bearer_token config.codec config.signing now_ms
        (sign_bearer config (bearer_claims config issued_at_s account audience jti))
      ≡ returned (
          if ltb (issued_at_s + config.access_token_ttl_s) (now_ms / 1000)
          then refused token_expired
          else granted account)
unfolding verify_bearer_token
bearer_accepted config issued_at_s now_ms account audience jti ed did f =
    let claims = bearer_claims config issued_at_s account audience jti in
    let si = signing_input_of config.codec (header_of config.signing) claims in
    let sig = config.codec.ed_sign (config.codec.utf8_encode si) config.signing.private_key in
    let verify = λ (t : Text). verify_bearer_token config.codec config.signing now_ms t in
    ap verify (sign_bearer-ed_dsa config claims ed)
    ∙ rw (verify_bearer_token, decode_signed config.codec config.signing claims sig f)
        (verify_signed config.codec config.signing now_ms
            (record {
              header = header_of config.signing;
              claims = claims;
              signing_input = si;
              signature = sig;
            })
            ed refl (f.verifies (config.codec.utf8_encode si))
          ∙ check_bearer_claims config issued_at_s (now_ms / 1000) account audience jti did)
