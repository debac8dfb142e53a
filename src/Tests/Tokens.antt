-- ===== src/Tests/Tokens.antt =====
-- The theorem about access tokens, at a runtime that shifts bytes and knows two JSON values.
use corner_tasks.Prelude.{
  ℕ, ◌+◌, ◌-◌, ◌/◌, ◌≡◌, refl, true, Option, none, some, [], ◌∷◌, map, arith, if◌then◌else◌, ltb,
}
use corner_tasks.Prelude.Text.{Text, codes, text_eq, lacks, starts_with}
use corner_tasks.Prelude.Json.{Json, get_field, field_of}
use corner_tasks.Prelude.Outcome.{returned}
use corner_tasks.Core.Jwt.{Bytes, Codec, header_json}
use corner_tasks.Core.Http.{token_expired}
use corner_tasks.Core.Auth.{granted, refused, verify_bearer_token}
use corner_tasks.Core.Config.{Config}
use corner_tasks.Core.Handlers.Token.{bearer_claims, sign_bearer}
use corner_tasks.Core.Handlers.Token.Bearer.{IsFaithful, header_of, bearer_accepted}
use corner_tasks.Tests.Fixtures.{alice, config}

abbrev url : Text
url = codes "https://api/v1"

abbrev claims : Json
claims = bearer_claims config 10 alice url (codes "t1")

abbrev header : Json
header = header_json (header_of config.signing)

-- A header is written as 1 and claims as 2.
abbrev written : Json → Bytes
written v = elim (get_field (codes "alg") v) [ none ↦ 2 ∷ [] | some _ ↦ 1 ∷ [] ]

abbrev read : Bytes → Option Json
read bytes = if text_eq bytes (1 ∷ []) then some header else some claims

abbrev shifted : Codec
shifted = record config.codec {
  base64url_encode = map (λ b. b + 47);
  base64url_decode = map (λ c. c - 47);
  json_parse = read;
  json_bytes = written;
}

abbrev deployment : Config
deployment = record config { codec = shifted }

shifts_back : (b : Bytes) → map (λ (c : ℕ). c - 47) (map (λ (x : ℕ). x + 47) b) ≡ b
shifts_back [] = refl
shifts_back (x ∷ b) = ground (arith, shifts_back b)

shifted_lacks : (b : Bytes) → lacks b'.' (map (λ (x : ℕ). x + 47) b) ≡ true
shifted_lacks [] = refl
shifted_lacks (x ∷ b) = ground (arith, shifted_lacks b)

deployment-IsFaithful :
    IsFaithful shifted deployment.signing
      (header_json (header_of deployment.signing))
      (bearer_claims deployment 10 alice url (codes "t1"))
unfolding field_of text_eq
deployment-IsFaithful = record {
  reads_back = shifts_back;
  dotless = shifted_lacks;
  reads_header = refl;
  reads_claims = refl;
  verifies = λ _. refl;
}

bearer_accepted_example :
    verify_bearer_token shifted deployment.signing 3000
      (sign_bearer deployment (bearer_claims deployment 10 alice url (codes "t1")))
    ≡ returned (if ltb (10 + 3600) (3000 / 1000) then refused token_expired else granted alice)
unfolding starts_with
bearer_accepted_example =
    bearer_accepted deployment 10 3000 alice url (codes "t1") refl refl deployment-IsFaithful
