-- ===== src/Core/Auth.antt =====
-- backend/core/src/lib/auth.ts. The key that `getSigningKey` returns is an argument.
use corner_tasks.Prelude.{ℕ, ◌/◌, Bool, true, false, Option, none, some, if◌then◌else◌}
use corner_tasks.Prelude.Text.{Text, codes, text_eq, starts_with, to_lower, text_drop, trim}
use corner_tasks.Prelude.Int.{ℤ, pos, ltb_ℤ}
use corner_tasks.Prelude.Json.{Json, null, get_field, as_str, as_num}
use corner_tasks.Prelude.Outcome.{Outcome, returned, threw, ◌>>=◌}
use corner_tasks.Core.Jwt.{
  Bytes, Codec, JwtAlg, ed_dsa, hs256, DecodedJwt, text_is, decode_jwt, verify_ed_dsa, verify_hs256,
}
use corner_tasks.Core.Did.{did_key}
use corner_tasks.Core.Http.{
  HttpEvent, HttpResult, Reason, missing_token, bad_token, token_expired, did_mismatch,
  unauthorized, forbidden, error_response, lookup,
}

pub record SigningKey : Type 0 where
  pub alg : JwtAlg
  pub kid : Text
  pub private_key : Bytes
  pub public_key : Bytes

abbrev pub bearer_audience : Text
bearer_audience = codes "cornertasks-sync-v1"

pub data TokenVerification : Type 0 where
  granted : Text → TokenVerification
  refused : Reason → TokenVerification

abbrev pub alg_eq : JwtAlg → JwtAlg → Bool
alg_eq ed_dsa ed_dsa = true
alg_eq hs256 hs256 = true
alg_eq _ _ = false

-- `typeof exp !== 'number' || exp < now`
abbrev pub has_passed : Option ℤ → ℕ → Bool
has_passed none now = true
has_passed (some exp) now = ltb_ℤ exp (pos now)

unfoldable pub check_subject : Option Text → TokenVerification
check_subject none = refused bad_token
check_subject (some sub) = if starts_with did_key sub then granted sub else refused bad_token

-- The claims of a token whose signature is good. Taking fields of `null` throws.
unfoldable pub check_claims : ℕ → Json → Outcome TokenVerification
unfolding check_subject
check_claims now null = threw
check_claims now claims = returned (
    if text_is (as_str (get_field (codes "aud") claims)) bearer_audience
    then (if has_passed (as_num (get_field (codes "exp") claims)) now
        then refused token_expired
        else check_subject (as_str (get_field (codes "sub") claims)))
    else refused bad_token)

module _ (c : Codec) (signing : SigningKey) where
  unfoldable pub signature_valid : DecodedJwt → Outcome Bool
  signature_valid decoded = elim signing.alg [
    | ed_dsa ↦ verify_ed_dsa c decoded signing.public_key
    | hs256 ↦ returned (verify_hs256 c decoded signing.private_key)
  ]

  unfoldable pub verify_decoded : ℕ → DecodedJwt → Outcome TokenVerification
  unfolding signature_valid check_claims
  verify_decoded now_ms decoded =
      if alg_eq decoded.header.alg signing.alg
      then (do
        valid ← signature_valid decoded
        if valid then check_claims (now_ms / 1000) decoded.claims else returned (refused bad_token))
      else returned (refused bad_token)

  -- `verifyBearerToken` at `Date.now()` = `now_ms`
  unfoldable pub verify_bearer_token : ℕ → Text → Outcome TokenVerification
  unfolding verify_decoded
  verify_bearer_token now_ms token = elim (decode_jwt c token) [
    | none ↦ returned (refused bad_token)
    | some decoded ↦ verify_decoded now_ms decoded
  ]

  -- `headers.authorization ?? headers.Authorization`
  abbrev pub authorization : HttpEvent → Option Text
  authorization event = elim (lookup (codes "authorization") event.headers) [
    | some v ↦ some v
    | none ↦ lookup (codes "Authorization") event.headers
  ]

  unfoldable pub require_bearer : ℕ → HttpEvent → Outcome TokenVerification
  require_bearer now_ms event = elim (authorization event) [
    | none ↦ returned (refused missing_token)
    | some auth ↦
        if starts_with (codes "bearer ") (to_lower auth)
        then verify_bearer_token now_ms (trim (text_drop 7 auth))
        else returned (refused missing_token)
  ]

-- The response that `requireBearer` makes of a refusal.
abbrev pub refusal : Reason → HttpResult
refusal reason = error_response 401 unauthorized reason

unfoldable pub assert_subject_matches : Text → Text → Option HttpResult
assert_subject_matches subject account_did =
    if text_eq subject account_did then none else some (error_response 403 forbidden did_mismatch)
