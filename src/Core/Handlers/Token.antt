-- ===== src/Core/Handlers/Token.antt =====
-- backend/core/src/handlers/auth/token.ts. `jti` is `randomUUID()`.
pub mod Once
pub mod Bearer
use corner_tasks.Prelude.{
  ℕ, ◌+◌, ◌*◌, ◌/◌, ◌≡◌, Bool, true, false, ◌&&◌, ◌||◌, not, Option, none, some, List, ◌++◌, ◌∷◌,
  if◌then◌else◌, is_empty,
}
use corner_tasks.Prelude.Text.{Text, codes, text_eq}
use corner_tasks.Prelude.Int.{ℤ, pos, ◌-ℤ◌, ltb_ℤ}
use corner_tasks.Prelude.Json.{Json, null, str, num, obj, end, field, get_field, as_str, as_num}
use corner_tasks.Prelude.Outcome.{Outcome, returned, threw, ◌>>=◌}
use corner_tasks.Core.Jwt.{
  Bytes, Codec, JwtHeader, ed_dsa, hs256, DecodedJwt, text_is, decode_jwt, verify_ed_dsa,
  sign_ed_dsa, sign_hs256,
}
use corner_tasks.Core.Did.{public_key_from_did, method_specific_id}
use corner_tasks.Core.Http.{
  HttpEvent, HttpResult, ErrorKind, Reason, invalid_json, invalid_did, not_parsed, decode_failed,
  unsupported_alg, invalid_kid, bad_signature, invalid_sub_iss, bad_audience, invalid_iat_exp,
  bad_lifetime, invalid_nonce, unknown_challenge, bad_request, unauthorized, token_response,
  json_result, error_response, audience_from_event,
}
use corner_tasks.Core.Store.{Call, Store, continue}
use corner_tasks.Core.Auth.{bearer_audience, alg_eq}
use corner_tasks.Core.Schema.{TokenRequest, read_token_request}
use corner_tasks.Core.Config.{Config}
use corner_tasks.Core.Handlers.Push.{body_json}

abbrev pub max_did_jwt_lifetime_s : ℕ
max_did_jwt_lifetime_s = 300

abbrev pub iat_skew_s : ℕ
iat_skew_s = 60

-- The times that one request reads, in milliseconds.
pub record Times : Type 0 where
  pub checked_at : ℕ
  pub consumed_at : ℕ
  pub issued_at : ℕ

-- The checks end with a response, or with the nonce that they let pass.
pub data Checked : Type 0 where
  stop : HttpResult → Checked
  pass : Text → Checked

abbrev pub bad : Reason → Checked
bad reason = stop (error_response 400 bad_request reason)

abbrev pub denied : Reason → Checked
denied reason = stop (error_response 401 unauthorized reason)

abbrev pub check_nonce : Option Text → Checked
check_nonce none = bad invalid_nonce
check_nonce (some nonce) = if is_empty nonce then bad invalid_nonce else pass nonce

-- `exp - iat > 300`, then `iat > now + 60 || exp < now`
unfoldable pub check_lifetime : ℕ → Option ℤ → Option ℤ → Option Text → Checked
check_lifetime now (some iat) (some exp) shown =
    if ltb_ℤ (pos max_did_jwt_lifetime_s) (exp -ℤ iat)
    then denied bad_lifetime
    else if ltb_ℤ (pos (now + iat_skew_s)) iat || ltb_ℤ exp (pos now)
    then denied bad_lifetime
    else check_nonce shown
check_lifetime now _ _ shown = bad invalid_iat_exp

-- The claims of a DID-JWT whose signature is good. Taking fields of `null` throws.
unfoldable pub check_did_claims : ℕ → Text → Text → Json → Outcome Checked
unfolding check_lifetime
check_did_claims now account audience null = threw
check_did_claims now account audience claims =
    let text_at = λ (k : Text). as_str (get_field k claims) in
    returned (
      if text_is (text_at (codes "iss")) account && text_is (text_at (codes "sub")) account
      then (if text_is (text_at (codes "aud")) audience
          then check_lifetime now (as_num (get_field (codes "iat") claims))
              (as_num (get_field (codes "exp") claims)) (text_at (codes "nonce"))
          else denied bad_audience)
      else bad invalid_sub_iss)

-- `${accountDid}#${methodSpecificId(accountDid)}`, none where `methodSpecificId` throws
abbrev pub expected_kid : Text → Option Text
expected_kid account = elim (method_specific_id account) [
  | none ↦ none
  | some id ↦ some (account ++ b'#' ∷ id)
]

module _ (config : Config) where
  unfoldable pub check_signed : ℕ → Text → Text → Bytes → DecodedJwt → Outcome Checked
  unfolding check_did_claims
  check_signed now account audience public_key decoded = do
    valid ← verify_ed_dsa config.codec decoded public_key
    if valid
        then check_did_claims now account audience decoded.claims
        else returned (denied bad_signature)

  unfoldable pub check_kid : ℕ → Text → Text → Bytes → DecodedJwt → Option Text → Outcome Checked
  unfolding check_signed
  check_kid now account audience public_key decoded none = threw
  check_kid now account audience public_key decoded (some kid) =
      if text_is decoded.header.kid kid
      then check_signed now account audience public_key decoded
      else returned (bad invalid_kid)

  unfoldable pub check_decoded : ℕ → Text → Text → Bytes → Option DecodedJwt → Outcome Checked
  unfolding check_kid
  check_decoded now account audience public_key none = returned (bad decode_failed)
  check_decoded now account audience public_key (some decoded) =
      if alg_eq decoded.header.alg ed_dsa
      then check_kid now account audience public_key decoded (expected_kid account)
      else returned (bad unsupported_alg)

  unfoldable pub check_key : ℕ → TokenRequest → Text → Option Bytes → Outcome Checked
  unfolding check_decoded
  check_key now req audience none = returned (bad invalid_did)
  check_key now req audience (some public_key) =
      check_decoded now req.account_did audience public_key (decode_jwt config.codec req.did_jwt)

  -- Everything before the challenge is consumed.
  unfoldable pub check_request : ℕ → TokenRequest → Text → Outcome Checked
  unfolding check_key
  check_request now req audience =
      check_key now req audience (public_key_from_did config.base58 req.account_did)

  abbrev pub bearer_claims : ℕ → Text → Text → Text → Json
  bearer_claims issued_at_s account audience jti = obj (
      field (codes "iss") (str audience) (
        field (codes "sub") (str account) (
          field (codes "aud") (str bearer_audience) (
            field (codes "iat") (num (pos issued_at_s)) (
              field (codes "exp") (num (pos (issued_at_s + config.access_token_ttl_s)))
                (field (codes "jti") (str jti) end))))))

  unfoldable pub sign_bearer : Json → Text
  sign_bearer claims =
      let header : JwtHeader = record { alg = config.signing.alg; kid = some config.signing.kid } in
      elim config.signing.alg [
        | ed_dsa ↦ sign_ed_dsa config.codec header claims config.signing.private_key
        | hs256 ↦ sign_hs256 config.codec header claims config.signing.private_key
      ]

  unfoldable pub issue_token : ℕ → Text → Text → Text → HttpResult
  unfolding sign_bearer
  issue_token now_ms account audience jti =
      let issued_at_s = now_ms / 1000 in
      json_result 200 (
        token_response (sign_bearer (bearer_claims issued_at_s account audience jti))
          config.access_token_ttl_s
          (config.iso (pos ((issued_at_s + config.access_token_ttl_s) * 1000))))

module _ {S : Type 0} (store : Store S) (config : Config) where
  unfoldable pub redeem : Times → Text → Text → Text → Checked → Call S HttpResult
  unfolding issue_token
  redeem times account audience jti (stop r) s = (returned r, s)
  redeem times account audience jti (pass nonce) s =
      let (consumed, s') = store.consume_challenge times.consumed_at account nonce s in
      continue consumed
        (λ known u. (
          returned (
              if known
              then issue_token config times.issued_at account audience jti
              else error_response 401 unauthorized unknown_challenge),
          u,
        ))
        s'

  unfoldable pub token_read : Times → Text → HttpEvent → Option TokenRequest → Call S HttpResult
  unfolding redeem check_request
  token_read times jti event none s = (returned (error_response 400 bad_request not_parsed), s)
  token_read times jti event (some req) s =
      continue (check_request config (times.checked_at / 1000) req (audience_from_event event))
        (redeem times req.account_did (audience_from_event event) jti) s

  unfoldable pub token_body : Times → Text → HttpEvent → Option Json → Call S HttpResult
  unfolding token_read
  token_body times jti event none s = (returned (error_response 400 bad_request invalid_json), s)
  token_body times jti event (some body) s = token_read times jti event (read_token_request body) s

  unfoldable pub token : Times → Text → HttpEvent → Call S HttpResult
  unfolding token_body
  token times jti event = token_body times jti event (body_json event.body)
