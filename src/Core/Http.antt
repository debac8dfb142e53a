-- ===== src/Core/Http.antt =====
-- backend/core/src/types/http.ts, lib/response.ts and lib/api-url.ts. A body is what `JSON.parse`
-- makes of its text; of an error's `details`, which repeats parts of the request for a human
-- reader, nothing is modelled.
use corner_tasks.Prelude.{
  ℕ, Bool, false, Option, none, some, List, [], ◌∷◌, ◌++◌, ◌==◌, if◌then◌else◌,
}
use corner_tasks.Prelude.Text.{Text, codes, text_eq}
use corner_tasks.Prelude.Json.{Json}
use corner_tasks.Core.Types.{SyncEvent}

-- The text of a body: absent or empty, not JSON, or a JSON value.
pub data RequestBody : Type 0 where
  empty malformed : RequestBody
  json : Json → RequestBody

pub record HttpEvent : Type 0 where
  pub headers : List (Text × Text)
  pub query : List (Text × Text)
  pub body : RequestBody
  pub domain_name : Text
  pub stage : Text
  pub method : Text
  pub path : Text

unfoldable pub lookup : Text → List (Text × Text) → Option Text
lookup k [] = none
lookup k ((j, v) ∷ rest) = if text_eq j k then some v else lookup k rest

pub data ErrorKind : Type 0 where
  bad_request unauthorized forbidden internal not_found : ErrorKind

pub data Reason : Type 0 where
  missing_token bad_token token_expired did_mismatch : Reason
  invalid_json invalid invalid_did no_account_did malformed_account_did invalid_cursor : Reason
  not_parsed decode_failed unsupported_alg invalid_kid bad_signature invalid_sub_iss : Reason
  bad_audience invalid_iat_exp bad_lifetime invalid_nonce unknown_challenge : Reason
  no_route unhandled_exception payload_too_large : Reason

pub data RejectReason : Type 0 where
  stale invalid_event other_account : RejectReason

pub record PushReject : Type 0 where
  pub event_id : Text
  pub reason : RejectReason

pub data ResponseBody : Type 0 where
  api_error : ErrorKind → Reason → ResponseBody
  push_response : List Text → List PushReject → ResponseBody
  pull_response : List SyncEvent → Text → ResponseBody
  challenge_response : Text → Text → Text → ResponseBody
  token_response : Text → ℕ → Text → ResponseBody

pub record HttpResult : Type 0 where
  pub status : ℕ
  -- `WWW-Authenticate: Bearer realm="cornertasks"`
  pub asks_bearer : Bool
  pub body : ResponseBody

abbrev pub json_result : ℕ → ResponseBody → HttpResult
json_result status body = record { status = status; asks_bearer = false; body = body }

abbrev pub error_response : ℕ → ErrorKind → Reason → HttpResult
error_response status kind reason = record {
  status = status;
  asks_bearer = status == 401;
  body = api_error kind reason;
}

unfoldable pub audience_from_event : HttpEvent → Text
audience_from_event event = codes "https://" ++ (event.domain_name ++ b'/' ∷ event.stage)
