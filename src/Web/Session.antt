-- ===== src/Web/Session.antt =====
-- apps/web/src/sync/syncTransport.ts and authSession.ts: how replies are read, and the bearer token
-- that is kept in memory. The transport's four calls are functions on the state of the network.
use corner_tasks.Prelude.{
  ℕ, ◌+◌, ◌*◌, ◌/◌, Bool, true, false, ◌&&◌, ◌||◌, Option, none, some, List, ltb, leb, ◌==◌,
  if◌then◌else◌, is_empty,
}
use corner_tasks.Prelude.Text.{Text, codes, text_eq}
use corner_tasks.Prelude.Json.{Json, arr, obj, get_field, as_str}
use corner_tasks.Core.Types.{SyncEvent}
use corner_tasks.Web.Wire.{Bytes, Runtime, iso_parse, make_did_jwt}

pub data SyncTransportError : Type 0 where
  missing_token bad_token token_expired did_mismatch decoding invalid_url : SyncTransportError
  http : ℕ → Option Text → SyncTransportError
  network : Text → SyncTransportError

-- What a call of the transport ends with.
pub data Reply (A : Type 0) : Type 0 where
  ok : A → Reply A
  failed : SyncTransportError → Reply A

pub record ChallengeResponse : Type 0 where
  pub challenge : Text
  pub audience : Text
  pub expires_at : Text

pub record TokenResponse : Type 0 where
  pub access_token : Text
  pub expires_at : Text

pub record Rejected : Type 0 where
  pub event_id : Text
  pub reason : Text

pub record PushResponse : Type 0 where
  pub accepted : List Text
  pub rejected : List Rejected

pub record PullResponse : Type 0 where
  pub events : List SyncEvent
  pub next_cursor : Text

abbrev pub is_reason : Option Text → Text → Bool
is_reason none t = false
is_reason (some r) t = text_eq r t

abbrev pub is_token_reason : Option Text → Bool
is_token_reason r =
    is_reason r (codes "bad_token")
    || is_reason r (codes "missing_token")
    || is_reason r (codes "bad_signature")
    || is_reason r (codes "bad_audience")
    || is_reason r (codes "unknown_challenge")
    || is_reason r (codes "bad_lifetime")

abbrev pub reason_of : Option Json → Option Text
reason_of none = none
reason_of (some body) = as_str (get_field (codes "reason") body)

unfoldable pub map_http_error : ℕ → Option Json → SyncTransportError
map_http_error status body =
    let reason = reason_of body in
    if status == 401
    then (if is_reason reason (codes "token_expired")
        then token_expired
        else if is_token_reason reason
        then bad_token
        else http status reason)
    else if status == 403
    then (if is_reason reason (codes "did_mismatch") then did_mismatch else http status reason)
    else http status reason

-- `body !== null && typeof body === 'object'`
abbrev pub as_object : Option Json → Reply Json
as_object (some (obj fields)) = ok (obj fields)
as_object (some (arr items)) = ok (arr items)
as_object _ = failed decoding

-- `response.ok` is a status from 200 to 299; a body that is no JSON is none.
unfoldable pub handle : ℕ → Option Json → Reply Json
unfolding map_http_error
handle status body =
    if leb 200 status && ltb status 300 then as_object body else failed (map_http_error status body)

abbrev pub is_auth_retryable : SyncTransportError → Bool
is_auth_retryable token_expired = true
is_auth_retryable bad_token = true
is_auth_retryable _ = false

-- The network and the clock. A call takes their state to a reply and their next state.
pub record World (N : Type 0) : Type 0 where
  pub now : N → ℕ × N
  -- Whether the next call of the store gets through its transactions of IndexedDB
  pub commits : N → Bool × N
  pub challenge : Text → N → Reply ChallengeResponse × N
  pub token : Text → Text → N → Reply TokenResponse × N
  pub push : Text → List SyncEvent → Text → N → Reply PushResponse × N
  pub pull : Text → Text → Text → N → Reply PullResponse × N

pub record Identity : Type 0 where
  pub account_did : Text
  pub method_specific_id : Text
  pub private_key : Bytes

pub record AuthSession : Type 0 where
  pub cached_token : Option Text
  pub cached_expires_at : Option ℕ

abbrev pub invalidated : AuthSession
invalidated = record { cached_token = none; cached_expires_at = none }

abbrev pub refresh_slack_ms : ℕ
refresh_slack_ms = 60 * 1000

module _ {N : Type 0} (world : World N) (runtime : Runtime) (identity : Identity) where
  -- The expiry of a token; one hour from now if the reply's cannot be read.
  abbrev pub expiry : Option ℕ → N → ℕ × N
  expiry (some at) n = (at, n)
  expiry none n = let (now, n') = world.now n in (now + 3600000, n')

  unfoldable pub keep_token : Reply TokenResponse × N → AuthSession → Reply Text × AuthSession × N
  keep_token (failed e, n) session = (failed e, session, n)
  keep_token (ok token, n) session =
      let (at, n') = expiry (iso_parse runtime token.expires_at) n in
      (
        ok token.access_token,
        record { cached_token = some token.access_token; cached_expires_at = some at },
        n',
      )

  unfoldable pub answer_challenge :
      Reply ChallengeResponse × N → AuthSession → Reply Text × AuthSession × N
  unfolding keep_token
  answer_challenge (failed e, n) session = (failed e, session, n)
  answer_challenge (ok reply, n) session =
      let (now, n') = world.now n in
      let jwt =
        make_did_jwt runtime identity.account_did identity.method_specific_id identity.private_key
          reply.audience reply.challenge (now / 1000) in
      keep_token (world.token identity.account_did jwt n') session

  unfoldable pub refresh : AuthSession → N → Reply Text × AuthSession × N
  unfolding answer_challenge
  refresh session n = answer_challenge (world.challenge identity.account_did n) session

  unfoldable pub bearer_cached :
      Option Text → Option ℕ → AuthSession → N → Reply Text × AuthSession × N
  unfolding refresh
  bearer_cached (some token) (some expires) session n =
      if is_empty token
      then refresh session n
      else let (now, n') = world.now n in
        if ltb (now + refresh_slack_ms) expires then (ok token, session, n') else refresh session n'
  bearer_cached _ _ session n = refresh session n

  unfoldable pub bearer : AuthSession → N → Reply Text × AuthSession × N
  unfolding bearer_cached
  bearer session n = bearer_cached session.cached_token session.cached_expires_at session n
