-- ===== src/Core/Handlers/Push.antt =====
-- backend/core/src/handlers/push.ts.
pub mod Frame
pub mod Accounts
pub mod Report
use corner_tasks.Prelude.{
  ℕ, ◌≡◌, Bool, true, false, ◌||◌, Option, none, some, List, [], ◌∷◌, ◌++◌, if◌then◌else◌,
}
use corner_tasks.Prelude.Text.{Text, text_eq}
use corner_tasks.Prelude.Outcome.{Outcome, returned, threw}
use corner_tasks.Prelude.Json.{Json, obj, end}
use corner_tasks.Core.Types.{SyncEvent, StoredEvent, PutResult}
use corner_tasks.Core.Http.{
  HttpEvent, HttpResult, RequestBody, empty, malformed, json, Reason, invalid_json, invalid,
  did_mismatch, bad_request, forbidden, PushReject, stale, push_response, json_result,
  error_response,
}
use corner_tasks.Core.Store.{Call, Store, ◌>>=◌, unless_answered, continue}
use corner_tasks.Core.Auth.{
  granted, refused, TokenVerification, require_bearer, refusal, assert_subject_matches,
}
use corner_tasks.Core.Schema.{PushRequest, read_push_request}
use corner_tasks.Core.Config.{Config}

-- `event.body ? JSON.parse(event.body) : {}`, `none` where it throws
abbrev pub body_json : RequestBody → Option Json
body_json empty = some (obj end)
body_json malformed = none
body_json (json v) = some v

unfoldable pub has_seen : Text → List Text → Bool
has_seen id [] = false
has_seen id (x ∷ seen) = let rest = has_seen id seen in if text_eq x id then true else rest

-- A wire event as it is handed to the store: it has neither archive time nor number.
abbrev pub as_stored : SyncEvent → StoredEvent
as_stored ev = record { event = ev; archived_completed_at = none; seq = none }

-- The three lists that the loop fills.
pub record Tally : Type 0 where
  pub accepted : List Text
  pub rejected : List PushReject
  pub seen : List Text

abbrev pub no_tally : Tally
no_tally = record { accepted = []; rejected = []; seen = [] }

abbrev pub again : Text → Tally → Tally
again id t = record t { accepted = t.accepted ++ id ∷ [] }

abbrev pub counted : Text → PutResult → Tally → Tally
counted id result t =
    if result.accepted
    then record t { accepted = t.accepted ++ id ∷ []; seen = id ∷ t.seen }
    else record t {
      rejected = t.rejected ++ record { event_id = id; reason = stale } ∷ [];
      seen = id ∷ t.seen;
    }

-- What the loop ends with: an early response, or the lists.
pub data LoopEnd : Type 0 where
  early : HttpResult → LoopEnd
  filled : Tally → LoopEnd

module _ {S : Type 0} (store : Store S) where
  unfoldable pub push_loop : Text → List SyncEvent → Tally → Call S LoopEnd
  unfolding has_seen
  push_loop account [] t s = (returned (filled t), s)
  push_loop account (ev ∷ evs) t s =
      let repeated = push_loop account evs (again ev.event_id t) s in
      if text_eq ev.account_did account
      then (if has_seen ev.event_id t.seen
          then repeated
          else ◌>>=◌ (store.put_event (as_stored ev))
              (λ result. push_loop account evs (counted ev.event_id result t)) s)
      else (returned (early (error_response 403 forbidden did_mismatch)), s)

  -- The sweep, whose failure is ignored, and the response.
  unfoldable pub finish_push : ℕ → Text → Outcome LoopEnd × S → Outcome HttpResult × S
  finish_push pruned_at account (returned (filled t), s) = (
    returned (json_result 200 (push_response t.accepted t.rejected)),
    (store.prune_expired_archives pruned_at account s).1,
  )
  finish_push pruned_at account (returned (early r), s) = (returned r, s)
  finish_push pruned_at account (threw, s) = (threw, s)

  unfoldable pub push_request : ℕ → Text → PushRequest → Call S HttpResult
  unfolding push_loop finish_push
  push_request pruned_at subject req =
      unless_answered (assert_subject_matches subject req.account_did) (λ s.
        finish_push pruned_at req.account_did (push_loop req.account_did req.events no_tally s))

  module _ (config : Config) where
    unfoldable pub push_read : ℕ → Text → Option PushRequest → Call S HttpResult
    unfolding push_request
    push_read pruned_at subject none s = (returned (error_response 400 bad_request invalid), s)
    push_read pruned_at subject (some req) s = push_request pruned_at subject req s

    unfoldable pub push_body : ℕ → Text → Option Json → Call S HttpResult
    unfolding push_read
    push_body pruned_at subject none s = (returned (error_response 400 bad_request invalid_json), s)
    push_body pruned_at subject (some body) s =
        push_read pruned_at subject (read_push_request config.formats body) s

    unfoldable pub push_as : ℕ → HttpEvent → TokenVerification → Call S HttpResult
    unfolding push_body
    push_as pruned_at event (refused reason) s = (returned (refusal reason), s)
    push_as pruned_at event (granted subject) s =
        push_body pruned_at subject (body_json event.body) s

    -- `verified_at` and `pruned_at` are the two times that the request reads.
    unfoldable pub push : ℕ → ℕ → HttpEvent → Call S HttpResult
    unfolding push_as
    push verified_at pruned_at event =
        continue (require_bearer config.codec config.signing verified_at event)
          (push_as pruned_at event)
