-- ===== src/Core/Handlers/Pull.antt =====
-- backend/core/src/handlers/pull.ts.
use corner_tasks.Prelude.{ℕ, Option, none, some, map, or_else, if◌then◌else◌, is_empty}
use corner_tasks.Prelude.Text.{Text, codes}
use corner_tasks.Prelude.Outcome.{returned}
use corner_tasks.Core.Types.{to_wire_event}
use corner_tasks.Core.Cursor.{is_cursor}
use corner_tasks.Core.Http.{
  HttpEvent, HttpResult, lookup, no_account_did, malformed_account_did, invalid_cursor, bad_request,
  pull_response, json_result, error_response,
}
use corner_tasks.Core.Store.{Call, Store, continue, ◌>>=◌, unless_answered}
use corner_tasks.Core.Auth.{
  granted, refused, TokenVerification, require_bearer, refusal, assert_subject_matches,
}
use corner_tasks.Core.Schema.{is_did_key}
use corner_tasks.Core.Config.{Config}

module _ {S : Type 0} (store : Store S) (config : Config) where
  unfoldable pub pull_account : ℕ → Text → Text → Text → Call S HttpResult
  pull_account queried_at subject account cursor =
      unless_answered (assert_subject_matches subject account) (
        ◌>>=◌ (store.query_events_after queried_at account cursor) (λ result s. (
          returned (
              json_result 200 (pull_response (map to_wire_event result.events) result.next_cursor)),
          s,
        )))

  unfoldable pub pull_checked : ℕ → Text → Option Text → Text → Call S HttpResult
  unfolding pull_account
  pull_checked queried_at subject none cursor s =
      (returned (error_response 400 bad_request no_account_did), s)
  pull_checked queried_at subject (some account) cursor s =
      if is_empty account
      then (returned (error_response 400 bad_request no_account_did), s)
      else if is_did_key account
      then (if is_cursor cursor
          then pull_account queried_at subject account cursor s
          else (returned (error_response 400 bad_request invalid_cursor), s))
      else (returned (error_response 400 bad_request malformed_account_did), s)

  unfoldable pub pull_as : ℕ → HttpEvent → TokenVerification → Call S HttpResult
  unfolding pull_checked
  pull_as queried_at event (refused reason) s = (returned (refusal reason), s)
  pull_as queried_at event (granted subject) s =
      pull_checked queried_at subject (lookup (codes "accountDid") event.query)
        (or_else (lookup (codes "cursor") event.query) (codes "0")) s

  unfoldable pub pull : ℕ → ℕ → HttpEvent → Call S HttpResult
  unfolding pull_as
  pull verified_at queried_at event =
      continue (require_bearer config.codec config.signing verified_at event)
        (pull_as queried_at event)
