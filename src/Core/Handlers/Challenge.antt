-- ===== src/Core/Handlers/Challenge.antt =====
-- backend/core/src/handlers/auth/challenge.ts. `random` is `randomBytes(32)`.
use corner_tasks.Prelude.{ℕ, ◌+◌, ◌*◌, Option, none, some}
use corner_tasks.Prelude.Text.{Text}
use corner_tasks.Prelude.Int.{pos}
use corner_tasks.Prelude.Json.{Json}
use corner_tasks.Prelude.Outcome.{returned}
use corner_tasks.Core.Jwt.{Bytes}
use corner_tasks.Core.Http.{
  HttpEvent, HttpResult, invalid_json, invalid_did, bad_request, challenge_response, json_result,
  error_response, audience_from_event,
}
use corner_tasks.Core.Store.{Call, Store, ◌>>=◌}
use corner_tasks.Core.Schema.{read_challenge_request}
use corner_tasks.Core.Config.{Config}
use corner_tasks.Core.Handlers.Push.{body_json}

abbrev pub challenge_ttl_ms : ℕ
challenge_ttl_ms = 5 * 60 * 1000

module _ {S : Type 0} (store : Store S) (config : Config) where
  unfoldable pub issue_challenge : ℕ → Bytes → HttpEvent → Option Text → Call S HttpResult
  issue_challenge now random event none s =
      (returned (error_response 400 bad_request invalid_did), s)
  issue_challenge now random event (some account) s =
      let challenge = config.codec.base64url_encode random in
      ◌>>=◌
        (store.put_challenge (record {
          account_did = account;
          challenge = challenge;
          expires_at = now + challenge_ttl_ms;
        }))
        (λ _ s'. (
          returned (
              json_result 200 (
                challenge_response challenge (audience_from_event event)
                  (config.iso (pos (now + challenge_ttl_ms))))),
          s',
        ))
        s

  unfoldable pub challenge_body : ℕ → Bytes → HttpEvent → Option Json → Call S HttpResult
  unfolding issue_challenge
  challenge_body now random event none s =
      (returned (error_response 400 bad_request invalid_json), s)
  challenge_body now random event (some body) s =
      issue_challenge now random event (read_challenge_request body) s

  unfoldable pub challenge : ℕ → Bytes → HttpEvent → Call S HttpResult
  unfolding challenge_body
  challenge now random event = challenge_body now random event (body_json event.body)
