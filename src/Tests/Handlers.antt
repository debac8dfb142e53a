-- ===== src/Tests/Handlers.antt =====
-- The theorems about the handlers, at small requests.
use corner_tasks.Prelude.Int.{◌-ℤ◌}
use corner_tasks.Prelude.Json.{field_of}
use corner_tasks.Core.Jwt.{sign_ed_dsa, alg_of, verify_ed_dsa, read_header, decode_jwt}
use corner_tasks.Prelude.{filter, ◌≡◌, ◌≢◌, refl, some, List, [], ◌∷◌}
use corner_tasks.Prelude.Text.{
  text_drop, trim, split, to_lower, starts_with, codes, text_eq, text_eq_iff,
}
use corner_tasks.Prelude.Outcome.{Outcome, returned, threw}
use corner_tasks.Core.Http.{audience_from_event, lookup, HttpResult, push_response, json_result}
use corner_tasks.Core.Did.{
  method_specific_id, public_key_from_did, did_from_public_key,
  public_key_from_did-did_from_public_key,
}
use corner_tasks.Core.Auth.{verify_bearer_token, assert_subject_matches, require_bearer, granted}
use corner_tasks.Core.Schema.{is_did_key, all_units, read_token_request, PushRequest}
use corner_tasks.Core.Store.{sqlite_store}
use corner_tasks.Core.Sqlite.Rows.{
  upsert_challenge, delete_challenge, get_challenge, get_event, Db, create_schema,
}
use corner_tasks.Core.Sqlite.Methods.{
  consume_challenge, put_challenge, prune_expired_archives, put_event,
}
use corner_tasks.Core.Handlers.Push.{push, push_request}
use corner_tasks.Core.Handlers.Push.Accounts.{
  holdings, PushCall, serve_pushes, push_isolated, retention_never_sweeps,
}
use corner_tasks.Core.Handlers.Push.Report.{Answers, push-Answers_all}
use corner_tasks.Core.Handlers.Token.{Times, token}
use corner_tasks.Core.Handlers.Token.Once.{token_once}
use corner_tasks.Tests.Fixtures.{
  alice, bob, milk, iso, config, key, base58, monday, token_event, push_event,
}

bearer_alice : require_bearer config.codec config.signing 1000 push_event ≡ returned (granted alice)
unfolding require_bearer lookup text_eq starts_with to_lower verify_bearer_token decode_jwt split
    trim text_drop read_header field_of verify_ed_dsa
bearer_alice = refl

alice-bob : ¬ (alice ≡ bob)
unfolding text_eq
alice-bob e = cc ((text_eq_iff alice bob).1 e)

not_bob : require_bearer config.codec config.signing 1000 push_event ≢ returned (granted bob)
not_bob e = alice-bob (cc (bearer_alice, e))

push_isolated_example :
    holdings bob milk (push (sqlite_store iso) config 1000 1000 push_event create_schema).1
    ≡ holdings bob milk create_schema
push_isolated_example = push_isolated config 1000 1000 push_event create_schema bob milk not_bob

abbrev calls : List PushCall
calls = record { verified_at = 1000; pruned_at = 1000; event = push_event } ∷ []

retention_never_sweeps_example :
    (prune_expired_archives iso 99 alice (serve_pushes config calls create_schema)).1 ≡ 0
retention_never_sweeps_example = retention_never_sweeps config calls 99 alice

abbrev batch : PushRequest
batch = record { account_did = alice; events = monday.event ∷ monday.event ∷ [] }

abbrev batch_reply : HttpResult
batch_reply = json_result 200 (push_response (codes "e1" ∷ codes "e1" ∷ []) [])

push-Answers_all_example : Answers batch_reply batch.events
unfolding push_request assert_subject_matches text_eq put_event get_event create_schema
push-Answers_all_example =
    push-Answers_all (sqlite_store iso) 1000 alice batch create_schema
      (push_request (sqlite_store iso) 1000 alice batch create_schema).1 batch_reply refl refl

abbrev challenged : Db
challenged =
    put_challenge (record { account_did = alice; challenge = codes "once"; expires_at = 2000000 })
      create_schema

abbrev times : Times
times = record { checked_at = 1050000; consumed_at = 1050000; issued_at = 1050000 }

abbrev reply_of : Outcome HttpResult → HttpResult
reply_of (returned r) = r
reply_of threw = json_result 500 (push_response [] [])

abbrev after_first : Outcome HttpResult × Db
after_first = token (sqlite_store iso) config times (codes "t1") token_event challenged

abbrev after_second : Outcome HttpResult × Db
after_second = token (sqlite_store iso) config times (codes "t2") token_event after_first.1

token_once_example : (reply_of after_second.0).status ≢ 200
unfolding token read_token_request field_of text_eq starts_with text_drop public_key_from_did
    decode_jwt split read_header method_specific_id verify_ed_dsa audience_from_event ◌-ℤ◌
    consume_challenge get_challenge put_challenge alg_of sign_ed_dsa all_units is_did_key
    delete_challenge upsert_challenge filter create_schema
token_once_example =
    token_once iso config token_event times times (codes "t1") (codes "t2") challenged after_first.1
      after_second.1 (reply_of after_first.0) (reply_of after_second.0) refl refl refl

public_key_from_did-did_from_public_key_example : public_key_from_did base58 alice ≡ some key
unfolding did_from_public_key
public_key_from_did-did_from_public_key_example =
    public_key_from_did-did_from_public_key base58 key alice refl refl
