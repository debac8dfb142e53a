-- ===== src/Tests/Fixtures.antt =====
-- Small inputs: two events of one task, a server that signs and verifies anything, its requests.
use corner_tasks.Prelude.{true, Option, none, some, List, [], ◌∷◌, if◌then◌else◌}
use corner_tasks.Prelude.Text.{Text, codes, text_eq}
use corner_tasks.Prelude.Int.{ℤ, pos}
use corner_tasks.Prelude.Json.{Json, str, num, obj, arr, end, field, nil, cons}
use corner_tasks.Prelude.Outcome.{returned}
use corner_tasks.Core.Types.{upsert, SyncEvent, StoredEvent}
use corner_tasks.Core.Jwt.{Bytes, Codec, ed_dsa}
use corner_tasks.Core.Did.{Base58}
use corner_tasks.Core.Schema.{Formats}
use corner_tasks.Core.Config.{Config}
use corner_tasks.Core.Http.{HttpEvent, json}

abbrev pub alice : Text
alice = codes "did:key:zA"

abbrev pub bob : Text
bob = codes "did:key:zB"

abbrev pub milk : Text
milk = codes "milk"

abbrev pub event_at : Text → Text → SyncEvent
event_at updated_at event_id = record {
  account_did = alice;
  device_id = codes "d";
  event_id = event_id;
  task_id = milk;
  updated_at = updated_at;
  op = upsert;
  ciphertext = codes "c";
  nonce = codes "n";
}

abbrev pub stored_at : Text → Text → StoredEvent
stored_at updated_at event_id = record {
  event = event_at updated_at event_id;
  archived_completed_at = none;
  seq = none;
}

abbrev pub monday : StoredEvent
monday = stored_at (codes "2026-01-05T00:00:00.000Z") (codes "e1")

abbrev pub tuesday : StoredEvent
tuesday = stored_at (codes "2026-01-06T00:00:00.000Z") (codes "e2")

abbrev pub iso : ℤ → Text
iso _ = codes "2026-01-01T00:00:00.000Z"

abbrev did_header : Json
did_header = obj (
    field (codes "alg") (str (codes "EdDSA")) (
      field (codes "typ") (str (codes "JWT"))
        (field (codes "kid") (str (codes "did:key:zA#zA")) end)))

abbrev did_claims : Json
did_claims = obj (
    field (codes "iss") (str alice) (
      field (codes "sub") (str alice) (
        field (codes "aud") (str (codes "https://api/v1")) (
          field (codes "iat") (num (pos 1000)) (
            field (codes "exp") (num (pos 1200))
              (field (codes "nonce") (str (codes "once")) end))))))

abbrev bearer_claims : Json
bearer_claims = obj (
    field (codes "aud") (str (codes "cornertasks-sync-v1"))
      (field (codes "exp") (num (pos 5000)) (field (codes "sub") (str alice) end)))

-- The parts of the two tokens are the letters h, d and b.
abbrev json_of : Bytes → Option Json
json_of bytes =
    if text_eq bytes (codes "h")
    then some did_header
    else if text_eq bytes (codes "d")
    then some did_claims
    else if text_eq bytes (codes "b")
    then some bearer_claims
    else none

abbrev pub codec : Codec
codec = record {
  base64url_encode = λ b. b;
  base64url_decode = λ t. t;
  utf8_encode = λ t. t;
  json_parse = json_of;
  json_bytes = λ _. codes "j";
  ed_verify = λ _ _ _. returned true;
  ed_sign = λ _ _. codes "s";
  hmac_sha256 = λ _ _. codes "m";
}

abbrev pub key : Bytes
key =
    0 ∷ 1 ∷ 2 ∷ 3 ∷ 4 ∷ 5 ∷ 6 ∷ 7 ∷ 8 ∷ 9 ∷ 10 ∷ 11 ∷ 12 ∷ 13 ∷ 14 ∷ 15 ∷ 16 ∷ 17 ∷ 18 ∷ 19 ∷ 20
    ∷ 21 ∷ 22 ∷ 23 ∷ 24 ∷ 25 ∷ 26 ∷ 27 ∷ 28 ∷ 29 ∷ 30 ∷ 31 ∷ []

abbrev pub base58 : Base58
base58 = record { decode = λ _. some (0xed ∷ 0x01 ∷ key); encode = λ _. codes "A" }

abbrev pub formats : Formats
formats = record { is_uuid = λ _. true; is_date = λ _. true }

abbrev pub config : Config
config = record {
  codec = codec;
  base58 = base58;
  formats = formats;
  signing = record { alg = ed_dsa; kid = codes "k"; private_key = key; public_key = key };
  iso = iso;
  access_token_ttl_s = 3600;
}

abbrev pub request : List (Text × Text) → Json → HttpEvent
request headers body = record {
  headers = headers;
  query = [];
  body = json body;
  domain_name = codes "api";
  stage = codes "v1";
  method = codes "POST";
  path = codes "/";
}

abbrev pub token_event : HttpEvent
token_event = request [] (
    obj (field (codes "accountDid") (str alice) (field (codes "didJwt") (str (codes "h.d.s")) end)))

abbrev wire_json : Json
wire_json = obj (
    field (codes "accountDid") (str alice) (
      field (codes "deviceId") (str (codes "d")) (
        field (codes "eventId") (str (codes "e1")) (
          field (codes "taskId") (str milk) (
            field (codes "updatedAt") (str (codes "2026-01-05T00:00:00.000Z")) (
              field (codes "op") (str (codes "upsert")) (
                field (codes "ciphertext") (str (codes "c"))
                  (field (codes "nonce") (str (codes "n")) end))))))))

abbrev pub push_event : HttpEvent
push_event = request ((codes "authorization", codes "Bearer h.b.s") ∷ []) (
    obj (
      field (codes "accountDid") (str alice)
        (field (codes "events") (arr (cons wire_json nil)) end)))
