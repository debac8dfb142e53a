-- ===== src/Core/Schema.antt =====
-- The zod schemas of backend/core/src/types/api.ts as readers of JSON values. zod's UUID test and
-- the runtime's `Date.parse` are arguments; `z.object` drops the fields that it does not name.
use corner_tasks.Prelude.{
  ℕ, Bool, true, false, ◌&&◌, ◌||◌, not, Option, none, some, List, [], ◌∷◌, ◌==◌, if◌then◌else◌,
  leb, length, is_empty,
}
use corner_tasks.Prelude.Text.{Text, codes, text_eq, starts_with, text_drop}
use corner_tasks.Prelude.Json.{Json, arr, Items, nil, cons, get_field, as_str}
use corner_tasks.Core.Types.{Op, upsert, delete, SyncEvent}
use corner_tasks.Core.Did.{did_key_z}

pub record Formats : Type 0 where
  pub is_uuid : Text → Bool
  pub is_date : Text → Bool

unfoldable pub all_units : (ℕ → Bool) → Text → Bool
all_units p [] = true
all_units p (c ∷ s) = let rest = all_units p s in if p c then rest else false

abbrev pub between : ℕ → ℕ → ℕ → Bool
between lo hi c = leb lo c && leb c hi

-- /^[A-Za-z0-9_-]+$/
unfoldable pub is_base64url : Text → Bool
unfolding all_units
is_base64url s =
    not (is_empty s)
    && all_units
        (λ c.
          between b'A' b'Z' c
          || between b'a' b'z' c
          || between b'0' b'9' c
          || (c == b'_')
          || (c == b'-'))
        s

abbrev pub is_base58_unit : ℕ → Bool
is_base58_unit c =
    between b'1' b'9' c
    || between b'A' b'H' c
    || between b'J' b'N' c
    || between b'P' b'Z' c
    || between b'a' b'k' c
    || between b'm' b'z' c

-- /^did:key:z[1-9A-HJ-NP-Za-km-z]+$/
unfoldable pub is_did_key : Text → Bool
unfolding all_units
is_did_key s =
    starts_with did_key_z s
    && not (is_empty (text_drop 9 s))
    && all_units is_base58_unit (text_drop 9 s)

abbrev pub guarded : (Text → Bool) → Option Text → Option Text
guarded p none = none
guarded p (some s) = if p s then some s else none

infixl 5 ◌>>=◌
abbrev ◌>>=◌ : {A B : Type 0} → Option A → (A → Option B) → Option B
none >>= f = none
some a >>= f = f a

abbrev pub str_at : Text → Json → Option Text
str_at k v = as_str (get_field k v)

unfoldable pub op_of : Option Text → Option Op
op_of none = none
op_of (some s) =
    if text_eq s (codes "upsert")
    then some upsert
    else if text_eq s (codes "delete")
    then some delete
    else none

pub record PushRequest : Type 0 where
  pub account_did : Text
  pub events : List SyncEvent

pub record TokenRequest : Type 0 where
  pub account_did : Text
  pub did_jwt : Text

module _ (f : Formats) where
  open f use {is_uuid, is_date}

  -- `EventSchema`
  unfoldable pub read_event : Json → Option SyncEvent
  unfolding is_base64url is_did_key op_of
  read_event v = do
    account_did ← guarded is_did_key (str_at (codes "accountDid") v)
    device_id ← guarded is_uuid (str_at (codes "deviceId") v)
    event_id ← guarded is_uuid (str_at (codes "eventId") v)
    task_id ← guarded is_uuid (str_at (codes "taskId") v)
    updated_at ← guarded is_date (str_at (codes "updatedAt") v)
    op ← op_of (str_at (codes "op") v)
    ciphertext ← guarded is_base64url (str_at (codes "ciphertext") v)
    nonce ← guarded is_base64url (str_at (codes "nonce") v)
    some (record {
      account_did = account_did;
      device_id = device_id;
      event_id = event_id;
      task_id = task_id;
      updated_at = updated_at;
      op = op;
      ciphertext = ciphertext;
      nonce = nonce;
    })

  unfoldable pub read_events : Items → Option (List SyncEvent)
  unfolding read_event
  read_events nil = some []
  read_events (cons v vs) =
      let rest = read_events vs in do event ← read_event v; events ← rest; some (event ∷ events)

  -- `z.array(EventSchema).min(1).max(500)`
  unfoldable pub read_batch : Option Json → Option (List SyncEvent)
  unfolding read_events
  read_batch (some (arr items)) = do
    events ← read_events items
    if leb 1 (length events) && leb (length events) 500 then some events else none
  read_batch _ = none

  -- `PushRequestSchema`
  unfoldable pub read_push_request : Json → Option PushRequest
  unfolding read_batch is_did_key
  read_push_request v = do
    account_did ← guarded is_did_key (str_at (codes "accountDid") v)
    events ← read_batch (get_field (codes "events") v)
    some (record { account_did = account_did; events = events })

-- `ChallengeRequestSchema`
unfoldable pub read_challenge_request : Json → Option Text
unfolding is_did_key
read_challenge_request v = guarded is_did_key (str_at (codes "accountDid") v)

-- `TokenRequestSchema`
unfoldable pub read_token_request : Json → Option TokenRequest
unfolding is_did_key
read_token_request v = do
  account_did ← guarded is_did_key (str_at (codes "accountDid") v)
  did_jwt ← guarded (λ s. not (is_empty s)) (str_at (codes "didJwt") v)
  some (record { account_did = account_did; did_jwt = did_jwt })
