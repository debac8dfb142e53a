-- ===== src/Core/Sqlite/Rows.antt =====
-- backend/core/src/lib/sqlite-store.ts: the schema and the prepared statements.
use corner_tasks.Prelude.{
  ℕ, ◌+◌, Bool, false, ◌&&◌, not, Option, none, some, List, [], ◌∷◌, ltb, leb, if◌then◌else◌,
  filter,
}
use corner_tasks.Prelude.Text.{Text, text_eq, text_lt}
use corner_tasks.Core.Types.{Op, StoredEvent}

-- Everything about a stored event that is neither in the row's key nor queried on.
pub record EventPayload : Type 0 where
  pub device_id : Text
  pub event_id : Text
  pub updated_at : Text
  pub op : Op
  pub ciphertext : Text
  pub nonce : Text

pub record EventRow : Type 0 where
  pub account_did : Text
  pub task_id : Text
  pub seq : ℕ
  pub payload : EventPayload
  pub archived_completed_at : Option Text

pub record ChallengeRow : Type 0 where
  pub account_did : Text
  pub challenge : Text
  pub expires_at : ℕ

pub record Db : Type 0 where
  pub events : List EventRow
  pub seq_counters : List (Text × ℕ)
  pub challenges : List ChallengeRow

unfoldable pub create_schema : Db
create_schema = record { events = []; seq_counters = []; challenges = [] }

abbrev pub to_stored_event : EventRow → StoredEvent
to_stored_event row = record {
  event = record {
    account_did = row.account_did;
    device_id = row.payload.device_id;
    event_id = row.payload.event_id;
    task_id = row.task_id;
    updated_at = row.payload.updated_at;
    op = row.payload.op;
    ciphertext = row.payload.ciphertext;
    nonce = row.payload.nonce;
  };
  archived_completed_at = row.archived_completed_at;
  seq = some row.seq;
}

abbrev pub row_of : StoredEvent → ℕ → EventRow
row_of ev n = record {
  account_did = ev.account_did;
  task_id = ev.task_id;
  seq = n;
  payload = record {
    device_id = ev.device_id;
    event_id = ev.event_id;
    updated_at = ev.updated_at;
    op = ev.op;
    ciphertext = ev.ciphertext;
    nonce = ev.nonce;
  };
  archived_completed_at = ev.archived_completed_at;
}

-- The counter that an account has, 0 where it has none.
unfoldable pub counter : Text → List (Text × ℕ) → ℕ
counter a [] = 0
counter a ((b, n) ∷ rest) = if text_eq b a then n else counter a rest

-- INSERT INTO seq_counters VALUES (?, 1) ON CONFLICT DO UPDATE SET seq = seq + 1
unfoldable pub bump_counter : Text → List (Text × ℕ) → List (Text × ℕ)
bump_counter a [] = (a, 1) ∷ []
bump_counter a ((b, n) ∷ rest) =
    let rest' = bump_counter a rest in if text_eq b a then (b, n + 1) ∷ rest else (b, n) ∷ rest'

abbrev pub has_key : Text → Text → EventRow → Bool
has_key a t row = text_eq row.account_did a && text_eq row.task_id t

-- SELECT … FROM events WHERE account_did = ? AND task_id = ?
unfoldable pub get_event : Text → Text → List EventRow → Option EventRow
get_event a t [] = none
get_event a t (row ∷ rows) = if has_key a t row then some row else get_event a t rows

-- INSERT INTO events … ON CONFLICT(account_did, task_id) DO UPDATE SET …
unfoldable pub upsert_event : EventRow → List EventRow → List EventRow
upsert_event new [] = new ∷ []
upsert_event new (row ∷ rows) =
    let rest = upsert_event new rows in
    if has_key new.account_did new.task_id row then new ∷ rows else row ∷ rest

-- ORDER BY seq ASC
unfoldable pub insert_by_seq : EventRow → List EventRow → List EventRow
insert_by_seq new [] = new ∷ []
insert_by_seq new (row ∷ rows) =
    let rest = insert_by_seq new rows in
    if leb new.seq row.seq then new ∷ row ∷ rows else row ∷ rest

unfoldable pub sort_by_seq : List EventRow → List EventRow
unfolding insert_by_seq
sort_by_seq [] = []
sort_by_seq (row ∷ rows) = insert_by_seq row (sort_by_seq rows)

-- SELECT … FROM events WHERE account_did = ? AND seq > ? ORDER BY seq ASC
unfoldable pub query_after : Text → ℕ → List EventRow → List EventRow
unfolding sort_by_seq filter
query_after a n rows = sort_by_seq (filter (λ row. text_eq row.account_did a && ltb n row.seq) rows)

-- `archived_completed_at IS NOT NULL AND archived_completed_at < ?`
abbrev pub archived_before : Text → Option Text → Bool
archived_before cutoff none = false
archived_before cutoff (some at) = text_lt at cutoff

-- SELECT task_id FROM events WHERE account_did = ? AND archived_completed_at …
unfoldable pub prune_candidates : Text → Text → List EventRow → List Text
prune_candidates a cutoff [] = []
prune_candidates a cutoff (row ∷ rows) =
    let rest = prune_candidates a cutoff rows in
    if text_eq row.account_did a && archived_before cutoff row.archived_completed_at
    then row.task_id ∷ rest
    else rest

-- DELETE FROM events WHERE account_did = ? AND task_id = ?
unfoldable pub delete_event : Text → Text → List EventRow → List EventRow
unfolding filter
delete_event a t rows = filter (λ row. not (has_key a t row)) rows

abbrev pub names : Text → Text → ChallengeRow → Bool
names a c row = text_eq row.account_did a && text_eq row.challenge c

-- SELECT expires_at FROM challenges WHERE account_did = ? AND challenge = ?
unfoldable pub get_challenge : Text → Text → List ChallengeRow → Option ℕ
get_challenge a c [] = none
get_challenge a c (row ∷ rows) =
    if names a c row then some row.expires_at else get_challenge a c rows

-- INSERT INTO challenges … ON CONFLICT DO UPDATE SET expires_at = excluded.expires_at
unfoldable pub upsert_challenge : ChallengeRow → List ChallengeRow → List ChallengeRow
upsert_challenge new [] = new ∷ []
upsert_challenge new (row ∷ rows) =
    let rest = upsert_challenge new rows in
    if names new.account_did new.challenge row then new ∷ rows else row ∷ rest

-- DELETE FROM challenges WHERE account_did = ? AND challenge = ?
unfoldable pub delete_challenge : Text → Text → List ChallengeRow → List ChallengeRow
unfolding filter
delete_challenge a c rows = filter (λ row. not (names a c row)) rows
