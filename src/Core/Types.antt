-- ===== src/Core/Types.antt =====
-- backend/core/src/types/api.ts and the data of backend/core/src/lib/db.ts.
use corner_tasks.Prelude.{ℕ, ◌*◌, Option, List, Bool}
use corner_tasks.Prelude.Text.{Text}

pub data Op : Type 0 where
  upsert delete : Op

pub Op-discrete : Discrete Op
Op-discrete = hlevel

pub record SyncEvent : Type 0 where
  pub account_did : Text
  pub device_id : Text
  pub event_id : Text
  pub task_id : Text
  pub updated_at : Text
  pub op : Op
  pub ciphertext : Text
  pub nonce : Text

-- `StoredEvent extends SyncEvent`; `null` and an absent field are both `none`.
pub record StoredEvent : Type 0 where
  pub event : SyncEvent
  pub open event use *
  pub archived_completed_at : Option Text
  pub seq : Option ℕ

-- An explicit list of the fields that leave the server.
abbrev pub to_wire_event : StoredEvent → SyncEvent
to_wire_event ev = record {
  account_did = ev.account_did;
  device_id = ev.device_id;
  event_id = ev.event_id;
  task_id = ev.task_id;
  updated_at = ev.updated_at;
  op = ev.op;
  ciphertext = ev.ciphertext;
  nonce = ev.nonce;
}

pub record PutResult : Type 0 where
  pub accepted : Bool
  pub seq : Option ℕ

pub record QueryEventsResult : Type 0 where
  pub events : List StoredEvent
  pub next_cursor : Text

pub record AuthChallenge : Type 0 where
  pub account_did : Text
  pub challenge : Text
  pub expires_at : ℕ

abbrev pub archive_retention_days : ℕ
archive_retention_days = 60

abbrev pub archive_retention_ms : ℕ
archive_retention_ms = archive_retention_days * 24 * 60 * 60 * 1000
