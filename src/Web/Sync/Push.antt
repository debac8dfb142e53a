-- ===== src/Web/Sync/Push.antt =====
-- `flushPushes` of apps/web/src/sync/SyncEngine.ts.
use corner_tasks.Prelude.{
  ℕ, Bool, false, none, some, List, [], ◌∷◌, ◌++◌, map, if◌then◌else◌, is_empty,
}
use corner_tasks.Prelude.Text.{Text}
use corner_tasks.Core.Types.{upsert, delete, SyncEvent}
use corner_tasks.Web.Wire.{Runtime}
use corner_tasks.Web.Session.{Reply, ok, failed, PushResponse, World, Identity, AuthSession}
use corner_tasks.Web.Tasks.{TaskStore, task_completed_at}
use corner_tasks.Web.Tasks.Queue.{
  PendingQueueRow, pending_queue_rows, mark_queue_rows_sent, mark_rows,
}
use corner_tasks.Web.Sync.{Engine, succeeded, broken, is_old, push_with_auth}

-- The rows of an upsert whose task is archived and old, and those to send.
abbrev pub is_skipped : ℕ → TaskStore → PendingQueueRow → Bool
is_skipped now s row = elim row.op [
  | upsert ↦ is_old now (task_completed_at row.task_id s)
  | delete ↦ false
]

unfoldable pub skipped_ids : ℕ → TaskStore → List PendingQueueRow → List Text
skipped_ids now s [] = []
skipped_ids now s (row ∷ rows) =
    let rest = skipped_ids now s rows in if is_skipped now s row then row.event_id ∷ rest else rest

-- The ids that a reply settles.
abbrev pub answered : PushResponse → List Text
answered response = response.accepted ++ map (λ r. r.event_id) response.rejected

abbrev pub mark_if_any : ℕ → List Text → TaskStore → TaskStore
mark_if_any at ids s = if is_empty ids then s else mark_queue_rows_sent at ids s

module _ {N : Type 0} (world : World N) (runtime : Runtime) (identity : Identity) where
  -- A row whose payload cannot be read is left out.
  unfoldable pub events_to_send : ℕ → TaskStore → List PendingQueueRow → List SyncEvent
  events_to_send now s [] = []
  events_to_send now s (row ∷ rows) =
      let rest = events_to_send now s rows in
      if is_skipped now s row
      then rest
      else elim (runtime.event_parse row.payload_json) [ none ↦ rest | some event ↦ event ∷ rest ]

  unfoldable pub settle : Reply PushResponse × AuthSession × N → Engine N → Engine N
  settle (failed _, session, n) e = record e {
    session = session;
    net = n;
    last_push_outcome = broken;
  }
  settle (ok response, session, n) e =
      let (at, n') = world.now n in
      record e {
        store = mark_if_any at (answered response) e.store;
        session = session;
        net = n';
        last_push_outcome = succeeded;
      }

  unfoldable pub send : List SyncEvent → Engine N → Engine N
  unfolding settle push_with_auth
  send [] e = e
  send (event ∷ events) e =
      settle (push_with_auth world runtime identity (event ∷ events) e.session e.net) e

  unfoldable pub flush_rows : List PendingQueueRow → Engine N → Engine N
  unfolding send events_to_send skipped_ids mark_rows
  flush_rows [] e = e
  flush_rows (row ∷ rows) e =
      let (now, n) = world.now e.net in
      let (at, n') = world.now n in
      let skipped = skipped_ids now e.store (row ∷ rows) in
      send (events_to_send now e.store (row ∷ rows)) (record e {
        store = mark_if_any at skipped e.store;
        net = if is_empty skipped then n else n';
      })

  unfoldable pub flush_pushes : Engine N → Engine N
  unfolding flush_rows
  flush_pushes e = flush_rows (pending_queue_rows e.store) e
