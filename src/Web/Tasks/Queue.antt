-- ===== src/Web/Tasks/Queue.antt =====
-- The outbound queue of apps/web/src/storage/TaskStore.ts.
use corner_tasks.Prelude.{
  ℕ, ltb, Bool, false, ◌||◌, not, Option, none, some, List, [], ◌∷◌, map, if◌then◌else◌, is_some,
  filter,
}
use corner_tasks.Prelude.Text.{Text, text_eq, text_lt}
use corner_tasks.Prelude.Outcome.{returned, threw}
use corner_tasks.Prelude.Call.{Call}
use corner_tasks.Core.Types.{Op, upsert}
use corner_tasks.Web.Tasks.{
  StoredTask, TaskMutationSnapshot, BuiltSyncEvent, QueueRow, Drawn, EventBuilder, TaskStore,
  all_stored, normalise_all, sort_by, get_stored,
}

pub record PendingQueueRow : Type 0 where
  pub event_id : Text
  pub task_id : Text
  pub op : Op
  pub payload_json : Text
  pub created_at : ℕ

abbrev pub to_pending : QueueRow → PendingQueueRow
to_pending r = record {
  event_id = r.event_id;
  task_id = r.task_id;
  op = r.op;
  payload_json = r.payload_json;
  created_at = r.created_at;
}

abbrev pub is_pending : QueueRow → Bool
is_pending r = not (is_some r.sent_at)

unfoldable pub pending_queue_rows : TaskStore → List PendingQueueRow
unfolding filter sort_by
pending_queue_rows s =
    map to_pending (sort_by (λ r q. ltb q.created_at r.created_at) (filter is_pending s.queue))

-- One `get` and `put` of `markQueueRowsSent`: the row keeps its key, so its place.
unfoldable pub mark_row : ℕ → Text → List QueueRow → List QueueRow
mark_row at id [] = []
mark_row at id (r ∷ rows) =
    let rest = mark_row at id rows in
    if text_eq r.event_id id then record r { sent_at = some at } ∷ rows else r ∷ rest

unfoldable pub mark_rows : ℕ → List Text → List QueueRow → List QueueRow
unfolding mark_row
mark_rows at [] rows = rows
mark_rows at (id ∷ ids) rows = mark_rows at ids (mark_row at id rows)

abbrev pub mark_queue_rows_sent : ℕ → List Text → TaskStore → TaskStore
mark_queue_rows_sent at ids s = record s { queue = mark_rows at ids s.queue }

abbrev pub clear_sync_queue : TaskStore → TaskStore
clear_sync_queue s = record s { queue = [] }

abbrev pub snapshot_of : Op → StoredTask → TaskMutationSnapshot
snapshot_of op row = record {
  task_id = row.id;
  op = op;
  title = row.title;
  created_at = row.created_at;
  completed_at = row.completed_at;
  due_date = row.due_date;
  order = row.order;
  updated_at = row.updated_at;
  deleted_at = row.deleted_at;
}

unfoldable pub live_snapshots : TaskStore → List TaskMutationSnapshot
unfolding filter sort_by normalise_all
live_snapshots s =
    map (λ r. record (snapshot_of upsert r) { deleted_at = none })
      (sort_by (λ r q. ltb q.created_at r.created_at)
        (filter (λ r. not (is_some r.deleted_at)) (all_stored s)))

unfoldable pub has_row : Text → List QueueRow → Bool
has_row id [] = false
has_row id (r ∷ rows) = text_eq r.event_id id || has_row id rows

unfoldable pub insert_row : QueueRow → List QueueRow → List QueueRow
insert_row new [] = new ∷ []
insert_row new (r ∷ rows) =
    let rest = insert_row new rows in
    if text_lt new.event_id r.event_id then new ∷ r ∷ rows else r ∷ rest

-- objectStore(QUEUE).add(row), which fails on a key that is there
unfoldable pub add_row : QueueRow → Call TaskStore Unit
unfolding has_row insert_row
add_row new s =
    if has_row new.event_id s.queue
    then (threw, s)
    else (returned tt, record s { queue = insert_row new s.queue })

-- The row of a built event, if the builder made one.
unfoldable pub add_built : TaskMutationSnapshot → Option BuiltSyncEvent → Call TaskStore Unit
unfolding add_row
add_built snap none s = (returned tt, s)
add_built snap (some event) s =
    add_row
      (record {
        event_id = event.event_id;
        task_id = snap.task_id;
        op = snap.op;
        payload_json = event.payload_json;
        created_at = snap.updated_at;
        sent_at = none;
      })
      s

abbrev pub with_builder : Option EventBuilder → Drawn → TaskMutationSnapshot → Option BuiltSyncEvent
with_builder none fresh snap = none
with_builder (some build) fresh snap = build fresh snap

unfoldable pub enqueue_snapshot : Drawn → TaskMutationSnapshot → Call TaskStore Unit
unfolding add_built
enqueue_snapshot fresh snap s = add_built snap (with_builder s.event_builder fresh snap) s

unfoldable pub snapshot : Text → Op → TaskStore → Option TaskMutationSnapshot
unfolding get_stored
snapshot id op s = elim (get_stored id s) [
  | none ↦ none
  | some row ↦ some (record (snapshot_of op row) { task_id = id })
]

-- Without a builder nothing is queued; nor without a row.
unfoldable pub enqueue_found : Drawn → Option TaskMutationSnapshot → Call TaskStore Unit
unfolding enqueue_snapshot
enqueue_found fresh none s = (returned tt, s)
enqueue_found fresh (some snap) s = enqueue_snapshot fresh snap s

unfoldable pub enqueue : Drawn → Text → Op → Call TaskStore Unit
unfolding snapshot enqueue_found
enqueue fresh id op s = enqueue_found fresh (snapshot id op s) s
