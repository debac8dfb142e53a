-- ===== src/Web/Tasks/Remote.antt =====
-- Applying pulled events, in apps/web/src/storage/TaskStore.ts.
use corner_tasks.Prelude.{
  ℕ, Bool, true, false, not, Option, none, some, List, [], ◌∷◌, ltb, if◌then◌else◌, is_empty,
}
use corner_tasks.Prelude.Text.{Text, text_eq, text_lt}
use corner_tasks.Prelude.Int.{ℤ, pos}
use corner_tasks.Web.Tasks.{StoredTask, TaskStore, put_task, get_stored}

pub record RemoteUpsert : Type 0 where
  pub task_id : Text
  pub title : Text
  pub created_at : ℕ
  pub completed_at : Option ℕ
  pub due_date : Option ℕ
  pub order : ℤ
  pub updated_at : ℕ
  pub event_id : Text

pub record RemoteDelete : Type 0 where
  pub task_id : Text
  pub updated_at : ℕ
  pub event_id : Text

-- `lastEventIdByTask.get(id)`, and `.set(id, eventId)`
unfoldable pub get_last : Text → List (Text × Text) → Option Text
get_last id [] = none
get_last id ((k, v) ∷ rest) = if text_eq k id then some v else get_last id rest

unfoldable pub set_last : Text → Text → List (Text × Text) → List (Text × Text)
set_last id v [] = (id, v) ∷ []
set_last id v ((k, w) ∷ rest) =
    let rest' = set_last id v rest in if text_eq k id then (k, v) ∷ rest else (k, w) ∷ rest'

-- `!localEventId` holds of the empty text too.
abbrev pub follows : Option Text → Text → Bool
follows none incoming = true
follows (some local) incoming = if is_empty local then true else text_lt local incoming

unfoldable pub should_replace : ℕ → Option Text → ℕ → Text → Bool
should_replace local_updated local_event incoming_updated incoming_event =
    if ltb local_updated incoming_updated
    then true
    else if ltb incoming_updated local_updated
    then false
    else follows local_event incoming_event

-- Is there a row that an event of this time and id does not replace?
unfoldable pub is_kept : Option StoredTask → Option Text → ℕ → Text → Bool
unfolding should_replace
is_kept none last updated event_id = false
is_kept (some row) last updated event_id = not (should_replace row.updated_at last updated event_id)

abbrev pub write_remote : StoredTask → Text → TaskStore → TaskStore
write_remote row event_id s = record s {
  tasks = put_task row s.tasks;
  last_event_id_by_task = set_last row.id event_id s.last_event_id_by_task;
}

abbrev pub upserted : RemoteUpsert → StoredTask
upserted args = record {
  id = args.task_id;
  title = args.title;
  created_at = args.created_at;
  completed_at = args.completed_at;
  due_date = args.due_date;
  order = args.order;
  updated_at = args.updated_at;
  deleted_at = none;
}

-- The row of a deleted task: what was stored, or a blank one.
abbrev pub tombstone : RemoteDelete → Option StoredTask → StoredTask
tombstone args none = record {
  id = args.task_id;
  title = [];
  created_at = args.updated_at;
  completed_at = none;
  due_date = none;
  order = pos 0;
  updated_at = args.updated_at;
  deleted_at = some args.updated_at;
}
tombstone args (some row) = record row {
  updated_at = args.updated_at;
  deleted_at = some args.updated_at;
}

unfoldable pub apply_remote_upsert : RemoteUpsert → TaskStore → TaskStore
unfolding get_stored is_kept put_task set_last get_last
apply_remote_upsert args s =
    if is_kept (get_stored args.task_id s) (get_last args.task_id s.last_event_id_by_task)
      args.updated_at args.event_id
    then s
    else write_remote (upserted args) args.event_id s

unfoldable pub apply_remote_delete : RemoteDelete → TaskStore → TaskStore
unfolding get_stored is_kept put_task set_last get_last
apply_remote_delete args s =
    if is_kept (get_stored args.task_id s) (get_last args.task_id s.last_event_id_by_task)
      args.updated_at args.event_id
    then s
    else write_remote (tombstone args (get_stored args.task_id s)) args.event_id s
