-- ===== src/Web/Tasks.antt =====
-- apps/web/src/storage/TaskStore.ts, its state and its reads. Times are ℕ and orders ℤ; an object
-- store is the list of its values in the order of their keys, as `getAll` returns them.
pub mod Mutations
pub mod Queue
pub mod Remote
pub mod Migration
pub mod Lookup
pub mod Lww
pub mod Convergence
pub mod Edits
pub mod Pending
use corner_tasks.Prelude.{
  ℕ, ◌+◌, max, Bool, true, false, not, Option, none, some, List, [], ◌∷◌, map, ltb, leb,
  if◌then◌else◌, filter, is_some,
}
use corner_tasks.Prelude.Text.{Text, text_eq, text_lt}
use corner_tasks.Prelude.Int.{ℤ, pos, ltb_ℤ}
use corner_tasks.Core.Types.{Op}

pub record StoredTask : Type 0 where
  pub id : Text
  pub title : Text
  pub created_at : ℕ
  pub completed_at : Option ℕ
  pub due_date : Option ℕ
  pub order : ℤ
  pub updated_at : ℕ
  pub deleted_at : Option ℕ

-- What an object of the `tasks` store holds: none where a field is missing or has another type.
pub record RawTask : Type 0 where
  pub id : Option Text
  pub title : Option Text
  pub created_at : Option ℕ
  pub completed_at : Option ℕ
  pub due_date : Option ℕ
  pub order : Option ℤ
  pub updated_at : Option ℕ
  pub deleted_at : Option ℕ

abbrev pub or_else : {A : Type 0} → A → Option A → A
or_else d none = d
or_else d (some a) = a

-- Math.max(createdAt, completedAt, dueDate), of those that are numbers
abbrev pub latest_time : ℕ → Option ℕ → Option ℕ → ℕ
latest_time created completed due = max created (max (or_else 0 completed) (or_else 0 due))

abbrev pub normalise_named : Text → RawTask → StoredTask
normalise_named id raw =
    let created = or_else 0 raw.created_at in
    record {
      id = id;
      title = or_else [] raw.title;
      created_at = created;
      completed_at = raw.completed_at;
      due_date = raw.due_date;
      order = or_else (pos 0) raw.order;
      updated_at = or_else (latest_time created raw.completed_at raw.due_date) raw.updated_at;
      deleted_at = raw.deleted_at;
    }

unfoldable pub normalise_stored : Option RawTask → Option StoredTask
normalise_stored none = none
normalise_stored (some raw) = elim raw.id [ none ↦ none | some id ↦ some (normalise_named id raw) ]

-- The object that `put` and `add` are given.
abbrev pub raw_of : StoredTask → RawTask
raw_of s = record {
  id = some s.id;
  title = some s.title;
  created_at = some s.created_at;
  completed_at = s.completed_at;
  due_date = s.due_date;
  order = some s.order;
  updated_at = some s.updated_at;
  deleted_at = s.deleted_at;
}

pub record TaskItem : Type 0 where
  pub id : Text
  pub title : Text
  pub created_at : ℕ
  pub completed_at : Option ℕ
  pub due_date : Option ℕ
  pub order : ℤ

abbrev pub is_done : TaskItem → Bool
is_done t = is_some t.completed_at

abbrev pub to_stored : TaskItem → ℕ → StoredTask
to_stored t updated_at = record {
  id = t.id;
  title = t.title;
  created_at = t.created_at;
  completed_at = t.completed_at;
  due_date = t.due_date;
  order = t.order;
  updated_at = updated_at;
  deleted_at = none;
}

abbrev pub from_stored : StoredTask → TaskItem
from_stored s = record {
  id = s.id;
  title = s.title;
  created_at = s.created_at;
  completed_at = s.completed_at;
  due_date = s.due_date;
  order = s.order;
}

pub record TaskMutationSnapshot : Type 0 where
  pub task_id : Text
  pub op : Op
  pub title : Text
  pub created_at : ℕ
  pub completed_at : Option ℕ
  pub due_date : Option ℕ
  pub order : ℤ
  pub updated_at : ℕ
  pub deleted_at : Option ℕ

pub record BuiltSyncEvent : Type 0 where
  pub event_id : Text
  pub payload_json : Text

pub record QueueRow : Type 0 where
  pub event_id : Text
  pub task_id : Text
  pub op : Op
  pub payload_json : Text
  pub created_at : ℕ
  pub sent_at : Option ℕ

-- What one call of an event builder draws: an event id, and the bytes of the nonce.
pub record Drawn : Type 0 where
  pub event_id : Text
  pub iv : List ℕ

abbrev pub EventBuilder : Type 0
EventBuilder = Drawn → TaskMutationSnapshot → Option BuiltSyncEvent

pub record TaskStore : Type 0 where
  pub tasks : List RawTask
  pub queue : List QueueRow
  pub last_event_id_by_task : List (Text × Text)
  pub event_builder : Option EventBuilder

-- Is the object's key `id`? Keys that are not texts come first.
abbrev pub keyed : Text → RawTask → Bool
keyed id row = elim row.id [ none ↦ false | some k ↦ text_eq k id ]

abbrev pub key_after : Text → RawTask → Bool
key_after id row = elim row.id [ none ↦ false | some k ↦ text_lt id k ]

-- objectStore(STORE).get(id)
unfoldable pub get_task : Text → List RawTask → Option RawTask
get_task id [] = none
get_task id (row ∷ rows) = if keyed id row then some row else get_task id rows

-- objectStore(STORE).put(s)
unfoldable pub put_task : StoredTask → List RawTask → List RawTask
put_task s [] = raw_of s ∷ []
put_task s (row ∷ rows) =
    let rest = put_task s rows in
    if keyed s.id row
    then raw_of s ∷ rows
    else if key_after s.id row
    then raw_of s ∷ row ∷ rows
    else row ∷ rest

-- objectStore(STORE).delete(id)
unfoldable pub delete_task : Text → List RawTask → List RawTask
unfolding filter
delete_task id rows = filter (λ row. not (keyed id row)) rows

unfoldable pub get_stored : Text → TaskStore → Option StoredTask
get_stored id s = normalise_stored (get_task id s.tasks)

unfoldable pub normalise_all : List RawTask → List StoredTask
unfolding normalise_stored
normalise_all [] = []
normalise_all (raw ∷ raws) =
    let rest = normalise_all raws in
    elim (normalise_stored (some raw)) [ none ↦ rest | some s ↦ s ∷ rest ]

abbrev pub all_stored : TaskStore → List StoredTask
all_stored s = normalise_all s.tasks

unfoldable pub all : TaskStore → List TaskItem
unfolding filter normalise_all
all s = map from_stored (filter (λ r. not (is_some r.deleted_at)) (all_stored s))

-- A stable sort: `x` may stand before what it is not after.
unfoldable pub insert_by : {A : Type 0} → (A → A → Bool) → A → List A → List A
insert_by after x [] = x ∷ []
insert_by after x (y ∷ ys) =
    let rest = insert_by after x ys in if after x y then y ∷ rest else x ∷ y ∷ ys

unfoldable pub sort_by : {A : Type 0} → (A → A → Bool) → List A → List A
unfolding insert_by
sort_by after [] = []
sort_by after (x ∷ xs) = insert_by after x (sort_by after xs)

unfoldable pub active_tasks : TaskStore → List TaskItem
unfolding all filter sort_by
active_tasks s = sort_by (λ t u. ltb_ℤ u.order t.order) (filter (λ t. not (is_done t)) (all s))

unfoldable pub archived_tasks : TaskStore → List TaskItem
unfolding all filter sort_by
archived_tasks s =
    sort_by (λ t u. ltb (or_else 0 t.completed_at) (or_else 0 u.completed_at))
      (filter is_done (all s))

unfoldable pub task_completed_at : Text → TaskStore → Option ℕ
unfolding get_stored
task_completed_at id s = elim (get_stored id s) [ none ↦ none | some row ↦ row.completed_at ]
