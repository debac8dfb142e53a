-- ===== src/Web/Tasks/Lww.antt =====
-- Applying remote events in apps/web/src/storage/TaskStore.ts is last-writer-wins on
-- (updatedAt, eventId), and so devices that saw the same events show the same tasks.
use corner_tasks.Prelude.{
  ℕ, ◌≡◌, refl, sym, ◌∙◌, Bool, false, Option, none, some, List, [], ◌∷◌, arith, if◌then◌else◌, inl,
  inr, ltb, is_some, is_empty, Bool-cases, Option-cases,
}
use corner_tasks.Prelude.Text.{Text, text_eq, text_eq_iff, text_eq_refl, text_lt}
use corner_tasks.Prelude.Order.{IsStrict, lex, lex-IsStrict, ltb-IsStrict, text_lt-IsStrict}
use corner_tasks.Prelude.Latest.{latest}
use corner_tasks.Web.Tasks.{StoredTask, TaskItem, TaskStore, from_stored, or_else, get_stored}
use corner_tasks.Web.Tasks.Remote.{
  RemoteUpsert, RemoteDelete, get_last, should_replace, is_kept, write_remote, upserted, tombstone,
  apply_remote_upsert, apply_remote_delete,
}
use corner_tasks.Web.Tasks.Lookup.{get_stored-put_task, get_stored-named, get_last-set_last}

pub data RemoteEvent : Type 0 where
  upsert : RemoteUpsert → RemoteEvent
  delete : RemoteDelete → RemoteEvent

abbrev pub apply_remote : RemoteEvent → TaskStore → TaskStore
apply_remote (upsert args) s = apply_remote_upsert args s
apply_remote (delete args) s = apply_remote_delete args s

abbrev pub apply_all : List RemoteEvent → TaskStore → TaskStore
apply_all [] s = s
apply_all (ev ∷ evs) s = apply_all evs (apply_remote ev s)

-- What a device knows of a task: its version, and the task unless it is deleted.
pub record View : Type 0 where
  pub updated_at : ℕ
  pub event_id : Text
  pub shown : Option TaskItem

abbrev pub shown_of : StoredTask → Option TaskItem
shown_of row = if is_some row.deleted_at then none else some (from_stored row)

abbrev pub view_row : Option StoredTask → Option Text → Option View
view_row none last = none
view_row (some row) last =
    some (record { updated_at = row.updated_at; event_id = or_else [] last; shown = shown_of row })

abbrev pub seen : Text → TaskStore → Option View
seen t s = view_row (get_stored t s) (get_last t s.last_event_id_by_task)

abbrev pub task_of : RemoteEvent → Text
task_of (upsert args) = args.task_id
task_of (delete args) = args.task_id

abbrev pub id_of : RemoteEvent → Text
id_of (upsert args) = args.event_id
id_of (delete args) = args.event_id

abbrev pub view_of : RemoteEvent → View
view_of (upsert args) = record {
  updated_at = args.updated_at;
  event_id = args.event_id;
  shown = some (from_stored (upserted args));
}
view_of (delete args) = record {
  updated_at = args.updated_at;
  event_id = args.event_id;
  shown = none;
}

abbrev pub version : View → ℕ × Text
version v = (v.updated_at, v.event_id)

abbrev pub version_lt : ℕ × Text → ℕ × Text → Bool
version_lt = lex ltb text_lt

pub version_lt-IsStrict : IsStrict version_lt
version_lt-IsStrict = lex-IsStrict ltb text_lt ltb-IsStrict text_lt-IsStrict

-- `shouldReplace` is the order of the versions; an absent event id counts as the empty text.
pub should_replace-version_lt :
    (u v : ℕ) (last : Option Text) (e : Text)
    → is_empty e ≡ false
    → should_replace u last v e ≡ version_lt (u, or_else [] last) (v, e)
unfolding should_replace text_lt
should_replace-version_lt u v last [] h = cc h
should_replace-version_lt u v none (c ∷ e) h = ground arith
should_replace-version_lt u v (some []) (c ∷ e) h = ground arith
should_replace-version_lt u v (some (d ∷ l)) (c ∷ e) h = ground arith

seen-write_remote :
    (t e : Text) (row : StoredTask) (s : TaskStore)
    → seen t (write_remote row e s) ≡ (
        if text_eq row.id t
        then some (record { updated_at = row.updated_at; event_id = e; shown = shown_of row })
        else seen t s)
unfolding get_stored
seen-write_remote t e row s = elim (Bool-cases (text_eq row.id t)) [
  | inl same ↦
      rw (get_stored-put_task t row s, get_last-set_last t row.id e s.last_event_id_by_task, same)
  | inr apart ↦
      rw (get_stored-put_task t row s, get_last-set_last t row.id e s.last_event_id_by_task, apart)
]

-- The store after an event for task `t0`, by whether the event replaces.
abbrev replace : Text → ℕ → Text → StoredTask → TaskStore → TaskStore
replace t0 u e row s =
    if is_kept (get_stored t0 s) (get_last t0 s.last_event_id_by_task) u e
    then s
    else write_remote row e s

replace_same :
    (t0 e : Text) (u : ℕ) (row : StoredTask) (s : TaskStore)
    → is_empty e ≡ false
    → row.id ≡ t0
    → row.updated_at ≡ u
    → seen t0 (replace t0 u e row s)
      ≡ latest version_lt version
          (seen t0 s)
          (record { updated_at = u; event_id = e; shown = shown_of row })
unfolding is_kept
replace_same t0 e u row s h named stamped =
    let last = get_last t0 s.last_event_id_by_task in
    let written = seen-write_remote t0 e row s in
    elim (Option-cases (get_stored t0 s)) [
      | inl absent ↦ rw absent (written ∙ rw (named, text_eq_refl t0, stamped))
      | inr (held, present) ↦
          rw (present, should_replace-version_lt held.updated_at u last e h)
            (elim (Bool-cases (version_lt (held.updated_at, or_else [] last) (u, e))) [
              | inl newer ↦ rw newer (written ∙ rw (named, text_eq_refl t0, stamped))
              | inr older ↦ rw (older, present)
            ])
    ]

replace_apart :
    (t t0 e : Text) (u : ℕ) (row : StoredTask) (s : TaskStore)
    → row.id ≡ t0
    → text_eq t0 t ≡ false
    → seen t (replace t0 u e row s) ≡ seen t s
replace_apart t t0 e u row s named apart =
    elim (Bool-cases (is_kept (get_stored t0 s) (get_last t0 s.last_event_id_by_task) u e)) [
      | inl kept ↦ rw kept refl
      | inr new ↦ rw new (seen-write_remote t e row s ∙ rw (named, apart))
    ]

seen-replace :
    (t t0 e : Text) (u : ℕ) (row : StoredTask) (s : TaskStore)
    → is_empty e ≡ false
    → row.id ≡ t0
    → row.updated_at ≡ u
    → seen t (replace t0 u e row s) ≡ (
        if text_eq t0 t
        then latest version_lt version
            (seen t s)
            (record { updated_at = u; event_id = e; shown = shown_of row })
        else seen t s)
seen-replace t t0 e u row s h named stamped = elim (Bool-cases (text_eq t0 t)) [
  | inl same ↦
      rw (same, sym ((text_eq_iff t0 t).0 same)) (replace_same t0 e u row s h named stamped)
  | inr apart ↦ rw apart (replace_apart t t0 e u row s named apart)
]

tombstone-named :
    (args : RemoteDelete) (s : TaskStore)
    → (tombstone args (get_stored args.task_id s)).id ≡ args.task_id
tombstone-named args s = elim (Option-cases (get_stored args.task_id s)) [
  | inl absent ↦ rw absent refl
  | inr (held, present) ↦ rw present (get_stored-named args.task_id held s present)
]

tombstone-stamped :
    (args : RemoteDelete) (held : Option StoredTask)
    → ((tombstone args held).updated_at ≡ args.updated_at) × (shown_of (tombstone args held) ≡ none)
tombstone-stamped args none = (refl, refl)
tombstone-stamped args (some row) = (refl, refl)

-- A remote event, with an event id, replaces what a device has seen of its task exactly when its
-- version (updatedAt, eventId) is later, and leaves what the device has seen of the other tasks.
pub seen-apply_remote :
    (t : Text) (ev : RemoteEvent) (s : TaskStore)
    → is_empty (id_of ev) ≡ false
    → seen t (apply_remote ev s) ≡ (
        if text_eq (task_of ev) t
        then latest version_lt version (seen t s) (view_of ev)
        else seen t s)
unfolding apply_remote_upsert apply_remote_delete
seen-apply_remote t (upsert args) s h =
    seen-replace t args.task_id args.event_id args.updated_at (upserted args) s h refl refl
seen-apply_remote t (delete args) s h =
    let row = tombstone args (get_stored args.task_id s) in
    let (stamped, hidden) = tombstone-stamped args (get_stored args.task_id s) in
    seen-replace t args.task_id args.event_id args.updated_at row s h (tombstone-named args s)
      stamped
    ∙ rw hidden refl
