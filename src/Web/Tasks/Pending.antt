-- ===== src/Web/Tasks/Pending.antt =====
-- What an edit leaves in the outbound queue of apps/web/src/storage/TaskStore.ts.
use corner_tasks.Prelude.{
  ℕ, ◌≡◌, refl, sym, ap, subst, Bool, true, false, Option, none, some, List, [], ◌∷◌, arith, inl,
  inr, In, filter-In, map-In, Option-cases,
}
use corner_tasks.Prelude.Text.{Text}
use corner_tasks.Core.Types.{Op, upsert, delete}
use corner_tasks.Web.Tasks.{
  StoredTask, TaskMutationSnapshot, BuiltSyncEvent, QueueRow, Drawn, EventBuilder, TaskStore,
  get_stored, insert_by, sort_by,
}
use corner_tasks.Web.Tasks.Queue.{
  to_pending, is_pending, pending_queue_rows, snapshot_of, has_row, insert_row, add_row, add_built,
  enqueue_snapshot, snapshot, enqueue_found, enqueue,
}
use corner_tasks.Web.Tasks.Mutations.{update, complete, update_title, set_due_date, delete_archived}
use corner_tasks.Web.Tasks.Edits.{
  Edit, completed, retitled, due, deleted, run_edit, edited, is_blank, get_stored-update,
}

module _ {A : Type 0} (after : A → A → Bool) where
  insert_by-In : (a x : A) (xs : List A) → In a (x ∷ xs) → In a (insert_by after x xs)
  unfolding insert_by
  insert_by-In a x [] m = m
  insert_by-In a x (y ∷ ys) m = ground (arith, m, insert_by-In a x ys)

  sort_by-In : (a : A) (xs : List A) → In a xs → In a (sort_by after xs)
  unfolding sort_by
  sort_by-In a [] m = m
  sort_by-In a (x ∷ xs) (inl e) = insert_by-In a x (sort_by after xs) (inl e)
  sort_by-In a (x ∷ xs) (inr m) = insert_by-In a x (sort_by after xs) (inr (sort_by-In a xs m))

insert_row-In : (r : QueueRow) (rows : List QueueRow) → In r (insert_row r rows)
unfolding insert_row
insert_row-In r [] = inl refl
insert_row-In r (q ∷ rows) = ground (arith, insert_row-In r rows)

pending-In :
    (r : QueueRow) (s : TaskStore)
    → In r s.queue
    → is_pending r ≡ true
    → In (to_pending r) (pending_queue_rows s)
unfolding pending_queue_rows
pending-In r s m waits =
    map-In to_pending r _ (sort_by-In _ r _ (filter-In is_pending r s.queue m waits))

-- The row that a built event becomes.
abbrev pub queue_row : Text → Op → ℕ → BuiltSyncEvent → QueueRow
queue_row id op updated event = record {
  event_id = event.event_id;
  task_id = id;
  op = op;
  payload_json = event.payload_json;
  created_at = updated;
  sent_at = none;
}

snapshot_found :
    (id : Text) (op : Op) (row : StoredTask) (s : TaskStore)
    → get_stored id s ≡ some row
    → snapshot id op s ≡ some (record (snapshot_of op row) { task_id = id })
unfolding snapshot
snapshot_found id op row s found =
    ap
      (λ (o : Option StoredTask). elim o as (λ _. Option TaskMutationSnapshot) [
        | none ↦ none
        | some r ↦ some (record (snapshot_of op r) { task_id = id })
      ])
      found

built_queued :
    (drawn : Drawn) (snap : TaskMutationSnapshot) (build : EventBuilder) (event : BuiltSyncEvent)
    (s : TaskStore)
    → s.event_builder ≡ some build
    → build drawn snap ≡ some event
    → has_row event.event_id s.queue ≡ false
    → In
        (queue_row snap.task_id snap.op snap.updated_at event)
        (enqueue_found drawn (some snap) s).1.queue
unfolding enqueue_found enqueue_snapshot add_built add_row
built_queued drawn snap build event s builder built fresh =
    rw (builder, built, fresh)
      (insert_row-In (queue_row snap.task_id snap.op snap.updated_at event) s.queue)

enqueue_queued :
    (drawn : Drawn) (id : Text) (op : Op) (row : StoredTask) (build : EventBuilder)
    (event : BuiltSyncEvent) (s : TaskStore)
    → get_stored id s ≡ some row
    → s.event_builder ≡ some build
    → build drawn (record (snapshot_of op row) { task_id = id }) ≡ some event
    → has_row event.event_id s.queue ≡ false
    → In (queue_row id op row.updated_at event) (enqueue drawn id op s).1.queue
unfolding enqueue
enqueue_queued drawn id op row build event s found builder built fresh =
    subst (λ o. In (queue_row id op row.updated_at event) (enqueue_found drawn o s).1.queue)
      (sym (snapshot_found id op row s found))
      (built_queued drawn (record (snapshot_of op row) { task_id = id }) build event s builder built
        fresh)

update_frame :
    (now : ℕ) (id : Text) (mut : StoredTask → StoredTask) (s : TaskStore)
    → ((update now id mut s).queue ≡ s.queue)
      × ((update now id mut s).event_builder ≡ s.event_builder)
unfolding update
update_frame now id mut s = elim (Option-cases (get_stored id s)) [
  | inl e ↦ rw e (refl, refl)
  | inr (row, e) ↦ rw e (refl, refl)
]

abbrev pub op_of_edit : Edit → Op
op_of_edit (deleted at) = delete
op_of_edit _ = upsert

changed_queued :
    (now : ℕ) (drawn : Drawn) (id : Text) (op : Op) (mut : StoredTask → StoredTask)
    (row : StoredTask) (build : EventBuilder) (event : BuiltSyncEvent) (s : TaskStore)
    → get_stored id s ≡ some row
    → (mut row).id ≡ row.id
    → s.event_builder ≡ some build
    → build drawn (record (snapshot_of op (record (mut row) { updated_at = now })) { task_id = id })
      ≡ some event
    → has_row event.event_id s.queue ≡ false
    → In
        (to_pending (queue_row id op now event))
        (pending_queue_rows (enqueue drawn id op (update now id mut s)).1)
changed_queued now drawn id op mut row build event s found keeps builder built fresh =
    let (queue, builders) = update_frame now id mut s in
    pending-In (queue_row id op now event) (enqueue drawn id op (update now id mut s)).1
      (enqueue_queued drawn id op (record (mut row) { updated_at = now }) build event
        (update now id mut s) (get_stored-update now id mut row s found keeps) (rw builders builder)
        built (rw queue fresh))
      refl

-- An edit (complete, retitle with a title that is not blank, set the due date, or delete) of a task that
-- is there, in a store with an event builder that builds an event of the edited task with an id that is
-- not in the queue, leaves that event among the rows that are pending.
pub edit_is_queued :
    (now : ℕ) (drawn : Drawn) (id : Text) (edit : Edit) (row : StoredTask) (build : EventBuilder)
    (event : BuiltSyncEvent) (s : TaskStore)
    → get_stored id s ≡ some row
    → is_blank edit ≡ false
    → s.event_builder ≡ some build
    → build drawn
        (record (snapshot_of (op_of_edit edit) (record (edited edit row) { updated_at = now })) {
          task_id = id;
        })
      ≡ some event
    → has_row event.event_id s.queue ≡ false
    → In
        (to_pending (queue_row id (op_of_edit edit) now event))
        (pending_queue_rows (run_edit now drawn id edit s).1)
unfolding complete update_title set_due_date delete_archived
edit_is_queued now drawn id (completed at) row build event s found solid builder built fresh =
    changed_queued now drawn id upsert (edited (completed at)) row build event s found refl builder
      built fresh
edit_is_queued now drawn id (retitled title) row build event s found solid builder built fresh =
    rw solid (
      changed_queued now drawn id upsert (edited (retitled title)) row build event s found refl
        builder built fresh)
edit_is_queued now drawn id (due at) row build event s found solid builder built fresh =
    changed_queued now drawn id upsert (edited (due at)) row build event s found refl builder built
      fresh
edit_is_queued now drawn id (deleted at) row build event s found solid builder built fresh =
    changed_queued now drawn id delete (edited (deleted at)) row build event s found refl builder
      built fresh
