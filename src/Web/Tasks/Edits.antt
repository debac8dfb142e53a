-- ===== src/Web/Tasks/Edits.antt =====
-- Local edits in apps/web/src/storage/TaskStore.ts, against remote events and in the active list.
use corner_tasks.Prelude.{
  ℕ, ◌≡◌, refl, ap, ◌∙◌, subst, Bool, true, false, Option, none, some, List, [], ◌∷◌, arith, inl,
  inr, In, ltb, Bool-cases, if◌then◌else◌, is_empty,
}
use corner_tasks.Prelude.Text.{Text, text_eq_iff, trim}
use corner_tasks.Prelude.Int.{ℤ, ltb_ℤ, lt_suc_ℤ, ge_trans_ℤ, max_ℤ, max_ℤ-left, max_ℤ-right}
use corner_tasks.Prelude.Outcome.{Outcome, returned, threw}
use corner_tasks.Prelude.Call.{Call, continue}
use corner_tasks.Core.Types.{Op}
use corner_tasks.Web.Tasks.{
  StoredTask, TaskItem, TaskMutationSnapshot, BuiltSyncEvent, Drawn, TaskStore, get_stored,
  normalise_stored, get_task, active_tasks, to_stored,
}
use corner_tasks.Web.Tasks.Queue.{
  add_row, add_built, with_builder, enqueue_snapshot, snapshot, enqueue_found, enqueue, has_row,
}
use corner_tasks.Web.Tasks.Mutations.{
  update, complete, update_title, set_due_date, delete_archived, max_order, next_order, add,
  add_task, new_item,
}
use corner_tasks.Web.Tasks.Remote.{
  should_replace, is_kept, apply_remote_upsert, apply_remote_delete, get_last,
}
use corner_tasks.Web.Tasks.Lookup.{get_stored-put_task, get_stored-named}
use corner_tasks.Web.Tasks.Lww.{RemoteEvent, upsert, delete, apply_remote, task_of, view_of}

add_built_keeps :
    (snap : TaskMutationSnapshot) (event : Option BuiltSyncEvent) (s : TaskStore)
    → (add_built snap event s).1.tasks ≡ s.tasks
unfolding add_built add_row
add_built_keeps snap none s = refl
add_built_keeps snap (some event) s = elim (Bool-cases (has_row event.event_id s.queue)) [
  | inl e ↦ rw e refl
  | inr e ↦ rw e refl
]

enqueue_found_keeps :
    (drawn : Drawn) (found : Option TaskMutationSnapshot) (s : TaskStore)
    → (enqueue_found drawn found s).1.tasks ≡ s.tasks
unfolding enqueue_found enqueue_snapshot
enqueue_found_keeps drawn none s = refl
enqueue_found_keeps drawn (some snap) s =
    add_built_keeps snap (with_builder s.event_builder drawn snap) s

enqueue_keeps :
    (drawn : Drawn) (id : Text) (op : Op) (s : TaskStore)
    → (enqueue drawn id op s).1.tasks ≡ s.tasks
unfolding enqueue
enqueue_keeps drawn id op s = enqueue_found_keeps drawn (snapshot id op s) s

get_stored-enqueue :
    (drawn : Drawn) (id : Text) (op : Op) (s : TaskStore)
    → get_stored id (enqueue drawn id op s).1 ≡ get_stored id s
unfolding get_stored
get_stored-enqueue drawn id op s =
    ap (λ ts. normalise_stored (get_task id ts)) (enqueue_keeps drawn id op s)

pub get_stored-update :
    (now : ℕ) (id : Text) (mut : StoredTask → StoredTask) (row : StoredTask) (s : TaskStore)
    → get_stored id s ≡ some row
    → (mut row).id ≡ row.id
    → get_stored id (update now id mut s) ≡ some (record (mut row) { updated_at = now })
unfolding update
get_stored-update now id mut row s found keeps = rw found (
    get_stored-put_task id (record (mut row) { updated_at = now }) s
    ∙ rw (keeps, (text_eq_iff row.id id).1 (get_stored-named id row s found)))

-- The edits of one task, with the time that the edit reads for its own field.
pub data Edit : Type 0 where
  completed : ℕ → Edit
  retitled : Text → Edit
  due : Option ℕ → Edit
  deleted : ℕ → Edit

abbrev pub run_edit : ℕ → Drawn → Text → Edit → Call TaskStore Unit
run_edit now drawn id (completed at) = complete at now drawn id
run_edit now drawn id (retitled title) = update_title now drawn id title
run_edit now drawn id (due at) = set_due_date now drawn id at
run_edit now drawn id (deleted at) = delete_archived at now drawn id

abbrev pub edited : Edit → StoredTask → StoredTask
edited (completed at) row = record row { completed_at = some at }
edited (retitled title) row = record row { title = trim title }
edited (due at) row = record row { due_date = at }
edited (deleted at) row = record row { deleted_at = some at }

-- A title of white space is no edit.
abbrev pub is_blank : Edit → Bool
is_blank (retitled title) = is_empty (trim title)
is_blank _ = false

-- An edit of a task that is there (complete, retitle with a title that is not blank, set the due date, or
-- delete) leaves the edited row with the edit's time, whether or not its event could be queued.
pub get_stored-run_edit :
    (now : ℕ) (drawn : Drawn) (id : Text) (edit : Edit) (row : StoredTask) (s : TaskStore)
    → get_stored id s ≡ some row
    → is_blank edit ≡ false
    → get_stored id (run_edit now drawn id edit s).1
      ≡ some (record (edited edit row) { updated_at = now })
unfolding complete update_title set_due_date delete_archived
get_stored-run_edit now drawn id (completed at) row s found solid =
    get_stored-enqueue drawn id _ _
    ∙ get_stored-update now id (edited (completed at)) row s found refl
get_stored-run_edit now drawn id (retitled title) row s found solid = rw solid (
    get_stored-enqueue drawn id _ _
    ∙ get_stored-update now id (edited (retitled title)) row s found refl)
get_stored-run_edit now drawn id (due at) row s found solid =
    get_stored-enqueue drawn id _ _ ∙ get_stored-update now id (edited (due at)) row s found refl
get_stored-run_edit now drawn id (deleted at) row s found solid =
    get_stored-enqueue drawn id _ _
    ∙ get_stored-update now id (edited (deleted at)) row s found refl

older_kept :
    (now u : ℕ) (last : Option Text) (e : Text) (row : StoredTask)
    → row.updated_at ≡ now
    → ltb u now ≡ true
    → is_kept (some row) last u e ≡ true
unfolding is_kept should_replace
older_kept now u last e row stamped older = ground (arith, stamped, older)

older_remote_ignored :
    (ev : RemoteEvent) (row : StoredTask) (s : TaskStore)
    → get_stored (task_of ev) s ≡ some row
    → ltb (view_of ev).updated_at row.updated_at ≡ true
    → apply_remote ev s ≡ s
unfolding apply_remote_upsert apply_remote_delete
older_remote_ignored (upsert args) row s found older = rw (
  found,
  older_kept row.updated_at args.updated_at (get_last args.task_id s.last_event_id_by_task)
      args.event_id row refl older,
)
older_remote_ignored (delete args) row s found older = rw (
  found,
  older_kept row.updated_at args.updated_at (get_last args.task_id s.last_event_id_by_task)
      args.event_id row refl older,
)

-- After an edit of a task that is there (complete, retitle with a title that is not blank, set the due date, or delete),
-- a remote event for the task that is older than the edit changes nothing.
pub edit_survives :
    (now : ℕ) (drawn : Drawn) (edit : Edit) (row : StoredTask) (ev : RemoteEvent) (s : TaskStore)
    → get_stored (task_of ev) s ≡ some row
    → is_blank edit ≡ false
    → ltb (view_of ev).updated_at now ≡ true
    → let s' = (run_edit now drawn (task_of ev) edit s).1 in apply_remote ev s' ≡ s'
edit_survives now drawn edit row ev s found solid older =
    older_remote_ignored ev (record (edited edit row) { updated_at = now })
      (run_edit now drawn (task_of ev) edit s).1
      (get_stored-run_edit now drawn (task_of ev) edit row s found solid) older

max_order_ge :
    (t u : TaskItem) (us : List TaskItem) → In t (u ∷ us) → ltb_ℤ (max_order u us) t.order ≡ false
unfolding max_order
max_order_ge t u [] (inl e) = rw e (ge_refl u.order)
  where
    ge_refl : (i : ℤ) → ltb_ℤ i i ≡ false
    ge_refl i = ground arith
max_order_ge t u [] (inr m) = absurd m
max_order_ge t u (v ∷ vs) (inl e) = rw e (max_ℤ-left u.order (max_order v vs))
max_order_ge t u (v ∷ vs) (inr m) =
    ge_trans_ℤ (max_ℤ u.order (max_order v vs)) (max_order v vs) t.order
      (max_ℤ-right u.order (max_order v vs)) (max_order_ge t v vs m)

next_order_gt : (t : TaskItem) (ts : List TaskItem) → In t ts → ltb_ℤ t.order (next_order ts) ≡ true
unfolding next_order
next_order_gt t [] m = absurd m
next_order_gt t (u ∷ us) m = lt_suc_ℤ t.order (max_order u us) (max_order_ge t u us m)

queued_item :
    (x item : TaskItem) (q : Outcome Unit) (u : TaskStore)
    → (continue q (λ _ v. (returned (some x), v)) u).0 ≡ returned (some item)
    → x ≡ item
queued_item x item (returned _) u e = cc e
queued_item x item threw u e = cc e

added_item :
    (b : Bool) (x item : TaskItem) (a : Outcome Unit) (s u : TaskStore) (k : Call TaskStore Unit)
    → (if b
        then (returned none, s)
        else continue a
            (λ _ v. let (q, w) = k v in continue q (λ _ z. (returned (some x), z)) w)
            u).0
      ≡ returned (some item)
    → x ≡ item
added_item true x item a s u k e = cc e
added_item false x item threw s u k e = cc e
added_item false x item (returned _) s u k e = queued_item x item (k u).0 (k u).1 e

-- A task that is added comes after every task that was active: its order is greater.
pub add_is_last :
    (created now : ℕ) (id title : Text) (drawn : Drawn) (s : TaskStore) (item t : TaskItem)
    → (add created now id drawn title s).0 ≡ returned (some item)
    → In t (active_tasks s)
    → ltb_ℤ t.order item.order ≡ true
unfolding add
add_is_last created now id title drawn s item t e m =
    let x = new_item id created (trim title) s in
    let added = add_task (to_stored x now) s in
    let same =
      added_item (is_empty (trim title)) x item added.0 s added.1 (enqueue drawn id Op.upsert) e in
    subst (λ i. ltb_ℤ t.order i.order ≡ true) same (next_order_gt t (active_tasks s) m)
