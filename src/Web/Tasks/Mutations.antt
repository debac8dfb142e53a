-- ===== src/Web/Tasks/Mutations.antt =====
-- The local mutations of apps/web/src/storage/TaskStore.ts. `now` is `Date.now()`, and `fresh`
-- what the builder draws. The listeners that `notify` calls are not part of the state.
use corner_tasks.Prelude.{
  ℕ, ◌+◌, Option, none, some, List, [], ◌∷◌, map, if◌then◌else◌, is_some, is_empty,
}
use corner_tasks.Prelude.Text.{Text, trim}
use corner_tasks.Prelude.Outcome.{returned, threw}
use corner_tasks.Prelude.Call.{Call, continue}
use corner_tasks.Prelude.Int.{ℤ, pos, suc_ℤ, max_ℤ}
use corner_tasks.Core.Types.{upsert, delete}
use corner_tasks.Web.Tasks.{
  StoredTask, Drawn, TaskItem, TaskStore, get_task, put_task, get_stored, to_stored, active_tasks,
}
use corner_tasks.Web.Tasks.Queue.{enqueue}

abbrev pub put_some : Option StoredTask → TaskStore → TaskStore
put_some none s = s
put_some (some row) s = record s { tasks = put_task row s.tasks }

unfoldable pub update : ℕ → Text → (StoredTask → StoredTask) → TaskStore → TaskStore
unfolding get_stored put_task
update now id mut s =
    put_some
      (elim (get_stored id s) [
        | none ↦ none
        | some row ↦ some (record (mut row) { updated_at = now })
      ])
      s

-- Math.max(t.order, ...ts.map((t) => t.order))
unfoldable pub max_order : TaskItem → List TaskItem → ℤ
max_order t [] = t.order
max_order t (u ∷ us) = max_ℤ t.order (max_order u us)

unfoldable pub next_order : List TaskItem → ℤ
unfolding max_order
next_order [] = pos 0
next_order (t ∷ ts) = suc_ℤ (max_order t ts)

-- objectStore(STORE).add(stored), which fails on a key that is there
unfoldable pub add_task : StoredTask → Call TaskStore Unit
unfolding get_task put_task
add_task row s =
    if is_some (get_task row.id s.tasks)
    then (threw, s)
    else (returned tt, record s { tasks = put_task row s.tasks })

abbrev pub new_item : Text → ℕ → Text → TaskStore → TaskItem
new_item id created title s = record {
  id = id;
  title = title;
  created_at = created;
  completed_at = none;
  due_date = none;
  order = next_order (active_tasks s);
}

-- `created` is `new Date()`, `now` the `Date.now()` after it, and `id` is `newId()`.
unfoldable pub add : ℕ → ℕ → Text → Drawn → Text → Call TaskStore (Option TaskItem)
unfolding add_task enqueue
add created now id fresh title s =
    if is_empty (trim title)
    then (returned none, s)
    else let item = new_item id created (trim title) s in
      let (added, s') = add_task (to_stored item now) s in
      continue added
        (λ _ u.
          let (queued, u') = enqueue fresh id upsert u in
          continue queued (λ _ v. (returned (some item), v)) u')
        s'

unfoldable pub complete : ℕ → ℕ → Drawn → Text → Call TaskStore Unit
unfolding update enqueue
complete at now fresh id s =
    enqueue fresh id upsert (update now id (λ row. record row { completed_at = some at }) s)

unfoldable pub update_title : ℕ → Drawn → Text → Text → Call TaskStore Unit
unfolding update enqueue
update_title now fresh id title s =
    if is_empty (trim title)
    then (returned tt, s)
    else enqueue fresh id upsert (update now id (λ row. record row { title = trim title }) s)

unfoldable pub set_due_date : ℕ → Drawn → Text → Option ℕ → Call TaskStore Unit
unfolding update enqueue
set_due_date now fresh id due s =
    enqueue fresh id upsert (update now id (λ row. record row { due_date = due }) s)

unfoldable pub delete_archived : ℕ → ℕ → Drawn → Text → Call TaskStore Unit
unfolding update enqueue
delete_archived at now fresh id s =
    enqueue fresh id delete (update now id (λ row. record row { deleted_at = some at }) s)

-- The writes of `moveActive`, from the place `idx` on.
unfoldable pub reorder : ℕ → ℕ → List Text → TaskStore → TaskStore
unfolding update
reorder now idx [] s = s
reorder now idx (id ∷ ids) s =
    reorder now (idx + 1) ids (update now id (λ row. record row { order = pos idx }) s)

-- One event for each id, with the event ids drawn.
unfoldable pub enqueue_each : List (Drawn × Text) → Call TaskStore Unit
unfolding enqueue
enqueue_each [] s = (returned tt, s)
enqueue_each ((fresh, id) ∷ rest) s =
    let (queued, s') = enqueue fresh id upsert s in continue queued (λ _. enqueue_each rest) s'

unfoldable pub move_active : ℕ → List (Drawn × Text) → Call TaskStore Unit
unfolding reorder enqueue_each
move_active now drawn s = enqueue_each drawn (reorder now 0 (map (λ p. p.1) drawn) s)
