-- ===== src/Web/Tasks/Lookup.antt =====
-- Reading back what apps/web/src/storage/TaskStore.ts has put.
use corner_tasks.Prelude.{
  ◌≡◌, refl, sym, ap, ◌∙◌, some, List, [], ◌∷◌, arith, Bool-cases, Option-cases, inl, inr,
  if◌then◌else◌,
}
use corner_tasks.Prelude.Text.{Text, text_eq, text_eq_iff}
use corner_tasks.Web.Tasks.{
  StoredTask, RawTask, TaskStore, or_else, raw_of, get_task, put_task, normalise_stored, get_stored,
}
use corner_tasks.Web.Tasks.Remote.{get_last, set_last}

get_task-put_task :
    (id : Text) (s : StoredTask) (rows : List RawTask)
    → get_task id (put_task s rows)
      ≡ (if text_eq s.id id then some (raw_of s) else get_task id rows)
unfolding get_task put_task
get_task-put_task id s [] = refl
get_task-put_task id s (row ∷ rows) = elim (Option-cases row.id) [
  | inl e ↦ rw e (get_task-put_task id s rows)
  | inr (k, e) ↦ rw e (
      ground (
        arith,
        get_task-put_task id s rows,
        text_eq_iff s.id id,
        text_eq_iff k s.id,
        text_eq_iff k id,
      ))
]

pub get_stored-put_task :
    (id : Text) (row : StoredTask) (s : TaskStore)
    → get_stored id (record s { tasks = put_task row s.tasks })
      ≡ (if text_eq row.id id then some row else get_stored id s)
unfolding get_stored normalise_stored
get_stored-put_task id row s = elim (Bool-cases (text_eq row.id id)) [
  | inl e ↦ rw (get_task-put_task id row s.tasks, e)
  | inr e ↦ rw (get_task-put_task id row s.tasks, e)
]

pub get_last-set_last :
    (id t v : Text) (m : List (Text × Text))
    → get_last id (set_last t v m) ≡ (if text_eq t id then some v else get_last id m)
unfolding get_last set_last
get_last-set_last id t v [] = refl
get_last-set_last id t v ((k, w) ∷ rest) =
    ground
      (arith, get_last-set_last id t v rest, text_eq_iff t id, text_eq_iff k t, text_eq_iff k id)

get_task-named :
    (id : Text) (row : StoredTask) (rows : List RawTask)
    → normalise_stored (get_task id rows) ≡ some row
    → row.id ≡ id
unfolding get_task normalise_stored
get_task-named id row [] = λ e. cc e
get_task-named id row (raw ∷ raws) = elim (Option-cases raw.id) [
  | inl absent ↦ rw absent (get_task-named id row raws)
  | inr (k, present) ↦ rw present (elim (Bool-cases (text_eq k id)) [
    | inl e ↦ rw e (λ h. ap (λ o. (or_else row o).id) (sym h) ∙ (text_eq_iff k id).0 e)
    | inr e ↦ rw e (get_task-named id row raws)
  ])
]

-- A row that is found has the key it was looked up by.
pub get_stored-named :
    (id : Text) (row : StoredTask) (s : TaskStore) → get_stored id s ≡ some row → row.id ≡ id
unfolding get_stored
get_stored-named id row s = get_task-named id row s.tasks
