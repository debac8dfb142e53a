-- ===== src/Web/Tasks/Migration.antt =====
-- `lowercaseTaskIdsIfNeeded` of apps/web/src/storage/TaskStore.ts, with the flag of the local storage.
use corner_tasks.Prelude.{
  ℕ, ◌≡◌, refl, Bool, true, false, Option, none, some, List, [], ◌∷◌, ◌++◌, ltb, if◌then◌else◌,
}
use corner_tasks.Prelude.Text.{text_lt, Text, codes, text_eq, to_lower}
use corner_tasks.Prelude.Int.{pos}
use corner_tasks.Web.Tasks.{
  StoredTask, RawTask, TaskStore, raw_of, normalise_all, all_stored, put_task, delete_task,
}

-- The map `winnerByLower`, in the order of insertion, and `losers`.
pub record Contest : Type 0 where
  pub winner_by_lower : List (Text × StoredTask)
  pub losers : List Text

unfoldable pub winner_of : Text → List (Text × StoredTask) → Option StoredTask
winner_of lower [] = none
winner_of lower ((k, row) ∷ rest) = if text_eq k lower then some row else winner_of lower rest

unfoldable pub set_winner : Text → StoredTask → List (Text × StoredTask) → List (Text × StoredTask)
set_winner lower row [] = (lower, row) ∷ []
set_winner lower row ((k, held) ∷ rest) =
    let rest' = set_winner lower row rest in
    if text_eq k lower then (k, row) ∷ rest else (k, held) ∷ rest'

-- One row against the winner that its key has so far; the earlier row wins a tie.
unfoldable pub contend : StoredTask → Option StoredTask → Contest → Contest
unfolding set_winner
contend row none c = record c {
  winner_by_lower = set_winner (to_lower row.id) row c.winner_by_lower;
}
contend row (some current) c =
    if ltb current.updated_at row.updated_at
    then record {
      winner_by_lower = set_winner (to_lower row.id) row c.winner_by_lower;
      losers = c.losers ++ current.id ∷ [];
    }
    else record c { losers = c.losers ++ row.id ∷ [] }

unfoldable pub contest : List StoredTask → Contest → Contest
unfolding contend winner_of
contest [] c = c
contest (row ∷ rows) c =
    contest rows (contend row (winner_of (to_lower row.id) c.winner_by_lower) c)

unfoldable pub delete_losers : List Text → List RawTask → List RawTask
unfolding delete_task
delete_losers [] rows = rows
delete_losers (id ∷ ids) rows = delete_losers ids (delete_task id rows)

unfoldable pub rename_winners : List (Text × StoredTask) → List RawTask → List RawTask
unfolding delete_task put_task
rename_winners [] rows = rows
rename_winners ((lower, row) ∷ rest) rows = rename_winners rest (
    if text_eq row.id lower
    then rows
    else put_task (record row { id = lower }) (delete_task row.id rows))

abbrev pub settle_contest : Contest → TaskStore → TaskStore
settle_contest c s = record s {
  tasks = rename_winners c.winner_by_lower (delete_losers c.losers s.tasks);
}

-- With the flag before and after.
unfoldable pub lowercase_task_ids_if_needed : Bool × TaskStore → Bool × TaskStore
unfolding contest delete_losers rename_winners normalise_all
lowercase_task_ids_if_needed (true, s) = (true, s)
lowercase_task_ids_if_needed (false, s) =
    (true, settle_contest (contest (all_stored s) (record { winner_by_lower = []; losers = [] })) s)

-- Rows of which two have ids that differ only in case.
abbrev row_at : Text → ℕ → RawTask
row_at id updated_at = raw_of (record {
  id = id;
  title = [];
  created_at = 0;
  completed_at = none;
  due_date = none;
  order = pos 0;
  updated_at = updated_at;
  deleted_at = none;
})

abbrev clashing : TaskStore
clashing = record {
  tasks = row_at (codes "AB") 5 ∷ row_at (codes "C") 2 ∷ row_at (codes "ab") 3 ∷ [];
  queue = [];
  last_event_id_by_task = [];
  event_builder = none;
}

migration_test :
    (lowercase_task_ids_if_needed (false, clashing)).1.tasks
    ≡ row_at (codes "ab") 5 ∷ row_at (codes "c") 2 ∷ []
unfolding lowercase_task_ids_if_needed text_eq to_lower text_lt
migration_test = refl
