-- ===== src/Web/Sync/Pull.antt =====
-- `pullSince` of apps/web/src/sync/SyncEngine.ts, and how it applies pulled events.
use corner_tasks.Prelude.{ℕ, Bool, false, Option, none, some, List, [], ◌∷◌, if◌then◌else◌}
use corner_tasks.Prelude.Text.{Text, text_eq, to_lower}
use corner_tasks.Prelude.Outcome.{Outcome, returned, threw}
use corner_tasks.Core.Types.{Op, upsert, delete, SyncEvent}
use corner_tasks.Web.Wire.{Bytes, Runtime, EventPlaintext, iso_parse, open_event}
use corner_tasks.Web.Session.{Reply, ok, failed, PullResponse, World, Identity, AuthSession}
use corner_tasks.Web.Tasks.{TaskStore, or_else}
use corner_tasks.Web.Tasks.Lww
use corner_tasks.Web.Sync.{Engine, succeeded, broken, is_old, initial_cursor, pull_with_auth}

-- What the store is asked to apply, if anything.
unfoldable pub remote_by_op : Op → ℕ → SyncEvent → Option EventPlaintext → Option Lww.RemoteEvent
remote_by_op delete updated event opened = some (
    Lww.delete (record {
      task_id = to_lower event.task_id;
      updated_at = updated;
      event_id = event.event_id;
    }))
remote_by_op upsert updated event none = none
remote_by_op upsert updated event (some pt) = some (
    Lww.upsert (record {
      task_id = to_lower event.task_id;
      title = pt.title;
      created_at = pt.created_at;
      completed_at = pt.completed_at;
      due_date = pt.due_date;
      order = pt.order;
      updated_at = updated;
      event_id = event.event_id;
    }))

unfoldable pub remote_of : ℕ → SyncEvent → Outcome (Option EventPlaintext) → Option Lww.RemoteEvent
unfolding remote_by_op
remote_of updated event threw = none
remote_of updated event (returned opened) = remote_by_op event.op updated event opened

abbrev pub is_old_upsert : ℕ → ℕ → SyncEvent → Bool
is_old_upsert now updated event = elim event.op [
  | upsert ↦ is_old now (some updated)
  | delete ↦ false
]

-- What comes after a call that did not throw.
abbrev pub unless_threw :
    {N : Type 0}
    → Outcome Unit × TaskStore × N
    → (TaskStore → N → Outcome Unit × TaskStore × N)
    → Outcome Unit × TaskStore × N
unless_threw (threw, s, n) k = (threw, s, n)
unless_threw (returned _, s, n) k = k s n

module _ {N : Type 0} (world : World N) (runtime : Runtime) (identity : Identity)
    (encryption_key : Bytes) where
  -- A transaction that does not commit throws, and leaves the store as it was.
  unfoldable pub write_remote_event :
      Option Lww.RemoteEvent → TaskStore → N → Outcome Unit × TaskStore × N
  write_remote_event none s n = (returned tt, s, n)
  write_remote_event (some ev) s n =
      let (committed, n') = world.commits n in
      if committed then (returned tt, Lww.apply_remote ev s, n') else (threw, s, n')

  unfoldable pub apply_dated : Option ℕ → SyncEvent → TaskStore → N → Outcome Unit × TaskStore × N
  unfolding write_remote_event
  apply_dated none event s n = (returned tt, s, n)
  apply_dated (some updated) event s n =
      let (now, n') = world.now n in
      let later : N = elim event.op [ upsert ↦ n' | delete ↦ n ] in
      if is_old_upsert now updated event
      then (returned tt, s, later)
      else write_remote_event (remote_of updated event (open_event runtime event encryption_key)) s
          later

  unfoldable pub apply_remote : SyncEvent → TaskStore → N → Outcome Unit × TaskStore × N
  unfolding apply_dated
  apply_remote event s n =
      if text_eq event.account_did identity.account_did
      then apply_dated (iso_parse runtime event.updated_at) event s n
      else (returned tt, s, n)

  -- The loop ends at the first event that throws; what was applied before it stays.
  unfoldable pub apply_events : List SyncEvent → TaskStore → N → Outcome Unit × TaskStore × N
  unfolding apply_remote
  apply_events [] s n = (returned tt, s, n)
  apply_events (event ∷ events) s n =
      unless_threw (apply_remote event s n) (λ s' n'. apply_events events s' n')

  -- `pullSince` after its loop: the cursor moves if no event threw.
  unfoldable pub finish_applied :
      Outcome Unit × TaskStore × N → Text → AuthSession → Engine N → Engine N
  finish_applied (threw, s, n) next_cursor session e = record e {
    store = s;
    session = session;
    net = n;
    last_pull_outcome = broken;
  }
  finish_applied (returned _, s, n) next_cursor session e = record e {
    store = s;
    cursor = some next_cursor;
    session = session;
    net = n;
    last_pull_outcome = succeeded;
  }

  unfoldable pub finish_pull : Reply PullResponse × AuthSession × N → Engine N → Engine N
  unfolding apply_events finish_applied
  finish_pull (failed _, session, n) e = record e {
    session = session;
    net = n;
    last_pull_outcome = broken;
  }
  finish_pull (ok response, session, n) e =
      finish_applied (apply_events response.events e.store n) response.next_cursor session e

  unfoldable pub pull_since : Engine N → Engine N
  unfolding finish_pull pull_with_auth
  pull_since e =
      finish_pull
        (pull_with_auth world runtime identity (or_else initial_cursor e.cursor) e.session e.net) e
