-- ===== src/Web/Sync/Resync.antt =====
-- `performFullResync` of apps/web/src/sync/SyncEngine.ts.
use corner_tasks.Prelude.{ℕ, Bool, false, ◌||◌, some, List, [], ◌∷◌, map, if◌then◌else◌}
use corner_tasks.Prelude.Text.{Text, text_eq}
use corner_tasks.Prelude.Outcome.{Outcome, returned, threw}
use corner_tasks.Prelude.Call.{Call}
use corner_tasks.Web.Wire.{Bytes, Runtime}
use corner_tasks.Web.Session.{Reply, ok, failed, PullResponse, World, Identity, AuthSession}
use corner_tasks.Web.Tasks.{TaskMutationSnapshot, Drawn, TaskStore}
use corner_tasks.Web.Tasks.Queue.{clear_sync_queue, live_snapshots, enqueue_snapshot}
use corner_tasks.Web.Sync.{Engine, is_old, initial_cursor, pull_with_auth}
use corner_tasks.Web.Sync.Push.{flush_pushes}
use corner_tasks.Web.Sync.Pull.{apply_events}

module _ {N : Type 0} (world : World N) (runtime : Runtime) (identity : Identity)
    (encryption_key : Bytes) where
  -- Where an event threw, no ids are kept, and the cursor stays.
  unfoldable pub finish_resync_applied :
      Outcome Unit × TaskStore × N → PullResponse → AuthSession → Engine N → List Text × Engine N
  finish_resync_applied (threw, s, n) response session e =
      ([], record e { store = s; session = session; net = n })
  finish_resync_applied (returned _, s, n) response session e = (
    map (λ event. event.task_id) response.events,
    record e { store = s; cursor = some response.next_cursor; session = session; net = n },
  )

  -- The ids that the pull of a resync returned, none if it failed; the outcome of pulls is not written.
  unfoldable pub finish_resync_pull :
      Reply PullResponse × AuthSession × N → Engine N → List Text × Engine N
  unfolding apply_events finish_resync_applied
  finish_resync_pull (failed _, session, n) e = ([], record e { session = session; net = n })
  finish_resync_pull (ok response, session, n) e =
      finish_resync_applied
        (apply_events world runtime identity encryption_key response.events e.store n) response
        session e

  unfoldable pub has_id : Text → List Text → Bool
  has_id id [] = false
  has_id id (k ∷ ks) = text_eq k id || has_id id ks

  -- The upserts of a resync, with what the builder draws for each live task.
  unfoldable pub enqueue_missing :
      ℕ → List Text → (Text → Drawn) → List TaskMutationSnapshot → Call TaskStore Unit
  unfolding enqueue_snapshot has_id
  enqueue_missing now pulled draw [] s = (returned tt, s)
  enqueue_missing now pulled draw (snap ∷ snaps) s =
      let later = enqueue_missing now pulled draw snaps in
      if has_id snap.task_id pulled || is_old now snap.completed_at
      then later s
      else let (added, s') = enqueue_snapshot (draw snap.task_id) snap s in
        elim added [ threw ↦ (threw, s') | returned _ ↦ later s' ]

  unfoldable pub finish_resync : (Text → Drawn) → List Text × Engine N → Outcome Unit × Engine N
  unfolding enqueue_missing flush_pushes live_snapshots
  finish_resync draw (pulled, e) =
      let (now, n) = world.now e.net in
      let (added, s) = enqueue_missing now pulled draw (live_snapshots e.store) e.store in
      let e' : Engine N = record e { store = s; net = n } in
      elim added [
        | threw ↦ (threw, e')
        | returned _ ↦ (returned tt, flush_pushes world runtime identity e')
      ]

  unfoldable pub perform_full_resync : (Text → Drawn) → Engine N → Outcome Unit × Engine N
  unfolding finish_resync finish_resync_pull pull_with_auth
  perform_full_resync draw e =
      let e' : Engine N = record e {
        store = clear_sync_queue e.store;
        cursor = some initial_cursor;
      } in
      finish_resync draw (
        finish_resync_pull (pull_with_auth world runtime identity initial_cursor e'.session e'.net)
          e')
