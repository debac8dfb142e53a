-- ===== src/Web/Sync.antt =====
-- apps/web/src/sync/SyncEngine.ts: its state, the events that it builds, and the calls with a bearer
-- token. A push or a pull runs to its end before the next begins; the timers are not modelled.
pub mod Push
pub mod Calls
pub mod Flush
pub mod Applying
pub mod Advance
pub mod Pull
pub mod Resync
use corner_tasks.Prelude.{ℕ, ◌+◌, ◌*◌, Bool, false, Option, none, some, List, ltb, if◌then◌else◌}
use corner_tasks.Prelude.Text.{Text, codes, to_lower}
use corner_tasks.Prelude.Outcome.{Outcome, returned, threw}
use corner_tasks.Core.Types.{Op, upsert, delete, SyncEvent}
use corner_tasks.Web.Wire.{Bytes, Runtime, EventPlaintext, MakeEventArgs, make_event}
use corner_tasks.Web.Session.{
  Reply, ok, failed, PushResponse, PullResponse, is_auth_retryable, World, Identity, AuthSession,
  invalidated, bearer,
}
use corner_tasks.Web.Tasks.{TaskMutationSnapshot, BuiltSyncEvent, Drawn, EventBuilder, TaskStore}

abbrev pub archive_cutoff_ms : ℕ
archive_cutoff_ms = 60 * 24 * 60 * 60 * 1000

abbrev pub initial_cursor : Text
initial_cursor = codes "0"

pub data SyncOutcome : Type 0 where
  untried succeeded broken : SyncOutcome

pub data ConnectionState : Type 0 where
  disabled checking live polling syncing queued failing : ConnectionState

pub record Engine (N : Type 0) : Type 0 where
  pub store : TaskStore
  pub cursor : Option Text
  pub session : AuthSession
  pub last_push_outcome : SyncOutcome
  pub last_pull_outcome : SyncOutcome
  pub net : N

-- Was it completed before `now - ARCHIVE_CUTOFF_MS`? The cutoff is moved to the other side, for it may be
-- below 0.
abbrev pub is_old : ℕ → Option ℕ → Bool
is_old now none = false
is_old now (some at) = ltb (at + archive_cutoff_ms) now

-- Without a transport that speaks WebSocket.
abbrev pub rest_state : SyncOutcome → SyncOutcome → ConnectionState
rest_state untried untried = checking
rest_state broken _ = failing
rest_state _ broken = failing
rest_state _ _ = polling

abbrev pub plaintext_of : TaskMutationSnapshot → Option EventPlaintext
plaintext_of snap = elim snap.op [
  | delete ↦ none
  | upsert ↦ some (record {
    title = snap.title;
    created_at = snap.created_at;
    completed_at = snap.completed_at;
    due_date = snap.due_date;
    order = snap.order;
  })
]

module _ (runtime : Runtime) (identity : Identity) (encryption_key : Bytes) where
  abbrev pub built : Text → Outcome SyncEvent → Option BuiltSyncEvent
  built event_id threw = none
  built event_id (returned event) =
      some (record { event_id = event_id; payload_json = runtime.event_stringify event })

  unfoldable pub build_event : Text → EventBuilder
  unfolding make_event
  build_event device_id drawn snap = built drawn.event_id (
      make_event runtime
        (record {
          op = snap.op;
          account_did = identity.account_did;
          device_id = device_id;
          event_id = drawn.event_id;
          task_id = to_lower snap.task_id;
          updated_at = snap.updated_at;
          plaintext = plaintext_of snap;
          encryption_key = encryption_key;
        })
        drawn.iv)

  abbrev pub install_event_builder : {N : Type 0} → Text → Engine N → Engine N
  install_event_builder device_id e = record e {
    store = record e.store { event_builder = some (build_event device_id) };
  }

module _ {N : Type 0} (world : World N) (runtime : Runtime) (identity : Identity) where
  -- A call with the bearer token, and once more with a fresh one if the token was refused.
  unfoldable pub call_with :
      {A : Type 0}
      → (Text → N → Reply A × N)
      → Reply Text × AuthSession × N
      → Reply A × AuthSession × N
  call_with call (failed e, session, n) = (failed e, session, n)
  call_with call (ok token, session, n) = let (reply, n') = call token n in (reply, session, n')

  unfoldable pub retry :
      {A : Type 0}
      → (Text → N → Reply A × N)
      → Reply A × AuthSession × N
      → Reply A × AuthSession × N
  unfolding call_with
  retry call (ok a, session, n) = (ok a, session, n)
  retry call (failed e, session, n) =
      if is_auth_retryable e
      then call_with call (bearer world runtime identity invalidated n)
      else (failed e, session, n)

  -- A failure to get the first token is not retried.
  unfoldable pub with_token :
      {A : Type 0}
      → (Text → N → Reply A × N)
      → Reply Text × AuthSession × N
      → Reply A × AuthSession × N
  unfolding retry
  with_token call (failed e, session, n) = (failed e, session, n)
  with_token call (ok token, session, n) =
      let (reply, n') = call token n in retry call (reply, session, n')

  unfoldable pub push_with_auth :
      List SyncEvent → AuthSession → N → Reply PushResponse × AuthSession × N
  unfolding with_token
  push_with_auth events session n =
      with_token (world.push identity.account_did events) (bearer world runtime identity session n)

  unfoldable pub pull_with_auth : Text → AuthSession → N → Reply PullResponse × AuthSession × N
  unfolding with_token
  pull_with_auth cursor session n =
      with_token (world.pull identity.account_did cursor) (bearer world runtime identity session n)
