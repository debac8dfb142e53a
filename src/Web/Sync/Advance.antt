-- ===== src/Web/Sync/Advance.antt =====
-- When `pullSince` of apps/web/src/sync/SyncEngine.ts moves the cursor, and what the store has seen then.
use corner_tasks.Prelude.{◌≡◌, some, In}
use corner_tasks.Prelude.Text.{Text}
use corner_tasks.Prelude.Outcome.{Outcome}
use corner_tasks.Core.Types.{SyncEvent}
use corner_tasks.Web.Wire.{Bytes, Runtime}
use corner_tasks.Web.Session.{ok, PullResponse, World, Identity}
use corner_tasks.Web.Tasks.{or_else}
use corner_tasks.Web.Tasks.Lww.{RemoteEvent}
use corner_tasks.Web.Sync.{Engine, broken, succeeded, initial_cursor}
use corner_tasks.Web.Sync.Applying.{HasSeen, Says, AreNamed}

module _ {N : Type 0} (world : World N) (runtime : Runtime) (identity : Identity)
    (encryption_key : Bytes) where
  -- The reply to a pull from the cursor that the engine has.
  abbrev pub Replied : Engine N → PullResponse → Type 0
  Replied e response =
      (token : Text) × (n : N) × ((world.pull identity.account_did (or_else initial_cursor e.cursor)
          token n).0
        ≡ ok response)

  -- The cursor is that of a reply, and the store has seen every event of the reply.
  abbrev pub CaughtUp : Engine N → Engine N → Type 0
  CaughtUp e e' =
      (response : PullResponse) × Replied e response
      × (e'.cursor ≡ some response.next_cursor)
      × (e'.last_pull_outcome ≡ succeeded)
      × (AreNamed response.events
          → (event : SyncEvent) (ev : RemoteEvent) → In event response.events
          → Says world runtime identity encryption_key event ev
          → HasSeen ev e'.store)

  -- The cursor is what it was, and the engine notes the failure.
  abbrev pub LeftAlone : Engine N → Engine N → Type 0
  LeftAlone e e' = (e'.cursor ≡ e.cursor) × (e'.last_pull_outcome ≡ broken)
