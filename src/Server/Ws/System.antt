-- ===== src/Server/Ws/System.antt =====
-- The hub of backend/server/src/ws-server.ts over the SQLite store, with the steps that it takes: each is
-- what runs between two turns of the event loop, and they come in any order.
use corner_tasks.Prelude.{
  ℕ, suc, ◌<◌, ◌≡◌, ◌==◌, true, Option, none, some, List, ◌∷◌, ◌++◌, if◌then◌else◌,
}
use corner_tasks.Prelude.Text.{Text, codes}
use corner_tasks.Prelude.Json.{Json, Items, get_field, as_str}
use corner_tasks.Prelude.Outcome.{Outcome, returned, threw}
use corner_tasks.Core.Types.{QueryEventsResult}
use corner_tasks.Core.Config.{Config}
use corner_tasks.Core.Auth.{verify_bearer_token}
use corner_tasks.Core.Http.{HttpEvent, HttpResult, RequestBody, json}
use corner_tasks.Core.Sqlite.Rows.{Db}
use corner_tasks.Core.Sqlite.Methods.{query_events_after}
use corner_tasks.Core.Store.{sqlite_store}
use corner_tasks.Core.Handlers.Push.{push}
use corner_tasks.Server.Ws.Connection.{AuthWait, ReadWait, PushWait, Peer, touch, send_frame}
use corner_tasks.Server.Ws.Frames.{pong_frame}
use corner_tasks.Server.Ws.Pump.{pump, resume_pump}
use corner_tasks.Server.Ws.Hub.{
  Hub, new_hub, set_peer, conclude, on_connection, on_auth_timer, on_ping_timer, on_dead_timer,
  on_close, on_error, notify_account, shut_down,
}
use corner_tasks.Server.Ws.Messages.{
  Inbound, Action, ignored, authenticate, subscribe, push_batch, answer_ping, action_of, begin_auth,
  handle_subscribe, batch_of, rest_event, begin_push, resume_auth, resume_push,
}

pub record System : Type 0 where
  pub hub : Hub
  pub store : Db

-- `maxConnectionsPerAccount`, `eventsChunkSize`, and the domain.
pub record Options : Type 0 where
  pub max_connections : ℕ
  pub chunk_size : ℕ
  pub domain_name : Text
  pub stage : Text

module _ (config : Config) (opts : Options) where
  -- A read of the store at the time `now`.
  abbrev pub ask_at : ℕ → Db → Text → Text → Outcome QueryEventsResult
  ask_at now db a cursor = returned (query_events_after config.iso now a cursor db)

  -- A read that fails, or one at a time that the clock shows.
  abbrev pub asking : Option ℕ → Db → Text → Text → Outcome QueryEventsResult
  asking none db a cursor = threw
  asking (some now) db a cursor = ask_at now db a cursor

  -- A frame without a `pushId` is not acted on.
  unfoldable pub push_with_id : ℕ → ℕ → Option Text → Items → System → System
  unfolding begin_push rest_event
  push_with_id now i none events s = s
  push_with_id now i (some push_id) events s =
      let request = rest_event opts.domain_name opts.stage events (s.hub.peers i).conn in
      let (response, db) = push (sqlite_store config.iso) config now now request s.store in
      record {
        hub = set_peer i (begin_push push_id events response (s.hub.peers i)) s.hub;
        store = db;
      }

  -- `handlePush` up to its `await`
  unfoldable pub handle_push : ℕ → ℕ → Json → System → System
  unfolding push_with_id
  handle_push now i msg s =
      push_with_id now i (as_str (get_field (codes "pushId") msg))
        (batch_of (get_field (codes "events") msg)) s

  unfoldable pub act : Option ℕ → ℕ → ℕ → Action → System → System
  unfolding handle_push begin_auth handle_subscribe
  act readable now i ignored s = s
  act readable now i (authenticate msg) s = record s {
    hub =
        conclude i
          (begin_auth (verify_bearer_token config.codec config.signing now) msg (s.hub.peers i))
          s.hub;
  }
  act readable now i (subscribe msg) s = record s {
    hub = set_peer i (handle_subscribe (asking readable s.store) msg (s.hub.peers i)) s.hub;
  }
  act readable now i (push_batch msg) s = handle_push now i msg s
  act readable now i (answer_ping msg) s = record s {
    hub = set_peer i (send_frame (pong_frame (get_field (codes "t") msg)) (s.hub.peers i)) s.hub;
  }

  abbrev pub touched : ℕ → Hub → Hub
  touched i h = set_peer i (record (h.peers i) { conn = touch (h.peers i).conn }) h

  -- `onMessage`
  unfoldable pub on_message : Option ℕ → ℕ → ℕ → Inbound → System → System
  unfolding act action_of
  on_message readable now i message s =
      act readable now i (action_of (s.hub.peers i).conn.state message)
        (record s { hub = touched i s.hub })

  -- The account that the body of a push names.
  abbrev pub pushed_account : RequestBody → Option Text
  pushed_account (json body) = as_str (get_field (codes "accountDid") body)
  pushed_account _ = none

  unfoldable pub notify_named : Option ℕ → Option Text → System → System
  notify_named readable none s = s
  notify_named readable (some a) s = record s {
    hub = notify_account (asking readable s.store) a none s.hub;
  }

  -- `fanOutAfterRestPush` of backend/server/src/server.ts, of a response of the push handler
  unfoldable pub fan_out : Option ℕ → RequestBody → Outcome HttpResult → System → System
  unfolding notify_named
  fan_out readable body threw s = s
  fan_out readable body (returned result) s =
      if result.status == 200 then notify_named readable (pushed_account body) s else s

  unfoldable pub rest_push : Option ℕ → ℕ → HttpEvent → System → System
  unfolding fan_out
  rest_push readable now event s =
      let (response, db) = push (sqlite_store config.iso) config now now event s.store in
      fan_out readable event.body response (record s { store = db })

  -- The calls of a connection that wait, without one of them.
  abbrev pub without_push : ℕ → List PushWait → Hub → Hub
  without_push i rest h = set_peer i (record (h.peers i) { pushes = rest }) h

  abbrev pub without_read : List ReadWait → Peer → Peer
  without_read rest p = record p { reads = rest }

  unfoldable pub answer_read : Option ℕ → ℕ → ReadWait → List ReadWait → System → System
  unfolding resume_pump conclude
  answer_read readable i call rest s = record s {
    hub =
        conclude i
          (resume_pump (asking readable s.store) opts.chunk_size call
            (without_read rest (s.hub.peers i)))
          s.hub;
  }

  -- The callback of `setImmediate`
  unfoldable pub on_immediate : Option ℕ → ℕ → ℕ → System → System
  unfolding pump
  on_immediate readable i left s = record s {
    hub =
        set_peer i (pump (asking readable s.store) (record (s.hub.peers i) { immediates = left }))
          s.hub;
  }

  pub data Step (s : System) : System → Type 0 where
    connects : Step s (record s { hub = on_connection s.hub })
    receives :
        (readable : Option ℕ) (now i : ℕ) (message : Inbound)
        → i < s.hub.accepted
        → Step s (on_message readable now i message s)
    auth_answered :
        (i : ℕ) (before after : List AuthWait) (call : AuthWait)
        → (s.hub.peers i).auths ≡ before ++ call ∷ after
        → Step s
            (record s { hub = resume_auth opts.max_connections i call (before ++ after) s.hub })
    read_answered :
        (readable : Option ℕ) (i : ℕ) (before after : List ReadWait) (call : ReadWait)
        → (s.hub.peers i).reads ≡ before ++ call ∷ after
        → Step s (answer_read readable i call (before ++ after) s)
    push_answered :
        (readable : Option ℕ) (i : ℕ) (before after : List PushWait) (call : PushWait)
        → (s.hub.peers i).pushes ≡ before ++ call ∷ after
        → Step s (record s {
          hub =
              resume_push (asking readable s.store) i call (without_push i (before ++ after) s.hub);
        })
    immediate_runs :
        (readable : Option ℕ) (i left : ℕ)
        → (s.hub.peers i).immediates ≡ suc left
        → Step s (on_immediate readable i left s)
    auth_timer_fires :
        (i : ℕ)
        → (s.hub.peers i).conn.auth_timer ≡ true
        → Step s (record s { hub = on_auth_timer i s.hub })
    ping_timer_fires :
        (i t : ℕ)
        → (s.hub.peers i).conn.ping_timer ≡ true
        → Step s (record s { hub = on_ping_timer i t s.hub })
    dead_timer_fires :
        (i : ℕ)
        → (s.hub.peers i).conn.dead_timer ≡ true
        → Step s (record s { hub = on_dead_timer i s.hub })
    socket_closes : (i : ℕ) → i < s.hub.accepted → Step s (record s { hub = on_close i s.hub })
    socket_fails : (i : ℕ) → i < s.hub.accepted → Step s (record s { hub = on_error i s.hub })
    pushed_over_http :
        (readable : Option ℕ) (now : ℕ) (event : HttpEvent)
        → Step s (rest_push readable now event s)
    shuts_down : Step s (record s { hub = shut_down s.hub })

  abbrev pub initial : Db → System
  initial db = record { hub = new_hub; store = db }

  pub data Reach (db : Db) : System → Type 0 where
    start : Reach db (initial db)
    later : {s t : System} → Reach db s → Step s t → Reach db t
