-- ===== src/Server/Ws/Registry/Steps.antt =====
-- The cap on an account's connections, in all states of the hub of backend/server/src/ws-server.ts.
use corner_tasks.Prelude.{
  ℕ, ◌≤◌, ◌==◌, false, Option, none, some, List, [], ◌∷◌, leb, branches, or_else,
}
use corner_tasks.Prelude.Text.{Text, codes}
use corner_tasks.Prelude.Json.{Items, get_field, as_str}
use corner_tasks.Prelude.Outcome.{Outcome, returned, threw}
use corner_tasks.Core.Types.{QueryEventsResult}
use corner_tasks.Core.Config.{Config}
use corner_tasks.Core.Auth.{TokenVerification, granted, refused, verify_bearer_token}
use corner_tasks.Core.Http.{HttpResult, RequestBody}
use corner_tasks.Core.Sqlite.Rows.{Db}
use corner_tasks.Core.Store.{sqlite_store}
use corner_tasks.Core.Handlers.Push.{push}
use corner_tasks.Server.Ws.Frames.{
  ConnState, unauthenticated, authenticating, CloseReason, auth_timeout, heartbeat_timeout,
  socket_error, server_shutdown, close_auth_failed, close_heartbeat_timeout,
}
use corner_tasks.Server.Ws.Connection.{PushWait, Peer, Verdict, stays, torn, is_closed}
use corner_tasks.Server.Ws.Hub.{
  Hub, set_for, connections_for, set_peer, forget, teardown, conclude, time_out, on_auth_timer,
  on_ping_timer, on_dead_timer, on_close, on_error, on_connection, teardown_ids, all_ids, shut_down,
  notify_ids, notify_peer, notify_account,
}
use corner_tasks.Server.Ws.Messages.{
  Action, ignored, authenticate, subscribe, push_batch, answer_ping, begin_auth, admit, finish_auth,
  auth_result, resume_auth, batch_of, acknowledge, push_result, resume_push, action_of,
}
use corner_tasks.Server.Ws.System.{
  System, Options, asking, push_with_id, handle_push, act, on_message, pushed_account, notify_named,
  fan_out, rest_push, answer_read, on_immediate, Step, connects, receives, auth_answered,
  read_answered, push_answered, immediate_runs, auth_timer_fires, ping_timer_fires,
  dead_timer_fires, socket_closes, socket_fails, pushed_over_http, shuts_down, Reach, start, later,
}
use corner_tasks.Server.Ws.Registry.{
  IsCapped, unregister_account-IsCapped, joined-IsCapped, capped-connections_for,
}

module _ (max : ℕ) where
  abbrev Capped : Hub → Type 0
  Capped h = IsCapped max h.by_account

  forget-Capped : (i : ℕ) (h : Hub) → Capped h → Capped (forget i h)
  unfolding forget
  forget-Capped i h k =
      unregister_account-IsCapped max i (h.peers i).conn.account_did h.by_account k

  teardown-Capped :
      (i code : ℕ) (reason : CloseReason) (h : Hub) → Capped h → Capped (teardown i code reason h)
  unfolding teardown
  teardown-Capped i code reason h k = forget-Capped i h k

  conclude-Capped : (i : ℕ) (v : Verdict) (h : Hub) → Capped h → Capped (conclude i v h)
  unfolding conclude
  conclude-Capped i (stays p) h k = k
  conclude-Capped i (torn p code reason) h k = teardown-Capped i code reason (set_peer i p h) k

  time_out-Capped : (state : ConnState) (i : ℕ) (h : Hub) → Capped h → Capped (time_out state i h)
  unfolding time_out
  time_out-Capped unauthenticated i h k = teardown-Capped i close_auth_failed auth_timeout h k
  time_out-Capped authenticating i h k = teardown-Capped i close_auth_failed auth_timeout h k
  time_out-Capped _ i h k = k

  teardown_ids-Capped : (ids : List ℕ) (h : Hub) → Capped h → Capped (teardown_ids ids h)
  unfolding teardown_ids
  teardown_ids-Capped [] h k = k
  teardown_ids-Capped (i ∷ ids) h k =
      teardown_ids-Capped ids (teardown i 1001 server_shutdown h)
        (teardown-Capped i 1001 server_shutdown h k)

  module _ (ask : Text → Text → Outcome QueryEventsResult) where
    notify_ids-Capped :
        (origin : Option (ℕ × List Text)) (ids : List ℕ) (h : Hub)
        → Capped h
        → Capped (notify_ids ask origin ids h)
    unfolding notify_ids
    notify_ids-Capped origin [] h k = k
    notify_ids-Capped origin (i ∷ ids) h k =
        notify_ids-Capped origin ids (set_peer i (notify_peer ask origin i (h.peers i)) h) k

    notify_account-Capped :
        (a : Text) (origin : Option (ℕ × List Text)) (h : Hub)
        → Capped h
        → Capped (notify_account ask a origin h)
    unfolding notify_account
    notify_account-Capped a origin h k =
        notify_ids-Capped origin (or_else (set_for a h.by_account) []) h k

    acknowledge-Capped :
        (i : ℕ) (call : PushWait) (result : HttpResult) (h : Hub)
        → Capped h
        → Capped (acknowledge ask i call result h)
    unfolding acknowledge
    acknowledge-Capped i call result h k =
        branches Capped (result.status == 401) _ _ (λ _. teardown-Capped i _ _ _ k)
          (λ _.
            branches Capped (result.status == 200) _ _
              (λ _. notify_account-Capped call.account_did _ _ k) (λ _. k))

    push_result-Capped :
        (i : ℕ) (call : PushWait) (o : Outcome HttpResult) (h : Hub)
        → Capped h
        → Capped (push_result ask i call o h)
    unfolding push_result
    push_result-Capped i call threw h k = teardown-Capped i _ _ h k
    push_result-Capped i call (returned result) h k =
        branches Capped (is_closed (h.peers i).conn.state) _ _ (λ _. k)
          (λ _. acknowledge-Capped i call result h k)

  -- The only place where a connection joins.
  admit-Capped :
      (i : ℕ) (a token : Text) (p : Peer) (h : Hub) → Capped h → Capped (admit max i a token p h)
  unfolding admit
  admit-Capped i a token p h k =
      branches Capped (leb max (connections_for a h.by_account)) _ _
        (λ _. teardown-Capped i _ _ (set_peer i p h) k)
        (λ room. joined-IsCapped max i a h.by_account k room)

  finish_auth-Capped :
      (i : ℕ) (token : Text) (v : TokenVerification) (p : Peer) (h : Hub)
      → Capped h
      → Capped (finish_auth max i token v p h)
  unfolding finish_auth
  finish_auth-Capped i token (granted a) p h k = admit-Capped i a token p h k
  finish_auth-Capped i token (refused reason) p h k = teardown-Capped i _ _ _ k

  auth_result-Capped :
      (i : ℕ) (token : Text) (o : Outcome TokenVerification) (p : Peer) (h : Hub)
      → Capped h
      → Capped (auth_result max i token o p h)
  unfolding auth_result
  auth_result-Capped i token threw p h k = teardown-Capped i _ _ _ k
  auth_result-Capped i token (returned v) p h k =
      branches Capped (is_closed p.conn.state) _ _ (λ _. k)
        (λ _. finish_auth-Capped i token v p h k)

-- The hub as `on_close` forgets the connection.
abbrev hung_up : ℕ → Hub → Hub
hung_up i h =
    set_peer i (record (h.peers i) { socket = record (h.peers i).socket { is_open = false } }) h

module _ (config : Config) (opts : Options) where
  abbrev IsOk : System → Type 0
  IsOk s = IsCapped opts.max_connections s.hub.by_account

  push_with_id-IsOk :
      (now i : ℕ) (id : Option Text) (events : Items) (s : System)
      → IsOk s
      → IsOk (push_with_id config opts now i id events s)
  unfolding push_with_id
  push_with_id-IsOk now i none events s k = k
  push_with_id-IsOk now i (some id) events s k = k

  act-IsOk :
      (readable : Option ℕ) (now i : ℕ) (action : Action) (s : System)
      → IsOk s
      → IsOk (act config opts readable now i action s)
  unfolding act handle_push
  act-IsOk readable now i ignored s k = k
  act-IsOk readable now i (authenticate msg) s k =
      conclude-Capped opts.max_connections i
        (begin_auth (verify_bearer_token config.codec config.signing now) msg (s.hub.peers i)) s.hub
        k
  act-IsOk readable now i (subscribe msg) s k = k
  act-IsOk readable now i (push_batch msg) s k =
      push_with_id-IsOk now i (as_str (get_field (codes "pushId") msg))
        (batch_of (get_field (codes "events") msg)) s k
  act-IsOk readable now i (answer_ping msg) s k = k

  notify_named-IsOk :
      (readable : Option ℕ) (a : Option Text) (s : System)
      → IsOk s
      → IsOk (notify_named config opts readable a s)
  unfolding notify_named
  notify_named-IsOk readable none s k = k
  notify_named-IsOk readable (some a) s k =
      notify_account-Capped opts.max_connections (asking config opts readable s.store) a none s.hub
        k

  fan_out-IsOk :
      (readable : Option ℕ) (body : RequestBody) (o : Outcome HttpResult) (s : System)
      → IsOk s
      → IsOk (fan_out config opts readable body o s)
  unfolding fan_out
  fan_out-IsOk readable body threw s k = k
  fan_out-IsOk readable body (returned result) s k =
      branches IsOk (result.status == 200) _ _
        (λ _. notify_named-IsOk readable (pushed_account config opts body) s k) (λ _. k)

  Step-IsOk : {s t : System} → Step config opts s t → IsOk s → IsOk t
  unfolding on_connection on_message resume_auth answer_read resume_push on_immediate on_auth_timer
      on_ping_timer on_dead_timer on_close on_error rest_push shut_down
  Step-IsOk {s} connects k = k
  Step-IsOk {s} (receives readable now i message there) k =
      act-IsOk readable now i (action_of (s.hub.peers i).conn.state message) _ k
  Step-IsOk {s} (auth_answered i before after call e) k =
      auth_result-Capped opts.max_connections i call.presented call.verified _ s.hub k
  Step-IsOk {s} (read_answered readable i before after call e) k =
      conclude-Capped opts.max_connections i _ s.hub k
  Step-IsOk {s} (push_answered readable i before after call e) k =
      push_result-Capped opts.max_connections (asking config opts readable s.store) i call
        call.response _ k
  Step-IsOk {s} (immediate_runs readable i left e) k = k
  Step-IsOk {s} (auth_timer_fires i e) k =
      time_out-Capped opts.max_connections (s.hub.peers i).conn.state i s.hub k
  Step-IsOk {s} (ping_timer_fires i t e) k = k
  Step-IsOk {s} (dead_timer_fires i e) k =
      teardown-Capped opts.max_connections i close_heartbeat_timeout heartbeat_timeout s.hub k
  Step-IsOk {s} (socket_closes i there) k = forget-Capped opts.max_connections i (hung_up i s.hub) k
  Step-IsOk {s} (socket_fails i there) k =
      teardown-Capped opts.max_connections i 1011 socket_error s.hub k
  Step-IsOk {s} (pushed_over_http readable now event) k =
      let (response, db) = push (sqlite_store config.iso) config now now event s.store in
      fan_out-IsOk readable event.body response (record s { store = db }) k
  Step-IsOk {s} shuts_down k =
      teardown_ids-Capped opts.max_connections (all_ids s.hub.by_account) s.hub k

  Reach-IsOk : {db : Db} {s : System} → Reach config opts db s → IsOk s
  Reach-IsOk start = tt
  Reach-IsOk (later reach step) = Step-IsOk step (Reach-IsOk reach)

  -- Whatever the hub has been through: no account has more than the permitted number of connections in the
  -- registry, and no account is kept there with an empty set.
  pub cap_respected :
      (db : Db) (s : System) (a : Text)
      → Reach config opts db s
      → (connections_for a s.hub.by_account ≤ opts.max_connections)
        × IsCapped opts.max_connections s.hub.by_account
  cap_respected db s a reach = (
    capped-connections_for opts.max_connections a s.hub.by_account (Reach-IsOk reach),
    Reach-IsOk reach,
  )
