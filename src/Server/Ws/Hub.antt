-- ===== src/Server/Ws/Hub.antt =====
-- `WsHub` of backend/server/src/ws-server.ts: the registry, fan-out, and the end of a connection. A
-- connection is named by its place in the order of acceptance. An account's set is a list without
-- repetitions.
use corner_tasks.Prelude.{
  ℕ, suc, ◌+◌, Bool, true, false, not, Option, none, some, List, [], ◌∷◌, ◌++◌, ◌==◌, if◌then◌else◌,
  filter, length, is_empty, or_else,
}
use corner_tasks.Prelude.Text.{Text, text_eq}
use corner_tasks.Prelude.Outcome.{Outcome}
use corner_tasks.Core.Types.{QueryEventsResult}
use corner_tasks.Server.Ws.Frames.{
  ConnState, unauthenticated, authenticating, CloseReason, auth_timeout, heartbeat_timeout,
  socket_error, server_shutdown, close_auth_failed, close_heartbeat_timeout, ping_frame,
}
use corner_tasks.Server.Ws.Connection.{
  new_connection, new_socket, Peer, Verdict, stays, torn, is_subscribed, send_frame,
  stop_connection, touch, end_socket,
}
use corner_tasks.Server.Ws.Pump.{pump}

-- `byAccount`
abbrev pub Registry : Type 0
Registry = List (Text × List ℕ)

-- `byAccount.get(a)`
unfoldable pub set_for : Text → Registry → Option (List ℕ)
set_for a [] = none
set_for a ((b, ids) ∷ reg) = if text_eq b a then some ids else set_for a reg

-- `byAccount.set(a, ids)`
unfoldable pub put_set : Text → List ℕ → Registry → Registry
put_set a ids [] = (a, ids) ∷ []
put_set a ids ((b, old) ∷ reg) =
    let rest = put_set a ids reg in if text_eq b a then (b, ids) ∷ reg else (b, old) ∷ rest

-- `byAccount.delete(a)`
unfoldable pub delete_set : Text → Registry → Registry
delete_set a [] = []
delete_set a ((b, ids) ∷ reg) =
    let rest = delete_set a reg in if text_eq b a then rest else (b, ids) ∷ rest

unfoldable pub has_member : ℕ → List ℕ → Bool
has_member i [] = false
has_member i (j ∷ ids) = let rest = has_member i ids in if j == i then true else rest

-- `set.add(conn)` and `set.delete(conn)`
unfoldable pub add_id : ℕ → List ℕ → List ℕ
unfolding has_member
add_id i ids = if has_member i ids then ids else ids ++ i ∷ []

unfoldable pub remove_id : ℕ → List ℕ → List ℕ
unfolding filter
remove_id i ids = filter (λ j. not (j == i)) ids

-- `connectionsFor`, `accountCount` and `totalConnections`
abbrev pub connections_for : Text → Registry → ℕ
connections_for a reg = length (or_else (set_for a reg) [])

abbrev pub account_count : Registry → ℕ
account_count reg = length reg

unfoldable pub total_connections : Registry → ℕ
total_connections [] = 0
total_connections ((a, ids) ∷ reg) = length ids + total_connections reg

-- A connection leaves the set of its account, and an empty set leaves the registry.
unfoldable pub unregister : ℕ → Text → Registry → Registry
unfolding set_for put_set delete_set remove_id
unregister i a reg = elim (set_for a reg) [
  | none ↦ reg
  | some ids ↦
      if is_empty (remove_id i ids) then delete_set a reg else put_set a (remove_id i ids) reg
]

-- `if (!conn.accountDid) return;`: neither `null` nor the empty text.
unfoldable pub unregister_account : ℕ → Option Text → Registry → Registry
unfolding unregister
unregister_account i none reg = reg
unregister_account i (some []) reg = reg
unregister_account i (some (c ∷ a)) reg = unregister i (c ∷ a) reg

pub record Hub : Type 0 where
  pub peers : ℕ → Peer
  pub accepted : ℕ
  pub by_account : Registry

abbrev pub new_peer : Peer
new_peer = record {
  conn = new_connection;
  socket = new_socket;
  auths = [];
  reads = [];
  pushes = [];
  immediates = 0;
}

abbrev pub new_hub : Hub
new_hub = record { peers = λ _. new_peer; accepted = 0; by_account = [] }

abbrev pub update_peer : (ℕ → Peer) → ℕ → Peer → ℕ → Peer
update_peer f i p j = if i == j then p else f j

abbrev pub set_peer : ℕ → Peer → Hub → Hub
set_peer i p h = record h { peers = update_peer h.peers i p }

unfoldable pub forget : ℕ → Hub → Hub
unfolding unregister_account stop_connection
forget i h = record h {
  peers = update_peer h.peers i (record (h.peers i) { conn = stop_connection (h.peers i).conn });
  by_account = unregister_account i (h.peers i).conn.account_did h.by_account;
}

unfoldable pub teardown : ℕ → ℕ → CloseReason → Hub → Hub
unfolding forget end_socket
teardown i code reason h = record (forget i h) {
  peers = update_peer (forget i h).peers i (record ((forget i h).peers i) {
    socket = end_socket code reason ((forget i h).peers i).socket;
  });
}

-- A step on connection `i` has ended.
unfoldable pub conclude : ℕ → Verdict → Hub → Hub
unfolding teardown
conclude i (stays p) h = set_peer i p h
conclude i (torn p code reason) h = teardown i code reason (set_peer i p h)

-- `onConnection`: the timers are armed, that of the heartbeat by `touch`.
unfoldable pub on_connection : Hub → Hub
unfolding touch
on_connection h = record h {
  peers = update_peer h.peers h.accepted (record new_peer {
    conn = touch (record new_connection { auth_timer = true; ping_timer = true });
  });
  accepted = suc h.accepted;
}

unfoldable pub time_out : ConnState → ℕ → Hub → Hub
unfolding teardown
time_out unauthenticated i h = teardown i close_auth_failed auth_timeout h
time_out authenticating i h = teardown i close_auth_failed auth_timeout h
time_out _ i h = h

-- The callback of `authTimer`
unfoldable pub on_auth_timer : ℕ → Hub → Hub
unfolding time_out
on_auth_timer i h = time_out (h.peers i).conn.state i h

-- The callback of `pingTimer`, at the time `t`
unfoldable pub on_ping_timer : ℕ → ℕ → Hub → Hub
on_ping_timer i t h = set_peer i (send_frame (ping_frame t) (h.peers i)) h

-- The callback of `deadTimer`
unfoldable pub on_dead_timer : ℕ → Hub → Hub
unfolding teardown
on_dead_timer i h = teardown i close_heartbeat_timeout heartbeat_timeout h

-- The socket's `close` and `error` events; at the first the socket is no longer open.
unfoldable pub on_close : ℕ → Hub → Hub
unfolding forget
on_close i h =
    forget i
      (set_peer i (record (h.peers i) { socket = record (h.peers i).socket { is_open = false } }) h)

unfoldable pub on_error : ℕ → Hub → Hub
unfolding teardown
on_error i h = teardown i 1011 socket_error h

-- The first part of `close`: all the connections of the registry, as it was before, are torn down.
unfoldable pub teardown_ids : List ℕ → Hub → Hub
unfolding teardown
teardown_ids [] h = h
teardown_ids (i ∷ ids) h = teardown_ids ids (teardown i 1001 server_shutdown h)

unfoldable pub all_ids : Registry → List ℕ
all_ids [] = []
all_ids ((a, ids) ∷ reg) = ids ++ all_ids reg

unfoldable pub shut_down : Hub → Hub
unfolding teardown_ids all_ids
shut_down h = teardown_ids (all_ids h.by_account) h

-- The ids that the originating connection has just written are withheld from it.
unfoldable pub withheld : Option (ℕ × List Text) → ℕ → Option (List Text) → Option (List Text)
withheld none i ids = ids
withheld (some (j, written)) i ids = if j == i then some (written ++ or_else ids []) else ids

module _ (ask : Text → Text → Outcome QueryEventsResult) where
  unfoldable pub notify_peer : Option (ℕ × List Text) → ℕ → Peer → Peer
  unfolding withheld pump
  notify_peer origin i p =
      if is_subscribed p.conn.state
      then pump ask (record p {
        conn = record p.conn { suppress = withheld origin i p.conn.suppress; pending = true };
      })
      else p

  unfoldable pub notify_ids : Option (ℕ × List Text) → List ℕ → Hub → Hub
  unfolding notify_peer
  notify_ids origin [] h = h
  notify_ids origin (i ∷ ids) h =
      notify_ids origin ids (set_peer i (notify_peer origin i (h.peers i)) h)

  unfoldable pub notify_account : Text → Option (ℕ × List Text) → Hub → Hub
  unfolding notify_ids
  notify_account a origin h = notify_ids origin (or_else (set_for a h.by_account) []) h
