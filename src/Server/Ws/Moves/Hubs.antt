-- ===== src/Server/Ws/Moves/Hubs.antt =====
-- The operations of the hub of backend/server/src/ws-server.ts as moves of its connections.
use corner_tasks.Prelude.{ℕ, ◌≡◌, ◌==◌, ==_iff, refl, sym, subst, false, List, [], ◌∷◌, branches}
use corner_tasks.Server.Ws.Frames.{
  ConnState, unauthenticated, authenticating, CloseReason, close_auth_failed,
  close_heartbeat_timeout, heartbeat_timeout, socket_error, auth_timeout, server_shutdown,
}
use corner_tasks.Server.Ws.Connection.{Peer, stays, torn, stop_connection}
use corner_tasks.Server.Ws.Hub.{
  Hub, update_peer, set_peer, forget, teardown, conclude, time_out, on_auth_timer, on_ping_timer,
  on_dead_timer, on_close, on_error, teardown_ids, shut_down, all_ids,
}
use corner_tasks.Server.Ws.Moves.{Move, says, stops, ends, hangs_up, Moves, no_move, then_move}

pub Moves-trans : {p q r : Peer} → Moves p q → Moves q r → Moves p r
Moves-trans first no_move = first
Moves-trans first (then_move second move) = then_move (Moves-trans first second) move

abbrev pub HubMoves : Hub → Hub → Type 0
HubMoves h k = (j : ℕ) → Moves (h.peers j) (k.peers j)

abbrev pub once : {p q : Peer} → Move p q → Moves p q
once move = then_move no_move move

pub HubMoves-trans : (h k l : Hub) → HubMoves h k → HubMoves k l → HubMoves h l
HubMoves-trans h k l first second j = Moves-trans (first j) (second j)

pub update_peer-Moves :
    (f : ℕ → Peer) (i : ℕ) (p : Peer) → Moves (f i) p → (j : ℕ) → Moves (f j) (update_peer f i p j)
update_peer-Moves f i p moves j =
    branches (Moves (f j)) (i == j) p (f j)
      (λ e. subst (λ k. Moves (f k) p) ((==_iff i j).0 e) moves) (λ _. no_move)

pub update_peer-same : (f : ℕ → Peer) (i : ℕ) (p : Peer) → update_peer f i p i ≡ p
update_peer-same f i p = rw ((==_iff i i).1 refl) refl

pub forget-Moves : (i : ℕ) (h : Hub) → HubMoves h (forget i h)
unfolding forget
forget-Moves i h = update_peer-Moves h.peers i _ (once stops)

pub teardown-Moves :
    (i code : ℕ) (reason : CloseReason) (h : Hub) → HubMoves h (teardown i code reason h)
unfolding teardown
teardown-Moves i code reason h j =
    Moves-trans (forget-Moves i h j)
      (update_peer-Moves (forget i h).peers i _ (once (ends code reason)) j)

pub torn_after-Moves :
    (i code : ℕ) (reason : CloseReason) (p : Peer) (h : Hub)
    → Moves (h.peers i) p
    → HubMoves h (teardown i code reason (set_peer i p h))
torn_after-Moves i code reason p h moves =
    HubMoves-trans h (set_peer i p h) (teardown i code reason (set_peer i p h))
      (update_peer-Moves h.peers i p moves) (teardown-Moves i code reason (set_peer i p h))

pub conclude-Moves :
    (i : ℕ) (p : Peer) (h : Hub) → Moves (h.peers i) p → HubMoves h (conclude i (stays p) h)
unfolding conclude
conclude-Moves i p h moves = update_peer-Moves h.peers i p moves

forget_set-Moves :
    (i : ℕ) (p : Peer) (h : Hub)
    → Moves (h.peers i) (record p { conn = stop_connection p.conn })
    → HubMoves h (forget i (set_peer i p h))
unfolding forget
forget_set-Moves i p h moves j =
    branches (Moves (h.peers j)) (i == j) _ _
      (λ e.
        subst (λ k. Moves (h.peers k) (stopped (update_peer h.peers i p i))) ((==_iff i j).0 e)
          (subst (λ q. Moves (h.peers i) (stopped q)) (sym (update_peer-same h.peers i p)) moves))
      (λ e. rw e no_move)
  where
    stopped : Peer → Peer
    stopped q = record q { conn = stop_connection q.conn }

-- The connection is torn down as `p`, which it need not be before.
pub teardown_set-Moves :
    (i code : ℕ) (reason : CloseReason) (p : Peer) (h : Hub)
    → Moves (h.peers i) (record p { conn = stop_connection p.conn })
    → HubMoves h (conclude i (torn p code reason) h)
unfolding conclude teardown
teardown_set-Moves i code reason p h moves =
    HubMoves-trans h (forget i (set_peer i p h)) (teardown i code reason (set_peer i p h))
      (forget_set-Moves i p h moves)
      (update_peer-Moves (forget i (set_peer i p h)).peers i _ (once (ends code reason)))

time_out-Moves : (state : ConnState) (i : ℕ) (h : Hub) → HubMoves h (time_out state i h)
unfolding time_out
time_out-Moves unauthenticated i h = teardown-Moves i close_auth_failed auth_timeout h
time_out-Moves authenticating i h = teardown-Moves i close_auth_failed auth_timeout h
time_out-Moves _ i h = λ j. no_move

pub on_auth_timer-Moves : (i : ℕ) (h : Hub) → HubMoves h (on_auth_timer i h)
unfolding on_auth_timer
on_auth_timer-Moves i h = time_out-Moves (h.peers i).conn.state i h

pub on_ping_timer-Moves : (i t : ℕ) (h : Hub) → HubMoves h (on_ping_timer i t h)
unfolding on_ping_timer
on_ping_timer-Moves i t h = update_peer-Moves h.peers i _ (once (says _ refl))

pub on_close-Moves : (i : ℕ) (h : Hub) → HubMoves h (on_close i h)
unfolding on_close
on_close-Moves i h =
    let hung_up = record (h.peers i) { socket = record (h.peers i).socket { is_open = false } } in
    HubMoves-trans h (set_peer i hung_up h) (forget i (set_peer i hung_up h))
      (update_peer-Moves h.peers i hung_up (once hangs_up)) (forget-Moves i (set_peer i hung_up h))

pub teardown_ids-Moves : (ids : List ℕ) (h : Hub) → HubMoves h (teardown_ids ids h)
unfolding teardown_ids
teardown_ids-Moves [] h = λ j. no_move
teardown_ids-Moves (i ∷ ids) h =
    HubMoves-trans h (teardown i 1001 server_shutdown h)
      (teardown_ids ids (teardown i 1001 server_shutdown h))
      (teardown-Moves i 1001 server_shutdown h)
      (teardown_ids-Moves ids (teardown i 1001 server_shutdown h))

pub shut_down-Moves : (h : Hub) → HubMoves h (shut_down h)
unfolding shut_down
shut_down-Moves h = teardown_ids-Moves (all_ids h.by_account) h

pub on_dead_timer-Moves : (i : ℕ) (h : Hub) → HubMoves h (on_dead_timer i h)
unfolding on_dead_timer
on_dead_timer-Moves i h = teardown-Moves i close_heartbeat_timeout heartbeat_timeout h

pub on_error-Moves : (i : ℕ) (h : Hub) → HubMoves h (on_error i h)
unfolding on_error
on_error-Moves i h = teardown-Moves i 1011 socket_error h
