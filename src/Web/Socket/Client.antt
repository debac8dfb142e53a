-- ===== src/Web/Socket/Client.antt =====
-- apps/web/src/sync/WebSocketTransport.ts: one connection and its frames. A message is what `JSON.parse`
-- makes of its text; `events` and the lists of a `push_ack` are read as the protocol has them.
use corner_tasks.Prelude.{
  ℕ, Bool, true, false, not, Option, List, [], ◌∷◌, ◌++◌, map, filter, if◌then◌else◌,
}
use corner_tasks.Prelude.Text.{Text, text_eq}
use corner_tasks.Prelude.Json.{Json}
use corner_tasks.Core.Types.{SyncEvent}
use corner_tasks.Web.Session.{PushResponse}

pub data ClientFrame : Type 0 where
  auth : Text → ClientFrame
  subscribe : Text → ClientFrame
  push_frame : Text → List SyncEvent → ClientFrame
  pong : Option Json → ClientFrame

-- The messages of the server that are acted on; all others are `unknown_message`.
pub data Message : Type 0 where
  auth_ok : Message
  auth_err : Text → Message
  events : List SyncEvent → Text → Message
  live : Message
  push_ack : Text → PushResponse → Message
  ping : Option Json → Message
  unknown_message : Message

-- What becomes of a push's promise.
pub data PushEnd : Type 0 where
  resolved : PushResponse → PushEnd
  timed_out socket_closed : PushEnd

-- `pendingPushes` as the ids that wait; `ended` are the promises that are settled. Neither the socket nor
-- a timer is more than whether it is there.
pub record SocketClient : Type 0 where
  pub has_socket : Bool
  pub heartbeat : Bool
  pub pending : List Text
  pub ended : List (Text × PushEnd)
  pub sent : List ClientFrame
  pub closed_with : List ℕ

abbrev pub new_client : SocketClient
new_client = record {
  has_socket = false;
  heartbeat = false;
  pending = [];
  ended = [];
  sent = [];
  closed_with = [];
}

-- `send`
unfoldable pub transmit : ClientFrame → SocketClient → SocketClient
transmit f c = record c { sent = if c.has_socket then c.sent ++ f ∷ [] else c.sent }

unfoldable pub connect : SocketClient → SocketClient
connect c = record c { has_socket = true }

-- The callback of `onopen`
unfoldable pub on_open : Text → SocketClient → SocketClient
unfolding transmit
on_open token c = transmit (auth token) (record c { heartbeat = true })

unfoldable pub without : Text → List Text → List Text
unfolding filter
without id ids = filter (λ j. not (text_eq j id)) ids

unfoldable pub is_waiting_push : Text → List Text → Bool
is_waiting_push id [] = false
is_waiting_push id (j ∷ ids) =
    let rest = is_waiting_push id ids in if text_eq j id then true else rest

-- `push` with its new id
unfoldable pub send_push : Text → List SyncEvent → SocketClient → SocketClient
unfolding transmit
send_push id evs c = transmit (push_frame id evs) (record c { pending = id ∷ c.pending })

unfoldable pub end_push : Text → PushEnd → SocketClient → SocketClient
unfolding without
end_push id how c = record c { pending = without id c.pending; ended = (id, how) ∷ c.ended }

-- The callback of a push's timer, which is cleared with every other end.
unfoldable pub on_push_timeout : Text → SocketClient → SocketClient
unfolding end_push is_waiting_push
on_push_timeout id c = if is_waiting_push id c.pending then end_push id timed_out c else c

abbrev pub closed_push : Text → Text × PushEnd
closed_push id = (id, socket_closed)

-- `failAllPendingPushes`
unfoldable pub fail_all_pending : SocketClient → SocketClient
fail_all_pending c = record c { pending = []; ended = map closed_push c.pending ++ c.ended }

-- `teardown` but for the call of `onClose`
unfoldable pub close_client : ℕ → SocketClient → SocketClient
unfolding fail_all_pending
close_client code c =
    let failed = fail_all_pending c in
    record failed {
      heartbeat = false;
      has_socket = false;
      closed_with = if c.has_socket then code ∷ c.closed_with else c.closed_with;
    }

-- `handleMessage` but for the calls of the handlers
unfoldable pub handle_message : Message → SocketClient → SocketClient
unfolding end_push is_waiting_push transmit
handle_message (push_ack id response) c =
    let alive = record c { heartbeat = true } in
    if is_waiting_push id c.pending then end_push id (resolved response) alive else alive
handle_message (ping t) c = transmit (pong t) (record c { heartbeat = true })
handle_message _ c = record c { heartbeat = true }
