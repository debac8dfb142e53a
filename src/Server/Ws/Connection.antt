-- ===== src/Server/Ws/Connection.antt =====
-- A connection of backend/server/src/ws-server.ts, with its socket and its calls that wait at an
-- `await`. A timer is whether it is armed.
use corner_tasks.Prelude.{
  ℕ, Bool, true, false, Option, none, some, List, [], ◌∷◌, ◌++◌, if◌then◌else◌,
}
use corner_tasks.Prelude.Text.{Text}
use corner_tasks.Prelude.Json.{Items}
use corner_tasks.Prelude.Outcome.{Outcome}
use corner_tasks.Core.Types.{QueryEventsResult}
use corner_tasks.Core.Http.{HttpResult}
use corner_tasks.Core.Auth.{TokenVerification}
use corner_tasks.Server.Ws.Frames.{
  ConnState, unauthenticated, draining, live, closed, ServerFrame, CloseReason,
}

pub record Connection : Type 0 where
  pub state : ConnState
  pub account_did : Option Text
  pub token : Option Text
  pub cursor : ℕ
  pub pending : Bool
  pub pumping : Bool
  pub suppress : Option (List Text)
  pub generation : ℕ
  pub auth_timer : Bool
  pub ping_timer : Bool
  pub dead_timer : Bool

abbrev pub new_connection : Connection
new_connection = record {
  state = unauthenticated;
  account_did = none;
  token = none;
  cursor = 0;
  pending = false;
  pumping = false;
  suppress = none;
  generation = 0;
  auth_timer = false;
  ping_timer = false;
  dead_timer = false;
}

-- What the socket was asked to do. `ended` is its close code, or `none` where it was terminated.
pub record Socket : Type 0 where
  pub is_open : Bool
  pub sent : List ServerFrame
  pub ended : List (Option (ℕ × CloseReason))

abbrev pub new_socket : Socket
new_socket = record { is_open = true; sent = []; ended = [] }

-- A verification that `handleAuth` waits for.
pub record AuthWait : Type 0 where
  pub presented : Text
  pub verified : Outcome TokenVerification

-- A read that `pump` waits for, with the local variables of the loop.
pub record ReadWait : Type 0 where
  pub rounds : ℕ
  pub generation : ℕ
  pub suppress : Option (List Text)
  pub account_did : Text
  pub answer : Outcome QueryEventsResult

-- A push that `handlePush` waits for.
pub record PushWait : Type 0 where
  pub push_id : Text
  pub events : Items
  pub account_did : Text
  pub response : Outcome HttpResult

pub record Peer : Type 0 where
  pub conn : Connection
  pub socket : Socket
  pub auths : List AuthWait
  pub reads : List ReadWait
  pub pushes : List PushWait
  -- The callbacks of `setImmediate` that have not run.
  pub immediates : ℕ

-- What a step on a connection ends with: the connection stays, or it is torn down.
pub data Verdict : Type 0 where
  stays : Peer → Verdict
  torn : Peer → ℕ → CloseReason → Verdict

abbrev pub is_closed : ConnState → Bool
is_closed closed = true
is_closed _ = false

-- The states of a connection that has subscribed.
abbrev pub is_subscribed : ConnState → Bool
is_subscribed draining = true
is_subscribed live = true
is_subscribed _ = false

unfoldable pub emit : ServerFrame → Socket → Socket
emit frame s = if s.is_open then record s { sent = s.sent ++ frame ∷ [] } else s

-- `send`
unfoldable pub send_frame : ServerFrame → Peer → Peer
send_frame frame p = record p { socket = emit frame p.socket }

-- The connection's own part of `forget`.
unfoldable pub stop_connection : Connection → Connection
stop_connection c = record c {
  state = closed;
  auth_timer = false;
  ping_timer = false;
  dead_timer = false;
}

-- `touch`: the deadline is armed anew.
unfoldable pub touch : Connection → Connection
touch c = record c { dead_timer = if is_closed c.state then c.dead_timer else true }

-- The socket's part of `teardown`.
unfoldable pub end_socket : ℕ → CloseReason → Socket → Socket
end_socket code reason s = record s {
  is_open = false;
  ended = s.ended ++ (if s.is_open then some (code, reason) else none) ∷ [];
}
