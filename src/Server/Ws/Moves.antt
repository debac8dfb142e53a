-- ===== src/Server/Ws/Moves.antt =====
-- What the steps of the hub of backend/server/src/ws-server.ts do to one connection.
pub mod Validity
pub mod Hubs
pub mod Answers
pub mod Soundness
pub mod Systems
use corner_tasks.Prelude.{ℕ, suc, ◌≡◌, Bool, true, false, Option, none, some, List, [], ◌∷◌, ◌++◌}
use corner_tasks.Prelude.Text.{Text}
use corner_tasks.Prelude.Json.{Json, Items}
use corner_tasks.Prelude.Outcome.{Outcome, returned, threw}
use corner_tasks.Core.Types.{QueryEventsResult}
use corner_tasks.Core.Http.{HttpResult}
use corner_tasks.Server.Ws.Frames.{
  ConnState, unauthenticated, authenticating, ServerFrame, CloseReason,
}
use corner_tasks.Server.Ws.Connection.{
  AuthWait, ReadWait, PushWait, Peer, is_closed, is_subscribed, send_frame, stop_connection, touch,
  end_socket,
}
use corner_tasks.Server.Ws.Pump.{pump, read_on, finish_pump}
use corner_tasks.Server.Ws.Pump.Covered.{frame_events}
use corner_tasks.Server.Ws.Pump.Soundness.{Honest}
use corner_tasks.Server.Ws.Hub.{withheld}
use corner_tasks.Server.Ws.Messages.{bound_to, can_subscribe, subscribed_at, begin_push}

pub data Move (p : Peer) : Peer → Type 0 where
  says : (f : ServerFrame) → frame_events f ≡ [] → Move p (send_frame f p)
  stops : Move p (record p { conn = stop_connection p.conn })
  ends :
      (code : ℕ) (reason : CloseReason)
      → Move p (record p { socket = end_socket code reason p.socket })
  hangs_up : Move p (record p { socket = record p.socket { is_open = false } })
  touches : Move p (record p { conn = touch p.conn })
  asks :
      p.conn.state ≡ unauthenticated
      → Move p (record p { conn = record p.conn { state = authenticating } })
  verifies :
      (call : AuthWait)
      → p.conn.state ≡ unauthenticated
      → Move p
          (record p { conn = record p.conn { state = authenticating }; auths = call ∷ p.auths })
  drops_auth :
      (before after : List AuthWait) (call : AuthWait)
      → p.auths ≡ before ++ call ∷ after
      → Move p (record p { auths = before ++ after })
  binds :
      (a token : Text) (before after : List AuthWait) (call : AuthWait)
      → p.auths ≡ before ++ call ∷ after
      → is_closed p.conn.state ≡ false
      → Move p (record p { conn = bound_to a token p.conn; auths = before ++ after })
  subscribes :
      (ask : Text → Text → Outcome QueryEventsResult) (msg : Json)
      → Honest ask
      → can_subscribe p.conn.state ≡ true
      → Move p (pump ask (record p { conn = subscribed_at msg p.conn }))
  hears :
      (ask : Text → Text → Outcome QueryEventsResult) (origin : Option (ℕ × List Text)) (i : ℕ)
      → Honest ask
      → is_subscribed p.conn.state ≡ true
      → Move p (
          pump ask (record p {
            conn = record p.conn { suppress = withheld origin i p.conn.suppress; pending = true };
          }))
  reads_on :
      (ask : Text → Text → Outcome QueryEventsResult) (size : ℕ) (before after : List ReadWait)
      (call : ReadWait) (result : QueryEventsResult)
      → Honest ask
      → p.reads ≡ before ++ call ∷ after
      → call.answer ≡ returned result
      → Move p (read_on ask size call result (record p { reads = before ++ after }))
  fails :
      (before after : List ReadWait) (call : ReadWait)
      → p.reads ≡ before ++ call ∷ after
      → Move p (record (finish_pump (record p { reads = before ++ after })) {
        conn = stop_connection (finish_pump p).conn;
      })
  returns :
      (ask : Text → Text → Outcome QueryEventsResult) (left : ℕ)
      → Honest ask
      → p.immediates ≡ suc left
      → Move p (pump ask (record p { immediates = left }))
  pushes :
      (push_id : Text) (events : Items) (response : Outcome HttpResult)
      → Move p (begin_push push_id events response p)
  drops_push : (rest : List PushWait) → Move p (record p { pushes = rest })

pub data Moves (p : Peer) : Peer → Type 0 where
  no_move : Moves p p
  then_move : {q r : Peer} → Moves p q → Move q r → Moves p r
