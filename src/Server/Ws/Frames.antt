-- ===== src/Server/Ws/Frames.antt =====
-- The constants and the frames of backend/server/src/ws-server.ts. The frames that come in are JSON
-- values; those that go out are one constructor for each `type`.
use corner_tasks.Prelude.{ℕ, Option, List}
use corner_tasks.Prelude.Text.{Text}
use corner_tasks.Prelude.Json.{Json}
use corner_tasks.Core.Types.{SyncEvent}
use corner_tasks.Core.Http.{Reason, bad_audience, PushReject}

abbrev pub max_connections_per_account : ℕ
max_connections_per_account = 8

abbrev pub events_chunk_size : ℕ
events_chunk_size = 200

abbrev pub max_pump_rounds : ℕ
max_pump_rounds = 64

abbrev pub close_auth_failed : ℕ
close_auth_failed = 4401

abbrev pub close_audience_mismatch : ℕ
close_audience_mismatch = 4403

abbrev pub close_heartbeat_timeout : ℕ
close_heartbeat_timeout = 4408

abbrev pub close_too_many_connections : ℕ
close_too_many_connections = 4429

pub data ConnState : Type 0 where
  unauthenticated authenticating authenticated draining live closed : ConnState

pub data ServerFrame : Type 0 where
  auth_ok : Text → ServerFrame
  auth_err : Reason → ServerFrame
  events_frame : List SyncEvent → Text → ServerFrame
  live_frame : Text → ServerFrame
  push_ack : Text → List Text → List PushReject → ServerFrame
  ping_frame : ℕ → ServerFrame
  pong_frame : Option Json → ServerFrame

-- The text that a socket is closed with.
pub data CloseReason : Type 0 where
  because : Reason → CloseReason
  auth_timeout heartbeat_timeout too_many_connections drain_failed : CloseReason
  frame_handling_failed socket_error server_shutdown : CloseReason

-- The close code of a refused token.
unfoldable pub refusal_code : Reason → ℕ
refusal_code bad_audience = close_audience_mismatch
refusal_code _ = close_auth_failed
