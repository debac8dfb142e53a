-- ===== src/Tests/Hub.antt =====
-- The theorems about the WebSocket hub, at a run in which one device gets one event.
use corner_tasks.Core.Schema.{
  is_base64url, all_units, is_did_key, op_of, read_event, read_push_request,
}
use corner_tasks.Core.Http.{lookup}
use corner_tasks.Core.Handlers.Push.{push_loop, has_seen, push}
use corner_tasks.Core.Jwt.{verify_ed_dsa, read_header, decode_jwt}
use corner_tasks.Prelude.{
  ◌≤◌, false, ◌≡◌, ◌⊎◌, ◌<◌, arith, In, inl, inr, refl, true, none, some, [], ◌∷◌, ◌++◌, map,
}
use corner_tasks.Prelude.Text.{text_drop, trim, to_lower, starts_with, split, text_eq, codes}
use corner_tasks.Prelude.Json.{field_of, Json, str, obj, field, end}
use corner_tasks.Prelude.Outcome.{returned}
use corner_tasks.Core.Sqlite.Seq.{IsWellFormed, create_schema-IsWellFormed, put_event-IsWellFormed}
use corner_tasks.Core.Types.{StoredEvent, QueryEventsResult, to_wire_event}
use corner_tasks.Core.Cursor.{double_of, parse_cursor, print_cursor}
use corner_tasks.Core.Auth.{assert_subject_matches, require_bearer, verify_bearer_token, granted}
use corner_tasks.Core.Sqlite.Rows.{
  bump_counter, Db, create_schema, query_after, get_event, upsert_event, counter,
}
use corner_tasks.Core.Sqlite.Methods.{prune_expired_archives, put_event, query_events_after}
use corner_tasks.Server.Ws.Frames.{ServerFrame, events_frame}
use corner_tasks.Server.Ws.Connection.{is_subscribed, emit, send_frame, AuthWait, ReadWait}
use corner_tasks.Server.Ws.Pump.{event_frames, pump, outgoing, deliver}
use corner_tasks.Server.Ws.Pump.Chunks.{frames_of, frames_lose_nothing, carried-deliver}
use corner_tasks.Server.Ws.Pump.Covered.{Covered, carried}
use corner_tasks.Server.Ws.Hub.{
  connections_for, put_set, set_for, notify_account, conclude, on_connection, new_peer,
}
use corner_tasks.Server.Ws.Messages.{text, resume_auth}
use corner_tasks.Server.Ws.System.{
  System, Options, on_message, answer_read, connects, receives, auth_answered, read_answered,
  pushed_over_http, rest_push, initial, Reach, start, later,
}
use corner_tasks.Server.Ws.Reachable.{fan_out_isolated, nothing_stranded}
use corner_tasks.Server.Ws.Identity.{identity_fixed}
use corner_tasks.Web.Session.{World, failed, network}
use corner_tasks.Web.Socket.Negotiation.{new_negotiator}
use corner_tasks.Web.Socket.Negotiation.Transport.{pull_events}
use corner_tasks.Web.Socket.Drain.{receive, HandsOver, socket_pull_loses_nothing}
use corner_tasks.Server.Ws.Registry.{IsCapped}
use corner_tasks.Server.Ws.Registry.Steps.{cap_respected}
use corner_tasks.Tests.Fixtures.{alice, iso, config, monday, push_event}

abbrev opts : Options
opts = record {
  max_connections = 8;
  chunk_size = 200;
  domain_name = codes "api";
  stage = codes "v1";
}

abbrev stored : Db
stored = (put_event monday create_schema).0

abbrev auth_frame : Json
auth_frame =
    obj
      (field (codes "type") (str (codes "auth")) (field (codes "token") (str (codes "h.b.s")) end))

abbrev subscribe_frame : Json
subscribe_frame =
    obj (
      field (codes "type") (str (codes "subscribe")) (field (codes "cursor") (str (codes "0")) end))

abbrev connected : System
connected = record (initial config opts stored) {
  hub = on_connection (initial config opts stored).hub;
}

abbrev asked : System
asked = on_message config opts (some 1000) 1000 0 (text (some auth_frame)) connected

abbrev auth_call : AuthWait
auth_call = record { presented = codes "h.b.s"; verified = returned (granted alice) }

abbrev bound : System
bound = record asked { hub = resume_auth 8 0 auth_call [] asked.hub }

abbrev reading : System
reading = on_message config opts (some 1000) 1000 0 (text (some subscribe_frame)) bound

abbrev read_call : ReadWait
read_call = record {
  rounds = 1;
  generation = 1;
  suppress = none;
  account_did = alice;
  answer = returned (query_events_after iso 1000 alice (codes "0") stored);
}

abbrev drained : System
drained = answer_read config opts (some 1000) 0 read_call [] reading

asked-auths : (asked.hub.peers 0).auths ≡ auth_call ∷ []
unfolding on_message on_connection field_of text_eq conclude verify_bearer_token decode_jwt split
    read_header verify_ed_dsa starts_with
asked-auths = refl

reading-reads : (reading.hub.peers 0).reads ≡ read_call ∷ []
unfolding on_message resume_auth on_connection field_of text_eq conclude send_frame pump
    print_cursor parse_cursor double_of
reading-reads = refl

connected-Reach : Reach config opts stored connected
connected-Reach = later start connects

asked-accepted : asked.hub.accepted ≡ 1
unfolding on_message on_connection field_of text_eq conclude
asked-accepted = refl

bound-accepted : bound.hub.accepted ≡ 1
unfolding resume_auth on_message on_connection field_of text_eq conclude
bound-accepted = refl

bound-Reach : Reach config opts stored bound
unfolding on_connection
bound-Reach =
    later
      (later connected-Reach (receives (some 1000) 1000 0 (text (some auth_frame)) (omega arith)))
      (auth_answered 0 [] [] auth_call asked-auths)

reading-Reach : Reach config opts stored reading
reading-Reach =
    later bound-Reach
      (receives (some 1000) 1000 0 (text (some subscribe_frame)) (omega (arith, bound-accepted)))

drained-Reach : Reach config opts stored drained
drained-Reach = later reading-Reach (read_answered (some 1000) 0 [] [] read_call reading-reads)

drained-sent :
    In (events_frame (to_wire_event monday ∷ []) (codes "1")) (drained.hub.peers 0).socket.sent
unfolding answer_read on_message resume_auth on_connection field_of text_eq send_frame pump
    query_events_after query_after put_event get_event create_schema upsert_event parse_cursor
    counter emit deliver print_cursor double_of
drained-sent = inr (inl refl)

fan_out_isolated_example : (drained.hub.peers 0).conn.account_did ≡ some alice
fan_out_isolated_example =
    fan_out_isolated config opts stored drained 0
      (events_frame (to_wire_event monday ∷ []) (codes "1")) (to_wire_event monday) drained-Reach
      drained-sent (inl refl)

-- The read that waits has been notified of more.
abbrev notified : System
notified = rest_push config opts (some 1000) 1000 push_event reading

notified-Reach : Reach config opts stored notified
notified-Reach = later reading-Reach (pushed_over_http (some 1000) 1000 push_event)

notified-pending : (notified.hub.peers 0).conn.pending ≡ true
unfolding rest_push push require_bearer lookup text_eq starts_with to_lower verify_bearer_token
    decode_jwt split trim text_drop read_header field_of verify_ed_dsa read_push_request
    assert_subject_matches read_event op_of is_did_key all_units is_base64url has_seen push_loop
    put_event get_event notify_account on_message resume_auth on_connection conclude send_frame pump
    parse_cursor create_schema upsert_event counter set_for put_set prune_expired_archives
notified-pending = refl

notified-subscribed : is_subscribed (notified.hub.peers 0).conn.state ≡ true
unfolding rest_push push require_bearer lookup text_eq starts_with to_lower verify_bearer_token
    decode_jwt split trim text_drop read_header field_of verify_ed_dsa read_push_request
    assert_subject_matches read_event op_of is_did_key all_units is_base64url has_seen push_loop
    put_event get_event notify_account on_message resume_auth on_connection conclude send_frame pump
    parse_cursor create_schema upsert_event counter set_for put_set prune_expired_archives
notified-subscribed = refl

nothing_stranded_example :
    ((call : ReadWait) × ((notified.hub.peers 0).reads ≡ call ∷ []))
    ⊎ (0 < (notified.hub.peers 0).immediates)
nothing_stranded_example =
    nothing_stranded config opts stored notified 0 notified-Reach notified-pending
      notified-subscribed

bound-account : (bound.hub.peers 0).conn.account_did ≡ some alice
unfolding resume_auth on_message on_connection field_of text_eq conclude send_frame
bound-account = refl

bound-there : 0 < bound.hub.accepted
bound-there = omega (arith, bound-accepted)

identity_fixed_example : (reading.hub.peers 0).conn.account_did ≡ some alice
identity_fixed_example =
    identity_fixed config opts stored bound reading 0 alice bound-Reach
      (receives (some 1000) 1000 0 (text (some subscribe_frame)) bound-there) bound-there
      bound-account

-- Two events of two tasks, sent in chunks of one.
abbrev errand : StoredEvent
errand = record monday {
  event = record monday.event { task_id = codes "errand"; event_id = codes "e3" };
}

abbrev two_tasks : Db
two_tasks = (put_event errand stored).0

abbrev answer : QueryEventsResult
answer = query_events_after iso 1000 alice (print_cursor 0) two_tasks

two_tasks-IsWellFormed : IsWellFormed two_tasks
two_tasks-IsWellFormed =
    put_event-IsWellFormed errand stored
      (put_event-IsWellFormed monday create_schema create_schema-IsWellFormed)

abbrev first_frame : ServerFrame
first_frame = events_frame (to_wire_event monday ∷ []) (codes "1")

abbrev second_frame : ServerFrame
second_frame = events_frame (to_wire_event errand ∷ []) (codes "2")

abbrev errand_read : StoredEvent
errand_read = record errand { seq = some 2 }

two_frames : frames_of 1 0 none answer ≡ [] ++ first_frame ∷ second_frame ∷ []
unfolding event_frames outgoing query_events_after query_after put_event get_event create_schema
    upsert_event text_eq parse_cursor double_of print_cursor counter bump_counter
two_frames = refl

errand-out : In errand_read (outgoing none answer.events)
unfolding outgoing query_events_after query_after put_event get_event create_schema upsert_event
    text_eq parse_cursor double_of print_cursor counter bump_counter
errand-out = inr (inl refl)

frames_lose_nothing_example : Covered [] first_frame errand_read
frames_lose_nothing_example =
    frames_lose_nothing iso 1000 1 0 alice two_tasks none [] first_frame (second_frame ∷ [])
      errand_read two_tasks-IsWellFormed two_frames errand-out

carried-deliver_example :
    carried (deliver 1 none answer new_peer).socket.sent
    ≡ carried new_peer.socket.sent ++ map to_wire_event (outgoing none answer.events)
carried-deliver_example = carried-deliver 1 none answer new_peer (omega arith) refl

-- A network on which every call fails.
abbrev offline : World Unit
offline = record {
  now = λ n. (0, n);
  commits = λ n. (false, n);
  challenge = λ _ n. (failed (network (codes "offline")), n);
  token = λ _ _ n. (failed (network (codes "offline")), n);
  push = λ _ _ _ n. (failed (network (codes "offline")), n);
  pull = λ _ _ _ n. (failed (network (codes "offline")), n);
}

socket_pull_loses_nothing_example :
    HandsOver
      (pull_events offline alice
        (codes "0")
        (codes "b")
        (receive ([] ++ first_frame ∷ []) (new_negotiator false))
        tt).0
      errand_read
socket_pull_loses_nothing_example =
    socket_pull_loses_nothing offline iso 1000 1 0 alice two_tasks none [] first_frame
      (second_frame ∷ []) errand_read alice (codes "0") (codes "b") (new_negotiator false) tt
      two_tasks-IsWellFormed two_frames errand-out refl refl

cap_respected_example :
    (connections_for alice bound.hub.by_account ≤ 8) × IsCapped 8 bound.hub.by_account
cap_respected_example = cap_respected config opts stored bound alice bound-Reach
