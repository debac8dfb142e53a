-- ===== src/Server/Ws/Messages.antt =====
-- `onMessage` of backend/server/src/ws-server.ts and its handlers, each cut at its `await`.
use corner_tasks.Prelude.{
  ℕ, suc, Bool, true, false, Option, none, some, List, [], ◌∷◌, ◌++◌, map, if◌then◌else◌, ◌==◌, leb,
  or_else,
}
use corner_tasks.Prelude.Text.{Text, codes, text_eq}
use corner_tasks.Prelude.Json.{Json, str, arr, obj, Items, nil, cons, end, field, get_field, as_str}
use corner_tasks.Prelude.Outcome.{Outcome, returned, threw}
use corner_tasks.Core.Types.{QueryEventsResult}
use corner_tasks.Core.Cursor.{parse_cursor}
use corner_tasks.Core.Http.{
  HttpEvent, HttpResult, json, bad_token, token_expired, Reason, api_error, push_response,
  ResponseBody, PushReject, RejectReason, invalid_event, other_account,
}
use corner_tasks.Core.Auth.{TokenVerification, granted, refused}
use corner_tasks.Server.Ws.Frames.{
  ConnState, unauthenticated, authenticating, authenticated, draining, live, auth_ok, auth_err,
  push_ack, because, too_many_connections, frame_handling_failed, close_auth_failed,
  close_too_many_connections, refusal_code,
}
use corner_tasks.Server.Ws.Connection.{
  Connection, AuthWait, PushWait, Peer, Verdict, stays, torn, is_closed, send_frame,
}
use corner_tasks.Server.Ws.Pump.{pump}
use corner_tasks.Server.Ws.Hub.{
  Hub, set_for, put_set, add_id, connections_for, update_peer, set_peer, teardown, notify_account,
}

-- What the socket hands over: a binary message, or a text with what `JSON.parse` makes of it.
pub data Inbound : Type 0 where
  binary : Inbound
  text : Option Json → Inbound

-- What a message asks for.
pub data Action : Type 0 where
  ignored : Action
  authenticate : Json → Action
  subscribe : Json → Action
  push_batch : Json → Action
  answer_ping : Json → Action

-- The frames of an authenticated connection.
unfoldable pub act_on_type : Text → Json → Action
act_on_type kind msg =
    if text_eq kind (codes "subscribe")
    then subscribe msg
    else if text_eq kind (codes "push")
    then push_batch msg
    else if text_eq kind (codes "ping")
    then answer_ping msg
    else ignored

unfoldable pub act_in : ConnState → Text → Json → Action
unfolding act_on_type
act_in unauthenticated kind msg = if text_eq kind (codes "auth") then authenticate msg else ignored
act_in authenticating kind msg = ignored
act_in _ kind msg = act_on_type kind msg

unfoldable pub typed_action : ConnState → Option Text → Json → Action
unfolding act_in
typed_action state none msg = ignored
typed_action state (some kind) msg = act_in state kind msg

-- `null` and values that are no objects have no `type`, and are ignored.
unfoldable pub action_of : ConnState → Inbound → Action
unfolding typed_action
action_of state binary = ignored
action_of state (text none) = ignored
action_of state (text (some msg)) =
    if is_closed state
    then ignored
    else typed_action state (as_str (get_field (codes "type") msg)) msg

unfoldable pub begin_auth_with : (Text → Outcome TokenVerification) → Text → Peer → Verdict
begin_auth_with verify [] p =
    torn
      (send_frame (auth_err bad_token)
        (record p { conn = record p.conn { state = authenticating } }))
      close_auth_failed (because bad_token)
begin_auth_with verify (c ∷ token) p = stays (record p {
  conn = record p.conn { state = authenticating };
  auths = record { presented = c ∷ token; verified = verify (c ∷ token) } ∷ p.auths;
})

-- `handleAuth` up to its `await`; a token that is no text is empty.
unfoldable pub begin_auth : (Text → Outcome TokenVerification) → Json → Peer → Verdict
unfolding begin_auth_with
begin_auth verify msg p =
    begin_auth_with verify (or_else (as_str (get_field (codes "token") msg)) []) p

unfoldable pub bound_to : Text → Text → Connection → Connection
bound_to a token c = record c {
  auth_timer = false;
  account_did = some a;
  token = some token;
  state = authenticated;
}

-- `handleAuth` after its `await`, on the connection `p` in the place `i`: the account of a good token has
-- room for one more connection, or not.
unfoldable pub admit : ℕ → ℕ → Text → Text → Peer → Hub → Hub
unfolding put_set add_id set_for bound_to
admit max i a token p h =
    if leb max (connections_for a h.by_account)
    then teardown i close_too_many_connections too_many_connections (set_peer i p h)
    else record h {
      peers =
          update_peer h.peers i
            (send_frame (auth_ok a) (record p { conn = bound_to a token p.conn }));
      by_account = put_set a (add_id i (or_else (set_for a h.by_account) [])) h.by_account;
    }

unfoldable pub finish_auth : ℕ → ℕ → Text → TokenVerification → Peer → Hub → Hub
unfolding admit
finish_auth max i token (granted a) p h = admit max i a token p h
finish_auth max i token (refused reason) p h =
    teardown i (refusal_code reason) (because reason)
      (set_peer i (send_frame (auth_err reason) p) h)

unfoldable pub auth_result : ℕ → ℕ → Text → Outcome TokenVerification → Peer → Hub → Hub
unfolding finish_auth
auth_result max i token threw p h = teardown i 1011 frame_handling_failed (set_peer i p h)
auth_result max i token (returned result) p h =
    if is_closed p.conn.state then set_peer i p h else finish_auth max i token result p h

-- `rest` are the other verifications that wait.
unfoldable pub resume_auth : ℕ → ℕ → AuthWait → List AuthWait → Hub → Hub
unfolding auth_result
resume_auth max i call rest h =
    auth_result max i call.presented call.verified (record (h.peers i) { auths = rest }) h

unfoldable pub subscribed_at : Json → Connection → Connection
subscribed_at msg c = record c {
  cursor = parse_cursor (some (or_else (as_str (get_field (codes "cursor") msg)) (codes "0")));
  suppress = none;
  state = draining;
  generation = suc c.generation;
  pending = true;
}

-- `handleSubscribe`
abbrev pub can_subscribe : ConnState → Bool
can_subscribe authenticated = true
can_subscribe live = true
can_subscribe _ = false

unfoldable pub handle_subscribe : (Text → Text → Outcome QueryEventsResult) → Json → Peer → Peer
unfolding subscribed_at
handle_subscribe ask msg p =
    if can_subscribe p.conn.state
    then pump ask (record p { conn = subscribed_at msg p.conn })
    else p

-- `Array.isArray(msg.events) ? msg.events : []`
abbrev pub batch_of : Option Json → Items
batch_of (some (arr items)) = items
batch_of _ = nil

abbrev pub or_null : Option Text → Text
or_null t = or_else t (codes "null")

-- The request that `handlePush` makes of a frame.
unfoldable pub rest_event : Text → Text → Items → Connection → HttpEvent
rest_event domain_name stage events c = record {
  headers = (codes "authorization", codes "Bearer " ++ or_null c.token) ∷ [];
  query = [];
  body = json (
      obj (
        field (codes "accountDid") (str (or_null c.account_did))
          (field (codes "events") (arr events) end)));
  domain_name = domain_name;
  stage = stage;
  method = codes "POST";
  path = codes "/v1/sync/push";
}

unfoldable pub begin_push : Text → Items → Outcome HttpResult → Peer → Peer
begin_push push_id events response p = record p {
  pushes =
      record {
        push_id = push_id;
        events = events;
        account_did = or_null p.conn.account_did;
        response = response;
      }
      ∷ p.pushes;
}

-- `eventIdsOf`
unfoldable pub event_ids_of : Items → List Text
event_ids_of nil = []
event_ids_of (cons ev rest) = elim (as_str (get_field (codes "eventId") ev)) [
  | none ↦ event_ids_of rest
  | some id ↦ id ∷ event_ids_of rest
]

-- `readReason`
abbrev pub read_reason : ResponseBody → Option Reason
read_reason (api_error kind reason) = some reason
read_reason _ = none

abbrev pub rejection : RejectReason → Text → PushReject
rejection reason id = record { event_id = id; reason = reason }

-- The whole batch is rejected.
unfoldable pub rejected_all : ℕ → Items → List PushReject
unfolding event_ids_of
rejected_all status events =
    map (rejection (if status == 403 then other_account else invalid_event)) (event_ids_of events)

abbrev pub accepted_of : ResponseBody → List Text
accepted_of (push_response accepted rejected) = accepted
accepted_of _ = []

abbrev pub rejected_of : ResponseBody → List PushReject
rejected_of (push_response accepted rejected) = rejected
rejected_of _ = []

-- `handlePush` after its `await`
unfoldable pub acknowledge :
    (Text → Text → Outcome QueryEventsResult) → ℕ → PushWait → HttpResult → Hub → Hub
unfolding rejected_all
acknowledge ask i call result h =
    if result.status == 401
    then teardown i close_auth_failed (because (or_else (read_reason result.body) token_expired)) (
        set_peer i
          (send_frame (auth_err (or_else (read_reason result.body) token_expired)) (h.peers i)) h)
    else if result.status == 200
    then notify_account ask call.account_did (some (i, accepted_of result.body)) (
        set_peer i
          (send_frame (push_ack call.push_id (accepted_of result.body) (rejected_of result.body))
            (h.peers i))
          h)
    else set_peer i
        (send_frame (push_ack call.push_id [] (rejected_all result.status call.events)) (h.peers i))
        h

unfoldable pub push_result :
    (Text → Text → Outcome QueryEventsResult) → ℕ → PushWait → Outcome HttpResult → Hub → Hub
unfolding acknowledge
push_result ask i call threw h = teardown i 1011 frame_handling_failed h
push_result ask i call (returned result) h =
    if is_closed (h.peers i).conn.state then h else acknowledge ask i call result h

unfoldable pub resume_push : (Text → Text → Outcome QueryEventsResult) → ℕ → PushWait → Hub → Hub
unfolding push_result
resume_push ask i call h = push_result ask i call call.response h
