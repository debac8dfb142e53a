-- ===== src/Tests/Sockets.antt =====
-- The theorems about the web client's sockets, at small inputs.
use corner_tasks.Prelude.{ℕ, ◌≡◌, ◌≤◌, refl, true, false, none, some, [], ◌∷◌, In, arith}
use corner_tasks.Prelude.Text.{text_eq, codes}
use corner_tasks.Web.Socket.Client.{new_client, PushEnd, send_push, close_client, connect}
use corner_tasks.Web.Socket.Pushes.{still, and_then, connects, push_never_hangs}
use corner_tasks.Web.Socket.Meta.{MetaResponse, rest_name}
use corner_tasks.Web.Socket.Negotiation.{
  Negotiator, new_negotiator, start, on_meta, lose, Reach, here, next, starts, meta_answers,
  bearer_arrives, on_bearer, loses,
}
use corner_tasks.Web.Socket.Negotiation.Policy.{CapIsBounded}
use corner_tasks.Web.Socket.Negotiation.Reachable.{forbidden, disabled_for_good, backoff_bounded}

abbrev meta : MetaResponse
meta = record {
  protocol_versions = [];
  transports = codes "ws" ∷ rest_name ∷ [];
  ws_url = some (codes "wss://api/v1/sync/ws");
  audience = none;
}

abbrev started : Negotiator
started = start true true (new_negotiator false)

abbrev opening : Negotiator
opening = on_meta true true meta started

abbrev connected : Negotiator
connected = on_bearer true true 0 opening

abbrev refused : Negotiator
refused = lose true true 0 4403 connected

abbrev lost : Negotiator
lost = lose true true 0 1006 connected

connected-Reach : Reach true true (new_negotiator false) connected
unfolding on_meta start text_eq
connected-Reach =
    next (next (next here (starts refl)) (meta_answers meta)) (bearer_arrives 0 (omega arith))

has_socket : (connected.clients 0).has_socket ≡ true
unfolding on_bearer on_meta start text_eq
has_socket = refl

backoff_bounded_example : (lost.backoff_attempt ≤ 5) × CapIsBounded lost.reconnect
backoff_bounded_example =
    backoff_bounded true true false lost (next connected-Reach (loses 0 1006 has_socket))

disabled_for_good_example :
    ((on_meta true true meta refused).ws_disabled ≡ true)
    × ((j : ℕ)
        → ((on_meta true true meta refused).clients j).has_socket ≡ true
        → (refused.clients j).has_socket ≡ true)
unfolding on_bearer on_meta start text_eq
disabled_for_good_example =
    disabled_for_good true true connected refused refused (on_meta true true meta refused)
      (forbidden 0 refl) here (meta_answers meta)

push_never_hangs_example :
    ((how : PushEnd) × In
        (codes "p", how)
        (close_client 1000 (connect (send_push (codes "p") [] new_client))).ended)
    × ((close_client 1000 (connect (send_push (codes "p") [] new_client))).pending ≡ [])
push_never_hangs_example =
    push_never_hangs (codes "p") [] 1000 new_client (connect (send_push (codes "p") [] new_client))
      (and_then still connects)
