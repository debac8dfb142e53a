-- ===== src/Web/Socket/Pushes.antt =====
-- The pushes of apps/web/src/sync/WebSocketTransport.ts: none is forgotten.
use corner_tasks.Prelude.{
  ℕ, ◌≡◌, ◌⊎◌, inl, inr, refl, ap, true, not, List, [], map, In, map-In, filter-In, Bool-cases,
  branches,
}
use corner_tasks.Prelude.Text.{Text, text_eq, text_eq_iff}
use corner_tasks.Core.Types.{SyncEvent}
use corner_tasks.Core.Handlers.Push.Report.{In-append_left, In-append_right}
use corner_tasks.Web.Socket.Client.{
  SocketClient, Message, push_ack, ping, PushEnd, resolved, socket_closed, timed_out, connect,
  on_open, transmit, without, is_waiting_push, send_push, end_push, on_push_timeout, closed_push,
  fail_all_pending, close_client, handle_message,
}

-- The push waits, or its promise has been settled.
abbrev pub Tracked : Text → SocketClient → Type 0
Tracked id c = In id c.pending ⊎ ((how : PushEnd) × In (id, how) c.ended)

-- What happens to a client, one thing at a time.
pub data ClientMove (c : SocketClient) : SocketClient → Type 0 where
  connects : ClientMove c (connect c)
  opens : (token : Text) → ClientMove c (on_open token c)
  sends : (id : Text) (evs : List SyncEvent) → ClientMove c (send_push id evs c)
  times_out : (id : Text) → ClientMove c (on_push_timeout id c)
  hears : (msg : Message) → ClientMove c (handle_message msg c)
  closes : (code : ℕ) → ClientMove c (close_client code c)

pub data ClientMoves (c : SocketClient) : SocketClient → Type 0 where
  still : ClientMoves c c
  and_then : {d e : SocketClient} → ClientMoves c d → ClientMove d e → ClientMoves c e

without-In : (id x : Text) (ids : List Text) → In id ids → In id (without x ids) ⊎ (id ≡ x)
unfolding without
without-In id x ids m = elim (Bool-cases (text_eq id x)) [
  | inl same ↦ inr ((text_eq_iff id x).0 same)
  | inr other ↦ inl (filter-In (λ j. not (text_eq j x)) id ids m (ap not other))
]

end_push-Tracked :
    (id x : Text) (how : PushEnd) (c : SocketClient) → Tracked id c → Tracked id (end_push x how c)
unfolding end_push
end_push-Tracked id x how c (inl m) = elim (without-In id x c.pending m) [
  | inl there ↦ inl there
  | inr same ↦ inr (how, inl (ap (λ t. (t, how)) same))
]
end_push-Tracked id x how c (inr (before, m)) = inr (before, inr m)

handle_message-Tracked :
    (id : Text) (msg : Message) (c : SocketClient)
    → Tracked id c
    → Tracked id (handle_message msg c)
unfolding handle_message transmit
handle_message-Tracked id (push_ack x response) c t =
    branches (Tracked id) (is_waiting_push x c.pending) _ _
      (λ _. end_push-Tracked id x (resolved response) (record c { heartbeat = true }) t) (λ _. t)
handle_message-Tracked id (ping at) c t = t
handle_message-Tracked id _ c t = t

close_client-ends :
    (id : Text) (code : ℕ) (c : SocketClient)
    → Tracked id c
    → (how : PushEnd) × In (id, how) (close_client code c).ended
unfolding close_client fail_all_pending
close_client-ends id code c (inl m) = (
  socket_closed,
  In-append_left _ (map closed_push c.pending) c.ended (map-In closed_push id c.pending m),
)
close_client-ends id code c (inr (how, m)) =
    (how, In-append_right _ (map closed_push c.pending) c.ended m)

ClientMove-Tracked : {c d : SocketClient} (id : Text) → Tracked id c → ClientMove c d → Tracked id d
unfolding connect on_open transmit send_push on_push_timeout
ClientMove-Tracked id t connects = t
ClientMove-Tracked id t (opens token) = t
ClientMove-Tracked id (inl m) (sends x evs) = inl (inr m)
ClientMove-Tracked id (inr e) (sends x evs) = inr e
ClientMove-Tracked {c} id t (times_out x) =
    branches (Tracked id) (is_waiting_push x c.pending) _ _
      (λ _. end_push-Tracked id x timed_out c t) (λ _. t)
ClientMove-Tracked {c} id t (hears msg) = handle_message-Tracked id msg c t
ClientMove-Tracked {c} id t (closes code) = inr (close_client-ends id code c t)

ClientMoves-Tracked :
    {c d : SocketClient} (id : Text) → Tracked id c → ClientMoves c d → Tracked id d
ClientMoves-Tracked id t still = t
ClientMoves-Tracked id t (and_then before move) =
    ClientMove-Tracked id (ClientMoves-Tracked id t before) move

-- A push is sent, anything happens to the client, and then it is closed: the promise of the push is settled,
-- and no push waits any more.
pub push_never_hangs :
    (id : Text) (evs : List SyncEvent) (code : ℕ) (c d : SocketClient)
    → ClientMoves (send_push id evs c) d
    → ((how : PushEnd) × In (id, how) (close_client code d).ended)
      × ((close_client code d).pending ≡ [])
unfolding close_client fail_all_pending send_push transmit
push_never_hangs id evs code c d moves =
    (close_client-ends id code d (ClientMoves-Tracked id (inl (inl refl)) moves), refl)
