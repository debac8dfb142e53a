-- ===== src/Server/Ws/Pump/Soundness.antt =====
-- What holds of a connection of backend/server/src/ws-server.ts whatever it has been through, and what is sent to it.
use corner_tasks.Prelude.{
  ◌<◌, ◌≡◌, ◌⊎◌, inl, inr, refl, ap, ◌∙◌, subst, Bool, true, false, Option, none, some, List, [],
  ◌∷◌, In, In-append_cases, Bool-cases, is_some,
}
use corner_tasks.Prelude.Text.{Text}
use corner_tasks.Prelude.Outcome.{Outcome, returned}
use corner_tasks.Core.Cursor.{print_cursor}
use corner_tasks.Core.Types.{SyncEvent, StoredEvent, QueryEventsResult}
use corner_tasks.Server.Ws.Frames.{
  ConnState, unauthenticated, authenticating, draining, live, closed, ServerFrame, live_frame,
}
use corner_tasks.Server.Ws.Connection.{
  Socket, AuthWait, ReadWait, Peer, is_closed, is_subscribed, emit, send_frame,
}
use corner_tasks.Server.Ws.Pump.{go_live_from, go_live, rest_pump, finish_pump}
use corner_tasks.Server.Ws.Pump.Covered.{frame_events}

-- The states before a token has been accepted.
abbrev pub is_anonymous : ConnState → Bool
is_anonymous unauthenticated = true
is_anonymous authenticating = true
is_anonymous _ = false

abbrev pub OwnedBy : Text → List StoredEvent → Type 0
OwnedBy a evs = (s : StoredEvent) → In s evs → s.account_did ≡ a

-- The store answers with the events of the account that it is asked for.
abbrev pub Honest : (Text → Text → Outcome QueryEventsResult) → Type 0
Honest ask =
    (a cursor : Text) (result : QueryEventsResult)
    → ask a cursor ≡ returned result
    → OwnedBy a result.events

-- A read that waits is one of the connection's account, and its answer has that account's events.
abbrev pub IsOwn : Option Text → ReadWait → Type 0
IsOwn account call =
    (account ≡ some call.account_did)
    × ((result : QueryEventsResult)
        → call.answer ≡ returned result
        → OwnedBy call.account_did result.events)

-- Every event that the socket was sent is one of the account.
abbrev pub IsPrivate : Option Text → List ServerFrame → Type 0
IsPrivate account sent =
    (f : ServerFrame) (w : SyncEvent)
    → In f sent
    → In w (frame_events f)
    → account ≡ some w.account_did

pub record Sound (p : Peer) : Type 0 where
  pub anonymous : is_anonymous p.conn.state ≡ true → p.conn.account_did ≡ none
  pub idle : is_anonymous p.conn.state ≡ true → p.conn.pending ≡ false
  pub named :
      is_anonymous p.conn.state ≡ false
      → is_closed p.conn.state ≡ false
      → is_some p.conn.account_did ≡ true
  pub waiting :
      (call : AuthWait)
      → In call p.auths
      → (p.conn.state ≡ authenticating) ⊎ (p.conn.state ≡ closed)
  pub one_auth : (p.auths ≡ []) ⊎ ((call : AuthWait) × (p.auths ≡ call ∷ []))
  pub own_reads : (call : ReadWait) → In call p.reads → IsOwn p.conn.account_did call
  pub own_events : IsPrivate p.conn.account_did p.socket.sent

-- At most one read waits, and only while the connection is pumping.
abbrev pub Readers : Bool → List ReadWait → Type 0
Readers true reads = (call : ReadWait) × (reads ≡ call ∷ [])
Readers false reads = reads ≡ []

-- What there is to read is read: by the read that waits, or by a callback that will run.
abbrev pub Attended : Peer → Type 0
Attended p =
    p.conn.pending ≡ true
    → is_subscribed p.conn.state ≡ true
    → (p.conn.pumping ≡ true) ⊎ (0 < p.immediates)

pub record Valid (p : Peer) : Type 0 where
  pub sound : Sound p
  pub readers : Readers p.conn.pumping p.reads
  pub attended : Attended p

In-emit : (f g : ServerFrame) (s : Socket) → In f (emit g s).sent → In f s.sent ⊎ (f ≡ g)
unfolding emit
In-emit f g s m = elim (Bool-cases s.is_open) [
  | inl e ↦ elim (In-append_cases f s.sent (g ∷ []) (rw e at m)) [
    | inl old ↦ inl old
    | inr (inl new) ↦ inr new
    | inr (inr never) ↦ elim never [ ]
  ]
  | inr e ↦ inl (rw e at m)
]

pub IsPrivate-emit :
    (account : Option Text) (f : ServerFrame) (s : Socket)
    → IsPrivate account (f ∷ [])
    → IsPrivate account s.sent
    → IsPrivate account (emit f s).sent
IsPrivate-emit account f s new h g w m at = elim (In-emit g f s m) [
  | inl old ↦ h g w old at
  | inr same ↦ new g w (inl same) at
]

pub empty-IsPrivate :
    (account : Option Text) (f : ServerFrame) → frame_events f ≡ [] → IsPrivate account (f ∷ [])
empty-IsPrivate account f e g w (inl same) at =
    absurd (subst (λ evs. In w evs) (ap frame_events same ∙ e) at)
empty-IsPrivate account f e g w (inr never) at = absurd never

pub Sound-finish_pump : (p : Peer) → Sound p → Sound (finish_pump p)
unfolding finish_pump
Sound-finish_pump p s = record {
  anonymous = s.anonymous;
  idle = s.idle;
  named = s.named;
  waiting = s.waiting;
  one_auth = s.one_auth;
  own_reads = s.own_reads;
  own_events = s.own_events;
}

pub Sound-rest_pump : (p : Peer) → Sound p → Sound (rest_pump p)
unfolding rest_pump
Sound-rest_pump p s = record {
  anonymous = s.anonymous;
  idle = s.idle;
  named = s.named;
  waiting = s.waiting;
  one_auth = s.one_auth;
  own_reads = s.own_reads;
  own_events = s.own_events;
}

pub Sound-send_frame :
    (f : ServerFrame) (p : Peer)
    → IsPrivate p.conn.account_did (f ∷ [])
    → Sound p
    → Sound (send_frame f p)
unfolding send_frame
Sound-send_frame f p new s = record {
  anonymous = s.anonymous;
  idle = s.idle;
  named = s.named;
  waiting = s.waiting;
  one_auth = s.one_auth;
  own_reads = s.own_reads;
  own_events = IsPrivate-emit p.conn.account_did f p.socket new s.own_events;
}

Sound-go_live_from :
    (state : ConnState) (p : Peer) → p.conn.state ≡ state → Sound p → Sound (go_live_from state p)
unfolding go_live_from
Sound-go_live_from draining p e s =
    Sound-send_frame (live_frame (print_cursor p.conn.cursor))
      (record p { conn = record p.conn { state = live } })
      (empty-IsPrivate p.conn.account_did (live_frame (print_cursor p.conn.cursor)) refl)
      (record {
        anonymous = λ h. cc h;
        idle = λ h. cc h;
        named = λ h k. s.named (ap is_anonymous e) (ap is_closed e);
        waiting = λ call m. elim (s.waiting call m) [ inl k ↦ cc (e, k) | inr k ↦ cc (e, k) ];
        one_auth = s.one_auth;
        own_reads = s.own_reads;
        own_events = s.own_events;
      })
Sound-go_live_from _ p e s = s

pub Sound-go_live : (p : Peer) → Sound p → Sound (go_live p)
unfolding go_live
Sound-go_live p s = Sound-go_live_from p.conn.state p refl s

pub go_live_from-reads : (state : ConnState) (p : Peer) → (go_live_from state p).reads ≡ p.reads
unfolding go_live_from send_frame
go_live_from-reads draining p = refl
go_live_from-reads _ p = refl
