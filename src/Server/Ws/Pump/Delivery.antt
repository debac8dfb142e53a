-- ===== src/Server/Ws/Pump/Delivery.antt =====
-- `pump` of backend/server/src/ws-server.ts after its `await`: what it keeps of a connection.
use corner_tasks.Prelude.{
  ℕ, zero, suc, ◌≡◌, inl, inr, refl, sym, ap, ◌∙◌, subst, true, not, Option, none, some, List, [],
  ◌∷◌, ◌==◌, In, In-map, In-filter, Bool-cases, branches, is_empty, length, take, drop,
}
use corner_tasks.Prelude.Text.{Text}
use corner_tasks.Prelude.Outcome.{Outcome, returned}
use corner_tasks.Core.Types.{StoredEvent, to_wire_event, QueryEventsResult}
use corner_tasks.Core.Cursor.{parse_cursor}
use corner_tasks.Core.Handlers.Push.{has_seen}
use corner_tasks.Server.Ws.Frames.{ServerFrame}
use corner_tasks.Server.Ws.Connection.{Connection, ReadWait, Peer, is_closed, send_frame}
use corner_tasks.Server.Ws.Pump.{
  event_frames, send_all, send_events, outgoing, advance, deliver, read_on,
}
use corner_tasks.Server.Ws.Pump.Covered.{frame_events}
use corner_tasks.Server.Ws.Pump.Waiting.{pump_loop-Valid, finish_pump-Valid}
use corner_tasks.Server.Ws.Pump.Soundness.{
  Sound, Sound-send_frame, Valid, OwnedBy, Honest, IsOwn, IsPrivate,
}

In-take : {A : Type 0} (k : ℕ) (s : A) (xs : List A) → In s (take k xs) → In s xs
In-take (suc k) s (x ∷ xs) (inl e) = inl e
In-take (suc k) s (x ∷ xs) (inr m) = inr (In-take k s xs m)
In-take (suc k) s [] m = absurd m
In-take zero s xs m = absurd m

In-drop : {A : Type 0} (k : ℕ) (s : A) (xs : List A) → In s (drop k xs) → In s xs
In-drop zero s xs m = m
In-drop (suc k) s (x ∷ xs) m = inr (In-drop k s xs m)
In-drop (suc k) s [] m = absurd m

OwnedBy-outgoing :
    (a : Text) (withheld : Option (List Text)) (evs : List StoredEvent)
    → OwnedBy a evs
    → OwnedBy a (outgoing withheld evs)
unfolding outgoing
OwnedBy-outgoing a none evs h = h
OwnedBy-outgoing a (some ids) evs h =
    λ s m. h s (In-filter (λ ev. not (has_seen ev.event_id ids)) s evs m).0

event_frames-IsPrivate :
    (fuel size at : ℕ) (batch a : Text) (evs : List StoredEvent)
    → OwnedBy a evs
    → IsPrivate (some a) (event_frames fuel size at batch evs)
unfolding event_frames
event_frames-IsPrivate (suc fuel) size at batch a (ev ∷ evs) h f w (inl e) m =
    let (s, first, same) =
      In-map to_wire_event w (take size (ev ∷ evs)) (subst (λ g. In w (frame_events g)) e m) in
    rw same (ap some (sym (h s (In-take size s (ev ∷ evs) first))))
event_frames-IsPrivate (suc fuel) size at batch a (ev ∷ evs) h f w (inr later) m =
    event_frames-IsPrivate fuel size at batch a (drop size (ev ∷ evs))
      (λ s n. h s (In-drop size s (ev ∷ evs) n)) f w later m
event_frames-IsPrivate (suc fuel) size at batch a [] h f w later m = absurd later
event_frames-IsPrivate zero size at batch a evs h f w later m = absurd later

-- What is sent changes nothing of a connection but its socket.
send_all-conn : (fs : List ServerFrame) (p : Peer) → (send_all fs p).conn ≡ p.conn
unfolding send_all send_frame
send_all-conn [] p = refl
send_all-conn (f ∷ fs) p = send_all-conn fs (send_frame f p)

send_all-reads : (fs : List ServerFrame) (p : Peer) → (send_all fs p).reads ≡ p.reads
unfolding send_all send_frame
send_all-reads [] p = refl
send_all-reads (f ∷ fs) p = send_all-reads fs (send_frame f p)

Sound-send_all :
    (fs : List ServerFrame) (p : Peer)
    → IsPrivate p.conn.account_did fs
    → Sound p
    → Sound (send_all fs p)
unfolding send_all
Sound-send_all [] p h s = s
Sound-send_all (f ∷ fs) p h s =
    Sound-send_all fs (send_frame f p) (unfold send_frame in λ g w m. h g w (inr m))
      (Sound-send_frame f p (λ g w. elim [ inl e ↦ h g w (inl e) | inr never ↦ absurd never ]) s)

Sound-advance : (n : ℕ) (p : Peer) → Sound p → Sound (record p { conn = advance n p.conn })
unfolding advance
Sound-advance n p s = record {
  anonymous = s.anonymous;
  idle = s.idle;
  named = s.named;
  waiting = s.waiting;
  one_auth = s.one_auth;
  own_reads = s.own_reads;
  own_events = s.own_events;
}

Sound-send_events :
    (size : ℕ) (a batch : Text) (evs : List StoredEvent) (p : Peer)
    → p.conn.account_did ≡ some a
    → OwnedBy a evs
    → Sound p
    → Sound (send_events size evs batch p)
unfolding send_events
Sound-send_events size a batch evs p e h s =
    Sound-send_all (event_frames (length evs) size p.conn.cursor batch evs) p
      (subst (λ account. IsPrivate account (event_frames (length evs) size p.conn.cursor batch evs))
        (sym e) (event_frames-IsPrivate (length evs) size p.conn.cursor batch a evs h))
      s

pub send_events-conn :
    (size : ℕ) (batch : Text) (evs : List StoredEvent) (p : Peer)
    → (send_events size evs batch p).conn ≡ p.conn
unfolding send_events
send_events-conn size batch evs p =
    send_all-conn (event_frames (length evs) size p.conn.cursor batch evs) p

send_events-reads :
    (size : ℕ) (batch : Text) (evs : List StoredEvent) (p : Peer)
    → (send_events size evs batch p).reads ≡ p.reads
unfolding send_events
send_events-reads size batch evs p =
    send_all-reads (event_frames (length evs) size p.conn.cursor batch evs) p

module _ (size : ℕ) (a : Text) (withheld : Option (List Text)) (result : QueryEventsResult)
    (p : Peer) where
  Sound-deliver :
      p.conn.account_did ≡ some a
      → OwnedBy a result.events
      → Sound p
      → Sound (deliver size withheld result p)
  unfolding deliver
  Sound-deliver e h s = elim (Bool-cases (is_empty (outgoing withheld result.events))) [
    | inl none_out ↦ rw none_out (Sound-advance (parse_cursor (some result.next_cursor)) p s)
    | inr some_out ↦ rw some_out (
        Sound-advance (parse_cursor (some result.next_cursor))
          (send_events size (outgoing withheld result.events) result.next_cursor p)
          (Sound-send_events size a result.next_cursor (outgoing withheld result.events) p e
            (OwnedBy-outgoing a withheld result.events h) s))
  ]

  pub deliver-reads : (deliver size withheld result p).reads ≡ p.reads
  unfolding deliver
  deliver-reads = elim (Bool-cases (is_empty (outgoing withheld result.events))) [
    | inl none_out ↦ rw none_out refl
    | inr some_out ↦
        rw some_out (send_events-reads size result.next_cursor (outgoing withheld result.events) p)
  ]

  pub deliver-pumping : (deliver size withheld result p).conn.pumping ≡ p.conn.pumping
  unfolding deliver advance
  deliver-pumping = elim (Bool-cases (is_empty (outgoing withheld result.events))) [
    | inl none_out ↦ rw none_out refl
    | inr some_out ↦ rw some_out (
        ap (λ (c : Connection). c.pumping)
          (send_events-conn size result.next_cursor (outgoing withheld result.events) p))
  ]

-- A read that is answered leaves its connection valid.
pub read_on-Valid :
    (ask : Text → Text → Outcome QueryEventsResult) (size : ℕ) (call : ReadWait)
    (result : QueryEventsResult) (p : Peer)
    → Honest ask
    → IsOwn p.conn.account_did call
    → call.answer ≡ returned result
    → Sound p
    → p.reads ≡ []
    → p.conn.pumping ≡ true
    → Valid (read_on ask size call result p)
unfolding read_on
read_on-Valid ask size call result p honest own e s none_left k =
    branches Valid (is_closed p.conn.state) _ _ (λ gone. finish_pump-Valid p s none_left gone)
      (λ _.
        branches Valid (p.conn.generation == call.generation) _ _
          (λ _.
            pump_loop-Valid ask call.rounds (deliver size call.suppress result p) honest
              (Sound-deliver size call.account_did call.suppress result p own.0 (own.1 result e) s)
              (deliver-reads size call.account_did call.suppress result p ∙ none_left)
              (deliver-pumping size call.account_did call.suppress result p ∙ k))
          (λ _. pump_loop-Valid ask call.rounds p honest s none_left k))
