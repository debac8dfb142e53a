-- ===== src/Server/Ws/Pump/Chunks.antt =====
-- `sendEvents` of backend/server/src/ws-server.ts: what the chunks carry and what their cursors claim.
use corner_tasks.Prelude.{
  ℕ, zero, suc, ◌≤◌, ◌<◌, ◌≡◌, inl, inr, refl, sym, ap, ◌∙◌, Bool, true, Option, none, some, List,
  [], ◌∷◌, ◌++◌, map, arith, In, filter, length, take, drop, Bool-cases, not,
}
use mathlib.Core.List.{append-nil, append_assoc}
use corner_tasks.Prelude.Text.{Text}
use corner_tasks.Prelude.Int.{ℤ}
use corner_tasks.Core.Types.{StoredEvent, to_wire_event, QueryEventsResult}
use corner_tasks.Core.Cursor.{print_cursor, parse_cursor}
use corner_tasks.Core.Sqlite.Rows.{Db}
use corner_tasks.Core.Sqlite.Methods.{query_events_after}
use corner_tasks.Core.Sqlite.Seq.{IsWellFormed}
use corner_tasks.Core.Sqlite.Ascending.{AscendingFrom, query_events_after-AscendingFrom}
use corner_tasks.Core.Handlers.Push.{has_seen}
use corner_tasks.Server.Ws.Frames.{ServerFrame}
use corner_tasks.Server.Ws.Connection.{Peer, Socket, emit, send_frame}
use corner_tasks.Server.Ws.Pump.{event_frames, send_all, send_events, outgoing, deliver}
use corner_tasks.Server.Ws.Pump.Covered.{
  AscendingFrom-tail, Covered, carried, event_frames-Covered, frame_events, seq_of,
}

AscendingFrom-filter :
    (p : StoredEvent → Bool) (n : ℕ) (evs : List StoredEvent)
    → AscendingFrom n evs
    → AscendingFrom n (filter p evs)
unfolding filter
AscendingFrom-filter p n [] h = tt
AscendingFrom-filter p n (x ∷ xs) h = elim (Bool-cases (p x)) [
  | inl e ↦ rw e (h.0, AscendingFrom-filter p (seq_of x) xs h.1)
  | inr e ↦ rw e (AscendingFrom-filter p n xs (AscendingFrom-tail n x xs h))
]

AscendingFrom-outgoing :
    (withheld : Option (List Text)) (n : ℕ) (evs : List StoredEvent)
    → AscendingFrom n evs
    → AscendingFrom n (outgoing withheld evs)
unfolding outgoing
AscendingFrom-outgoing none n evs h = h
AscendingFrom-outgoing (some ids) n evs h =
    AscendingFrom-filter (λ ev. not (has_seen ev.event_id ids)) n evs h

-- The frames that an answer is sent in, to a connection at `cursor`.
abbrev pub frames_of : ℕ → ℕ → Option (List Text) → QueryEventsResult → List ServerFrame
frames_of size cursor withheld answer =
    event_frames (length (outgoing withheld answer.events)) size cursor answer.next_cursor
      (outgoing withheld answer.events)

-- From a well-formed database: a client that lost the connection after any frame `f` of an answer, and asks
-- again from the cursor of `f`, loses nothing. Every event of the answer that is not withheld was in a
-- frame up to `f`, or has a number past that cursor.
pub frames_lose_nothing :
    (iso : ℤ → Text) (now size cursor : ℕ) (a : Text) (db : Db) (withheld : Option (List Text))
    (before : List ServerFrame) (f : ServerFrame) (after : List ServerFrame) (s : StoredEvent)
    → IsWellFormed db
    → frames_of size cursor withheld (query_events_after iso now a (print_cursor cursor) db)
      ≡ before ++ f ∷ after
    → In s (outgoing withheld (query_events_after iso now a (print_cursor cursor) db).events)
    → Covered before f s
frames_lose_nothing iso now size cursor a db withheld before f after s w e m =
    let answer = query_events_after iso now a (print_cursor cursor) db in
    event_frames-Covered (length (outgoing withheld answer.events)) size cursor answer.next_cursor
      (outgoing withheld answer.events)
      (AscendingFrom-outgoing withheld (parse_cursor (some (print_cursor cursor))) answer.events
        (query_events_after-AscendingFrom iso now a (print_cursor cursor) db w))
      before f after e s m

emit-is_open : (f : ServerFrame) (s : Socket) → (emit f s).is_open ≡ s.is_open
unfolding emit
emit-is_open f s = ground arith

emit-sent : (f : ServerFrame) (s : Socket) → s.is_open ≡ true → (emit f s).sent ≡ s.sent ++ f ∷ []
unfolding emit
emit-sent f s h = ground (arith, h)

send_all-sent :
    (fs : List ServerFrame) (p : Peer)
    → p.socket.is_open ≡ true
    → (send_all fs p).socket.sent ≡ p.socket.sent ++ fs
unfolding send_all send_frame
send_all-sent [] p h = sym (append-nil p.socket.sent)
send_all-sent (f ∷ fs) p h =
    send_all-sent fs (send_frame f p) (emit-is_open f p.socket ∙ h)
    ∙ ap (λ sent. sent ++ fs) (emit-sent f p.socket h)
    ∙ append_assoc p.socket.sent (f ∷ []) fs

map-take-drop :
    (k : ℕ) (evs : List StoredEvent)
    → map to_wire_event (take k evs) ++ map to_wire_event (drop k evs) ≡ map to_wire_event evs
map-take-drop zero evs = refl
map-take-drop (suc k) [] = refl
map-take-drop (suc k) (ev ∷ evs) = ap (λ ws. to_wire_event ev ∷ ws) (map-take-drop k evs)

length-drop_le : (k : ℕ) (evs : List StoredEvent) → length (drop k evs) ≤ length evs
length-drop_le zero evs = omega arith
length-drop_le (suc k) [] = omega arith
length-drop_le (suc k) (ev ∷ evs) = omega (arith, length-drop_le k evs)

event_frames-carried :
    (fuel size at : ℕ) (batch : Text) (evs : List StoredEvent)
    → 0 < size
    → length evs ≤ fuel
    → carried (event_frames fuel size at batch evs) ≡ map to_wire_event evs
unfolding event_frames
event_frames-carried zero size at batch [] h le = refl
event_frames-carried zero size at batch (ev ∷ evs) h le = absurd (omega arith)
event_frames-carried (suc fuel) size at batch [] h le = refl
event_frames-carried (suc fuel) (suc size) at batch (ev ∷ evs) h le =
    rw
      (event_frames-carried fuel (suc size) at batch (drop size evs) h
        (omega (arith, length-drop_le size evs)))
      (map-take-drop (suc size) (ev ∷ evs))
event_frames-carried (suc fuel) zero at batch (ev ∷ evs) h le = elim h [ ]

carried-append : (fs gs : List ServerFrame) → carried (fs ++ gs) ≡ carried fs ++ carried gs
carried-append [] gs = refl
carried-append (f ∷ fs) gs =
    rw (carried-append fs gs) (sym (append_assoc (frame_events f) (carried fs) (carried gs)))

-- Whatever the chunk size, if it is not 0: over an open socket, an answer of the store is sent whole. What the
-- frames carry grows by the events of the answer that are not withheld, each once and in their order.
pub carried-deliver :
    (size : ℕ) (withheld : Option (List Text)) (answer : QueryEventsResult) (p : Peer)
    → 0 < size
    → p.socket.is_open ≡ true
    → carried (deliver size withheld answer p).socket.sent
      ≡ carried p.socket.sent ++ map to_wire_event (outgoing withheld answer.events)
unfolding deliver send_events
carried-deliver size withheld answer p h e = go (outgoing withheld answer.events) refl
  where
    go :
        (out : List StoredEvent)
        → outgoing withheld answer.events ≡ out
        → carried (deliver size withheld answer p).socket.sent
          ≡ carried p.socket.sent ++ map to_wire_event out
    go [] k = rw k (sym (append-nil (carried p.socket.sent)))
    go (ev ∷ evs) k =
        let fs =
          event_frames (length (ev ∷ evs)) size p.conn.cursor answer.next_cursor (ev ∷ evs) in
        rw k (
          ap carried (send_all-sent fs p e)
          ∙ carried-append p.socket.sent fs
          ∙ ap (λ ws. carried p.socket.sent ++ ws)
              (event_frames-carried (length (ev ∷ evs)) size p.conn.cursor answer.next_cursor
                (ev ∷ evs) h (omega arith)))
