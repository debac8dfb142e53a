-- ===== src/Server/Ws/Pump.antt =====
-- `pump` and `sendEvents` of backend/server/src/ws-server.ts. `pump` is cut at its `await`: what it
-- does up to the read, and what it does with the answer. `ask` is the store's read of an account
-- past a cursor, made when `pump` comes to it.
pub mod Covered
pub mod Chunks
pub mod Soundness
pub mod Waiting
pub mod Delivery
pub mod Rounds
use corner_tasks.Prelude.{
  ℕ, zero, suc, ◌+◌, Bool, true, false, ◌||◌, not, Option, none, some, List, [], ◌∷◌, map,
  if◌then◌else◌, ◌==◌, ltb, leb, take, drop, is_empty, filter, length,
}
use corner_tasks.Prelude.Text.{Text}
use corner_tasks.Prelude.Outcome.{Outcome, returned, threw}
use corner_tasks.Core.Types.{StoredEvent, to_wire_event, QueryEventsResult}
use corner_tasks.Core.Cursor.{parse_cursor, print_cursor}
use corner_tasks.Core.Handlers.Push.{has_seen}
use corner_tasks.Server.Ws.Frames.{
  ConnState, draining, live, closed, ServerFrame, events_frame, live_frame, CloseReason,
  drain_failed, max_pump_rounds,
}
use corner_tasks.Server.Ws.Connection.{
  Connection, ReadWait, Peer, Verdict, stays, torn, is_closed, send_frame,
}

-- The cursor of a chunk that is not the last: the number of its last event.
unfoldable pub last_seq : ℕ → List StoredEvent → ℕ
last_seq at [] = at
last_seq at (ev ∷ []) = elim ev.seq [ none ↦ at | some n ↦ n ]
last_seq at (ev ∷ next ∷ evs) = last_seq at (next ∷ evs)

abbrev pub chunk_frame : ℕ → Text → List StoredEvent → List StoredEvent → ServerFrame
chunk_frame at batch_cursor chunk rest =
    events_frame (map to_wire_event chunk)
      (if is_empty rest then batch_cursor else print_cursor (last_seq at chunk))

-- The frames of the loop of `sendEvents`, at most `fuel` of them; `at` is `conn.cursor`.
unfoldable pub event_frames : ℕ → ℕ → ℕ → Text → List StoredEvent → List ServerFrame
unfolding last_seq
event_frames zero size at batch_cursor evs = []
event_frames (suc fuel) size at batch_cursor [] = []
event_frames (suc fuel) size at batch_cursor (ev ∷ evs) =
    chunk_frame at batch_cursor (take size (ev ∷ evs)) (drop size (ev ∷ evs))
    ∷ event_frames fuel size at batch_cursor (drop size (ev ∷ evs))

unfoldable pub send_all : List ServerFrame → Peer → Peer
send_all [] p = p
send_all (f ∷ fs) p = send_all fs (send_frame f p)

unfoldable pub send_events : ℕ → List StoredEvent → Text → Peer → Peer
unfolding event_frames send_all
send_events size evs batch_cursor p =
    send_all (event_frames (length evs) size p.conn.cursor batch_cursor evs) p

-- The events of an answer that are not withheld.
unfoldable pub outgoing : Option (List Text) → List StoredEvent → List StoredEvent
unfolding filter
outgoing none evs = evs
outgoing (some ids) evs = filter (λ ev. not (has_seen ev.event_id ids)) evs

unfoldable pub go_live_from : ConnState → Peer → Peer
go_live_from draining p =
    send_frame (live_frame (print_cursor p.conn.cursor))
      (record p { conn = record p.conn { state = live } })
go_live_from _ p = p

unfoldable pub go_live : Peer → Peer
unfolding go_live_from
go_live p = go_live_from p.conn.state p

-- `conn.pumping = false`, and where there is more to read, `setImmediate`.
unfoldable pub rest_pump : Peer → Peer
rest_pump p = record p {
  conn = record p.conn { pumping = false };
  immediates = if p.conn.pending then suc p.immediates else p.immediates;
}

unfoldable pub finish_pump : Peer → Peer
finish_pump p = record p { conn = record p.conn { pumping = false } }

unfoldable pub advance : ℕ → Connection → Connection
advance n c = record c { cursor = if ltb c.cursor n then n else c.cursor }

-- An answer of the store: its events are sent, and the cursor moves past all of them.
unfoldable pub deliver : ℕ → Option (List Text) → QueryEventsResult → Peer → Peer
unfolding outgoing send_events advance
deliver size suppress result p =
    let out = outgoing suppress result.events in
    let sent = if is_empty out then p else send_events size out result.next_cursor p in
    record sent { conn = advance (parse_cursor (some result.next_cursor)) sent.conn }

-- A connection that has subscribed has an account.
abbrev pub account_of : Option Text → Text
account_of none = []
account_of (some a) = a

module _ (ask : Text → Text → Outcome QueryEventsResult) where
  unfoldable pub begin_read : ℕ → Text → Peer → Peer
  begin_read rounds account p = record p {
    conn = record p.conn { pending = false; suppress = none };
    reads =
        record {
          rounds = suc rounds;
          generation = p.conn.generation;
          suppress = p.conn.suppress;
          account_did = account;
          answer = ask account (print_cursor p.conn.cursor);
        }
        ∷ p.reads;
  }

  -- The loop from its head to the next `await` or to its end.
  unfoldable pub pump_loop : ℕ → Peer → Peer
  unfolding go_live rest_pump finish_pump begin_read
  pump_loop rounds p =
      if is_closed p.conn.state
      then finish_pump p
      else if not p.conn.pending || leb max_pump_rounds rounds
      then rest_pump (go_live p)
      else begin_read rounds (account_of p.conn.account_did) p

  unfoldable pub pump_from : Bool → Peer → Peer
  unfolding pump_loop
  pump_from true p = p
  pump_from false p = pump_loop 0 (record p { conn = record p.conn { pumping = true } })

  -- `pump` up to its first `await`
  unfoldable pub pump : Peer → Peer
  unfolding pump_from
  pump p = pump_from p.conn.pumping p

  unfoldable pub read_on : ℕ → ReadWait → QueryEventsResult → Peer → Peer
  unfolding pump_loop deliver finish_pump
  read_on size call result p =
      if is_closed p.conn.state
      then finish_pump p
      else if p.conn.generation == call.generation
      then pump_loop call.rounds (deliver size call.suppress result p)
      else pump_loop call.rounds p

  unfoldable pub read_result : ℕ → ReadWait → Outcome QueryEventsResult → Peer → Verdict
  unfolding read_on finish_pump
  read_result size call threw p = torn (finish_pump p) 1011 drain_failed
  read_result size call (returned result) p = stays (read_on size call result p)

  -- `pump` after its `await`; the read is no longer among those of `p`.
  unfoldable pub resume_pump : ℕ → ReadWait → Peer → Verdict
  unfolding read_result
  resume_pump size call p = read_result size call call.answer p
