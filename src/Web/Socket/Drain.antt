-- ===== src/Web/Socket/Drain.antt =====
-- What the hub of backend/server/src/ws-server.ts sends and what the client of
-- apps/web/src/sync/NegotiatingTransport.ts pulls of it.
use corner_tasks.Prelude.{
  ℕ, zero, suc, ◌<◌, ◌≡◌, ◌⊎◌, inl, inr, refl, sym, ap, ◌∙◌, subst, false, Option, some, List, [],
  ◌∷◌, ◌++◌, In, is_empty, length, take, drop,
}
use mathlib.Core.List.{append-nil, append_assoc}
use corner_tasks.Prelude.Text.{Text}
use corner_tasks.Prelude.Int.{ℤ}
use corner_tasks.Core.Types.{SyncEvent, StoredEvent, to_wire_event}
use corner_tasks.Core.Cursor.{parse_cursor, print_cursor}
use corner_tasks.Core.Sqlite.Rows.{Db}
use corner_tasks.Core.Sqlite.Methods.{query_events_after}
use corner_tasks.Core.Sqlite.Seq.{IsWellFormed}
use corner_tasks.Server.Ws.Frames.{ServerFrame, events_frame}
use corner_tasks.Server.Ws.Pump.{chunk_frame, event_frames, outgoing}
use corner_tasks.Server.Ws.Pump.Chunks.{frames_of, frames_lose_nothing}
use corner_tasks.Server.Ws.Pump.Covered.{frame_cursor, carried, seq_of}
use corner_tasks.Web.Session.{Reply, ok, failed, PullResponse, World}
use corner_tasks.Web.Socket.Negotiation.{Negotiator, on_events}
use corner_tasks.Web.Socket.Negotiation.Transport.{pull_events}

-- The socket hands over the frames one by one.
abbrev pub receive : List ServerFrame → Negotiator → Negotiator
receive [] n = n
receive (events_frame evs cursor ∷ fs) n = receive fs (on_events evs cursor n)
receive (_ ∷ fs) n = receive fs n

receive-events :
    (fs : List ServerFrame) (n : Negotiator)
    → (receive fs n).buffered_events ≡ n.buffered_events ++ carried fs
unfolding on_events
receive-events [] n = sym (append-nil n.buffered_events)
receive-events (events_frame evs cursor ∷ fs) n =
    receive-events fs (on_events evs cursor n) ∙ append_assoc n.buffered_events evs (carried fs)
receive-events (_ ∷ fs) n = receive-events fs n

receive-cursor :
    (fs : List ServerFrame) (evs : List SyncEvent) (cursor : Text) (n : Negotiator)
    → (receive (fs ++ events_frame evs cursor ∷ []) n).buffered_cursor ≡ some cursor
unfolding on_events
receive-cursor [] evs cursor n = refl
receive-cursor (events_frame old at ∷ fs) evs cursor n =
    receive-cursor fs evs cursor (on_events old at n)
receive-cursor (_ ∷ fs) evs cursor n = receive-cursor fs evs cursor n

-- All the frames of an answer are of events.
event_frames-events :
    (fuel size at : ℕ) (batch : Text) (evs : List StoredEvent) (before : List ServerFrame)
    (f : ServerFrame) (after : List ServerFrame)
    → event_frames fuel size at batch evs ≡ before ++ f ∷ after
    → (ws : List SyncEvent) × (cursor : Text) × (f ≡ events_frame ws cursor)
unfolding event_frames
event_frames-events zero size at batch evs [] f after e = cc e
event_frames-events zero size at batch evs (g ∷ before) f after e = cc e
event_frames-events (suc fuel) size at batch [] [] f after e = cc e
event_frames-events (suc fuel) size at batch [] (g ∷ before) f after e = cc e
event_frames-events (suc fuel) size at batch (ev ∷ evs) [] f after e =
    let same : chunk_frame at batch (take size (ev ∷ evs)) (drop size (ev ∷ evs)) ≡ f = cc e in
    (_, _, sym same)
event_frames-events (suc fuel) size at batch (ev ∷ evs) (g ∷ before) f after e =
    event_frames-events fuel size at batch (drop size (ev ∷ evs)) before f after (cc e)

-- The event is among those that a pull hands over, or comes after the cursor that it hands over.
abbrev pub HandsOver : Reply PullResponse → StoredEvent → Type 0
HandsOver (ok response) s =
    In (to_wire_event s) response.events ⊎ (parse_cursor (some response.next_cursor) < seq_of s)
HandsOver (failed _) s = ⊥

module _ {N : Type 0} (world : World N) where
  -- A pull hands over what is buffered.
  pull_buffered :
      (account cursor bearer : Text) (n : Negotiator) (net : N) (evs : List SyncEvent) (at : Text)
      → n.buffered_events ≡ evs
      → n.buffered_cursor ≡ some at
      → is_empty evs ≡ false
      → (pull_events world account cursor bearer n net).0
        ≡ ok (record { events = evs; next_cursor = at })
  unfolding pull_events
  pull_buffered account cursor bearer n net [] at e k there = cc there
  pull_buffered account cursor bearer n net (ev ∷ evs) at e k there = rw (e, k) refl

  -- From a well-formed database, and with nothing buffered before: a client got some of the frames of an
  -- answer, up to any frame `f`, with at least one event in them, and its engine pulls. Every event of the
  -- answer that is not withheld is among those that the pull hands over, or has a number past the cursor
  -- that it hands over.
  pub socket_pull_loses_nothing :
      (iso : ℤ → Text) (now size at : ℕ) (a : Text) (db : Db) (withheld : Option (List Text))
      (before : List ServerFrame) (f : ServerFrame) (after : List ServerFrame) (s : StoredEvent)
      (account cursor bearer : Text) (n : Negotiator) (net : N)
      → IsWellFormed db
      → frames_of size at withheld (query_events_after iso now a (print_cursor at) db)
        ≡ before ++ f ∷ after
      → In s (outgoing withheld (query_events_after iso now a (print_cursor at) db).events)
      → n.buffered_events ≡ []
      → is_empty (carried (before ++ f ∷ [])) ≡ false
      → HandsOver (pull_events world account cursor bearer (receive (before ++ f ∷ []) n) net).0 s
  socket_pull_loses_nothing iso now size at a db withheld before f after s account cursor bearer n
        net w e m fresh there =
      let answer = query_events_after iso now a (print_cursor at) db in
      let covered = frames_lose_nothing iso now size at a db withheld before f after s w e m in
      let (evs, last, same) =
        event_frames-events (length (outgoing withheld answer.events)) size at answer.next_cursor
          (outgoing withheld answer.events) before f after e in
      let handed =
        pull_buffered account cursor bearer (receive (before ++ f ∷ []) n) net
          (carried (before ++ f ∷ [])) last
          (receive-events (before ++ f ∷ []) n
            ∙ ap (λ old. old ++ carried (before ++ f ∷ [])) fresh)
          (subst (λ g. (receive (before ++ g ∷ []) n).buffered_cursor ≡ some last) (sym same)
            (receive-cursor before evs last n))
          there in
      subst (λ r. HandsOver r s) (sym handed)
        (elim covered [
          | inl sent ↦ inl sent
          | inr past ↦ inr (subst (λ g. frame_cursor g < seq_of s) same past)
        ])
