-- ===== src/Server/Ws/Pump/Covered.antt =====
-- `sendEvents` of backend/server/src/ws-server.ts: which events a client that keeps a frame's cursor has.
use corner_tasks.Prelude.{
  ℕ, zero, suc, ◌<◌, ◌≡◌, ◌⊎◌, inl, inr, Option, none, refl, false, some, List, [], ◌∷◌, ◌++◌, map,
  arith, In, map-In, take, drop, or_else, is_empty,
}
use corner_tasks.Prelude.Text.{Text}
use corner_tasks.Core.Types.{SyncEvent, StoredEvent, to_wire_event}
use corner_tasks.Core.Cursor.{parse_cursor, print_cursor, parse_cursor-print_cursor-le}
use corner_tasks.Core.Sqlite.Ascending.{AscendingFrom, AscendingFrom-lower}
use corner_tasks.Core.Handlers.Push.Report.{In-append_left, In-append_right}
use corner_tasks.Server.Ws.Frames.{ServerFrame, events_frame}
use corner_tasks.Server.Ws.Pump.{last_seq, chunk_frame, event_frames}

-- The events in a frame, and the cursor that a client keeps after it.
abbrev pub frame_events : ServerFrame → List SyncEvent
frame_events (events_frame evs _) = evs
frame_events _ = []

abbrev pub frame_cursor : ServerFrame → ℕ
frame_cursor (events_frame _ cursor) = parse_cursor (some cursor)
frame_cursor _ = 0

abbrev pub carried : List ServerFrame → List SyncEvent
carried [] = []
carried (f ∷ fs) = frame_events f ++ carried fs

abbrev pub seq_of : StoredEvent → ℕ
seq_of s = or_else s.seq 0

AscendingFrom-In :
    (n : ℕ) (evs : List StoredEvent) (s : StoredEvent)
    → AscendingFrom n evs
    → In s evs
    → n < seq_of s
AscendingFrom-In n (x ∷ xs) s h (inl e) = rw e h.0
AscendingFrom-In n (x ∷ xs) s h (inr m) = omega (arith, h.0, AscendingFrom-In (seq_of x) xs s h.1 m)
AscendingFrom-In n [] s h m = absurd m

pub AscendingFrom-tail :
    (n : ℕ) (x : StoredEvent) (xs : List StoredEvent)
    → AscendingFrom n (x ∷ xs)
    → AscendingFrom n xs
AscendingFrom-tail n x xs h =
    AscendingFrom-lower (seq_of x) n xs (let past = h.0 in omega arith) h.1

AscendingFrom-drop :
    (k n : ℕ) (evs : List StoredEvent) → AscendingFrom n evs → AscendingFrom n (drop k evs)
AscendingFrom-drop zero n evs h = h
AscendingFrom-drop (suc k) n [] h = tt
AscendingFrom-drop (suc k) n (x ∷ xs) h = AscendingFrom-drop k n xs (AscendingFrom-tail n x xs h)

In-take-drop :
    {A : Type 0} (k : ℕ) (s : A) (xs : List A) → In s xs → In s (take k xs) ⊎ In s (drop k xs)
In-take-drop zero s xs m = inr m
In-take-drop (suc k) s (x ∷ xs) (inl e) = inl (inl e)
In-take-drop (suc k) s (x ∷ xs) (inr m) = elim (In-take-drop k s xs m) [
  | inl first ↦ inl (inr first)
  | inr later ↦ inr later
]
In-take-drop (suc k) s [] m = absurd m

-- The events are past what the cursor `at` is read back as.
abbrev pub AscendingPast : ℕ → List StoredEvent → Type 0
AscendingPast at evs = AscendingFrom (parse_cursor (some (print_cursor at))) evs

AscendingFrom-past : (n : ℕ) (evs : List StoredEvent) → AscendingFrom n evs → AscendingPast n evs
AscendingFrom-past n evs h =
    AscendingFrom-lower n (parse_cursor (some (print_cursor n))) evs
      (parse_cursor-print_cursor-le n) h

one_seq-lt :
    (at b : ℕ) (seq : Option ℕ)
    → parse_cursor (some (print_cursor at)) < or_else seq 0
    → or_else seq 0 < b
    → parse_cursor (some (print_cursor (elim seq [ none ↦ at | some n ↦ n ]))) < b
one_seq-lt at b none h k = omega (arith, h, k)
one_seq-lt at b (some n) h k = omega (arith, parse_cursor-print_cursor-le n, k)

-- The number of the last event of a chunk, as it is read back, is before those of all later events.
last_seq-lt :
    (k at : ℕ) (evs : List StoredEvent) (s : StoredEvent)
    → AscendingPast at evs
    → In s (drop k evs)
    → parse_cursor (some (print_cursor (last_seq at (take k evs)))) < seq_of s
unfolding last_seq
last_seq-lt zero at evs s h m = AscendingFrom-In (parse_cursor (some (print_cursor at))) evs s h m
last_seq-lt (suc zero) at (x ∷ xs) s h m =
    one_seq-lt at (seq_of s) x.seq h.0 (AscendingFrom-In (seq_of x) xs s h.1 m)
last_seq-lt (suc (suc k)) at (x ∷ y ∷ xs) s h m =
    last_seq-lt (suc k) at (y ∷ xs) s
      (AscendingFrom-tail (parse_cursor (some (print_cursor at))) x (y ∷ xs) h) m
last_seq-lt (suc (suc zero)) at (x ∷ []) s h m = absurd m
last_seq-lt (suc (suc (suc k))) at (x ∷ []) s h m = absurd m
last_seq-lt (suc k) at [] s h m = absurd m

In-carried :
    (w : SyncEvent) (f : ServerFrame) (fs gs : List ServerFrame)
    → In w (carried (fs ++ gs))
    → In w (carried ((f ∷ fs) ++ gs))
In-carried w f fs gs m = In-append_right w (frame_events f) (carried (fs ++ gs)) m

-- Every event is carried up to the frame `f`, or comes after the cursor of `f`.
abbrev pub Covered : List ServerFrame → ServerFrame → StoredEvent → Type 0
Covered before f s = In (to_wire_event s) (carried (before ++ f ∷ [])) ⊎ (frame_cursor f < seq_of s)

In-is_empty : {A : Type 0} (s : A) (xs : List A) → In s xs → is_empty xs ≡ false
In-is_empty s (x ∷ xs) m = refl
In-is_empty s [] m = absurd m

first_frame-Covered :
    (size at : ℕ) (batch : Text) (evs : List StoredEvent) (s : StoredEvent)
    → AscendingPast at evs
    → In s evs
    → Covered [] (chunk_frame at batch (take size evs) (drop size evs)) s
first_frame-Covered size at batch evs s h m = elim (In-take-drop size s evs m) [
  | inl first ↦ inl (
      In-append_left (to_wire_event s) (map to_wire_event (take size evs)) []
        (map-In to_wire_event s (take size evs) first))
  | inr later ↦ inr (rw (In-is_empty s (drop size evs) later) (last_seq-lt size at evs s h later))
]

pub event_frames-Covered :
    (fuel size at : ℕ) (batch : Text) (evs : List StoredEvent)
    → AscendingPast at evs
    → (before : List ServerFrame) (f : ServerFrame) (after : List ServerFrame)
    → event_frames fuel size at batch evs ≡ before ++ f ∷ after
    → (s : StoredEvent) → In s evs
    → Covered before f s
unfolding event_frames
event_frames-Covered zero size at batch evs h [] f after e s m = cc e
event_frames-Covered zero size at batch evs h (g ∷ gs) f after e s m = cc e
event_frames-Covered (suc fuel) size at batch (ev ∷ evs) h [] f after e s m =
    let same : chunk_frame at batch (take size (ev ∷ evs)) (drop size (ev ∷ evs)) ≡ f = cc e in
    rw (← same) (first_frame-Covered size at batch (ev ∷ evs) s h m)
event_frames-Covered (suc fuel) size at batch (ev ∷ evs) h (g ∷ gs) f after e s m =
    let same : chunk_frame at batch (take size (ev ∷ evs)) (drop size (ev ∷ evs)) ≡ g = cc e in
    elim (In-take-drop size s (ev ∷ evs) m) [
      | inl first ↦ inl (
          In-append_left (to_wire_event s) (frame_events g) (carried (gs ++ f ∷ []))
            (rw (← same) (map-In to_wire_event s (take size (ev ∷ evs)) first)))
      | inr later ↦
          elim (event_frames-Covered fuel size at batch (drop size (ev ∷ evs))
            (AscendingFrom-drop size (parse_cursor (some (print_cursor at))) (ev ∷ evs) h) gs f
            after (cc e) s later) [
              | inl sent ↦ inl (In-carried (to_wire_event s) g gs (f ∷ []) sent)
              | inr past ↦ inr past
            ]
    ]
event_frames-Covered (suc fuel) size at batch [] h before f after e s m = absurd m
