-- ===== src/Core/Sqlite/Pull.antt =====
-- `queryEventsAfter` of backend/core/src/lib/sqlite-store.ts: what a pull returns, and that a
-- client that goes on from the cursor it was given misses nothing.
use corner_tasks.Prelude.{
  subst, ◌↔◌, ℕ, ◌≤◌, ◌^◌, ◌-◌, ◌<◌, ◌≡◌, ◌⊎◌, refl, sym, Bool, true, false, ◌&&◌, some, List, [],
  ◌∷◌, arith, if◌then◌else◌, ltb, In, inl, inr, filter, In-filter, filter-In,
}
use corner_tasks.Prelude.Text.{Text, text_eq, text_eq_iff}
use corner_tasks.Prelude.Int.{ℤ}
use corner_tasks.Core.Types.{StoredEvent}
use corner_tasks.Core.Cursor.{parse_cursor, parse_cursor-print_cursor, parse_cursor-print_cursor-le}
use corner_tasks.Core.Sqlite.Rows.{
  EventRow, Db, counter, to_stored_event, insert_by_seq, sort_by_seq, query_after,
}
use corner_tasks.Core.Sqlite.Methods.{
  cutoff_iso, is_expired, live_rows, later_seq, max_seq, query_events_after,
}
use corner_tasks.Core.Sqlite.Seq.{IsWellFormed}

pub insert_by_seq-In :
    (new : EventRow) (rows : List EventRow) (x : EventRow)
    → ((x ≡ new) ⊎ In x rows → In x (insert_by_seq new rows))
      × (In x (insert_by_seq new rows) → (x ≡ new) ⊎ In x rows)
unfolding insert_by_seq
insert_by_seq-In new [] x = (λ h. h, λ h. h)
insert_by_seq-In new (row ∷ rows) x = (
  λ h. ground (arith, (insert_by_seq-In new rows x).0),
  λ h. ground (arith, (insert_by_seq-In new rows x).1),
)

-- Sorting keeps the rows.
pub sort_by_seq-In :
    (rows : List EventRow) (x : EventRow)
    → (In x rows → In x (sort_by_seq rows)) × (In x (sort_by_seq rows) → In x rows)
unfolding sort_by_seq
sort_by_seq-In [] x = (λ h. h, λ h. h)
sort_by_seq-In (row ∷ rows) x = (
  λ h. ground (arith, (insert_by_seq-In row (sort_by_seq rows) x).0, (sort_by_seq-In rows x).0),
  λ h. ground (arith, (insert_by_seq-In row (sort_by_seq rows) x).1, (sort_by_seq-In rows x).1),
)

live_rows-In :
    (cutoff : Text) (rows : List EventRow) (x : EventRow)
    → In x rows
    → is_expired cutoff x ≡ false
    → In (to_stored_event x) (live_rows cutoff rows)
unfolding live_rows
live_rows-In cutoff [] x m h = absurd m
live_rows-In cutoff (row ∷ rows) x (inl e) h = rw (← e, h) (inl refl)
live_rows-In cutoff (row ∷ rows) x (inr m) h = ground (arith, live_rows-In cutoff rows x m h)

In-live_rows :
    (cutoff : Text) (rows : List EventRow) (s : StoredEvent)
    → In s (live_rows cutoff rows)
    → (x : EventRow) × In x rows × (is_expired cutoff x ≡ false) × (s ≡ to_stored_event x)
unfolding live_rows
In-live_rows cutoff [] s m = absurd m
In-live_rows cutoff (row ∷ rows) s m =
    go (is_expired cutoff row) refl (In-live_rows cutoff rows s) m
  where
    Found : List EventRow → Type 0
    Found rs = (x : EventRow) × In x rs × (is_expired cutoff x ≡ false) × (s ≡ to_stored_event x)

    later : Found rows → Found (row ∷ rows)
    later (x, at, h, e) = (x, inr at, h, e)

    go :
        (b : Bool)
        → is_expired cutoff row ≡ b
        → (In s (live_rows cutoff rows) → Found rows)
        → In s (if b then live_rows cutoff rows else to_stored_event row ∷ live_rows cutoff rows)
        → Found (row ∷ rows)
    go true k ih at = later (ih at)
    go false k ih (inl e) = (row, inl refl, k, e)
    go false k ih (inr at) = later (ih at)

abbrev pub asks : Text → ℕ → EventRow → Bool
asks a n row = text_eq row.account_did a && ltb n row.seq

In-query_after :
    (a : Text) (n : ℕ) (rows : List EventRow) (x : EventRow)
    → In x (query_after a n rows)
    → In x rows × (x.account_did ≡ a) × (n < x.seq)
unfolding query_after
In-query_after a n rows x m =
    let (at, h) = In-filter (asks a n) x rows ((sort_by_seq-In (filter (asks a n) rows) x).1 m) in
    (at, ground (arith, text_eq_iff x.account_did a), ground arith)

query_after-In :
    (a : Text) (n : ℕ) (rows : List EventRow) (x : EventRow)
    → In x rows
    → x.account_did ≡ a
    → n < x.seq
    → In x (query_after a n rows)
unfolding query_after
query_after-In a n rows x m e h =
    (sort_by_seq-In (filter (asks a n) rows) x).0
      (filter-In (asks a n) x rows m (ground (arith, text_eq_iff x.account_did a)))

-- The numbers of the events are at most `b`.
abbrev AtMost : ℕ → List StoredEvent → Type 0
AtMost b evs = (s : StoredEvent) → In s evs → later_seq 0 s.seq ≤ b

max_seq_grows : (acc : ℕ) (evs : List StoredEvent) → acc ≤ max_seq acc evs
unfolding max_seq
max_seq_grows acc [] = omega arith
max_seq_grows acc (ev ∷ evs) = ground (arith, max_seq_grows (later_seq acc ev.seq) evs)

max_seq-le : (b acc : ℕ) (evs : List StoredEvent) → acc ≤ b → AtMost b evs → max_seq acc evs ≤ b
unfolding max_seq
max_seq-le b acc [] h all = h
max_seq-le b acc (ev ∷ evs) h all =
    max_seq-le b (later_seq acc ev.seq) evs (ground (arith, all ev (inl refl)))
      (λ s m. all s (inr m))

module _ (iso : ℤ → Text) (now : ℕ) (a cursor : Text) (db : Db) where
  pub In-query_events_after :
      (s : StoredEvent)
      → In s (query_events_after iso now a cursor db).events
      → (x : EventRow) × In x db.events
        × (x.account_did ≡ a)
        × (parse_cursor (some cursor) < x.seq)
        × (is_expired (cutoff_iso iso now) x ≡ false)
        × (s ≡ to_stored_event x)
  unfolding query_events_after
  In-query_events_after s m =
      let (x, at, h, e) =
        In-live_rows (cutoff_iso iso now) (query_after a (parse_cursor (some cursor)) db.events) s
          m in
      let (old, mine, past) = In-query_after a (parse_cursor (some cursor)) db.events x at in
      (x, old, mine, past, h, e)

  pub query_events_after-In :
      (x : EventRow)
      → In x db.events
      → x.account_did ≡ a
      → parse_cursor (some cursor) < x.seq
      → is_expired (cutoff_iso iso now) x ≡ false
      → In (to_stored_event x) (query_events_after iso now a cursor db).events
  unfolding query_events_after
  query_events_after-In x m e h live =
      live_rows-In (cutoff_iso iso now) (query_after a (parse_cursor (some cursor)) db.events) x
        (query_after-In a (parse_cursor (some cursor)) db.events x m e h) live

  -- A pull returns exactly the account's rows that are past the cursor and are not expired archives.
  pub query_events_after_exact :
      (s : StoredEvent)
      → In s (query_events_after iso now a cursor db).events ↔ (
          (x : EventRow) × In x db.events
          × (x.account_did ≡ a)
          × (parse_cursor (some cursor) < x.seq)
          × (is_expired (cutoff_iso iso now) x ≡ false)
          × (s ≡ to_stored_event x))
  query_events_after_exact s = (
    In-query_events_after s,
    λ found.
        let (x, m, mine, past, live, same) = found in
        subst (λ t. In t (query_events_after iso now a cursor db).events) (sym same)
          (query_events_after-In x m mine past live),
  )

  next_cursor-le-max_seq :
      parse_cursor (some (query_events_after iso now a cursor db).next_cursor)
      ≤ max_seq (parse_cursor (some cursor)) (query_events_after iso now a cursor db).events
  unfolding query_events_after
  next_cursor-le-max_seq = parse_cursor-print_cursor-le _

  max_seq-le-counter :
      IsWellFormed db
      → (b : ℕ) → parse_cursor (some cursor) ≤ b
      → counter a db.seq_counters ≤ b
      → max_seq (parse_cursor (some cursor)) (query_events_after iso now a cursor db).events ≤ b
  max_seq-le-counter w b h k = max_seq-le b (parse_cursor (some cursor)) _ h (λ s m.
      let (x, at, mine, past, live, e) = In-query_events_after s m in
      ground (arith, e, w.numbered x at, mine, k))

  -- In a well-formed database, where the cursor of a client and the account's counter are integers below 2^53: the
  -- next cursor of a pull is not before the cursor that it was asked from.
  pub next_cursor_grows :
      IsWellFormed db
      → parse_cursor (some cursor) < 2 ^ 53
      → counter a db.seq_counters < 2 ^ 53
      → parse_cursor (some cursor)
        ≤ parse_cursor (some (query_events_after iso now a cursor db).next_cursor)
  unfolding query_events_after
  next_cursor_grows w h k =
      let small = max_seq-le-counter w (2 ^ 53 - 1) (omega (arith, h)) (omega (arith, k)) in
      omega (
        arith,
        parse_cursor-print_cursor
            (max_seq (parse_cursor (some cursor)) (query_events_after iso now a cursor db).events)
            (omega (arith, small)),
        max_seq_grows (parse_cursor (some cursor)) (query_events_after iso now a cursor db).events,
      )

  -- In a well-formed database, and from a cursor that does not, the next cursor does not pass the last
  -- number that the account has given out.
  pub next_cursor-le-counter :
      IsWellFormed db
      → parse_cursor (some cursor) ≤ counter a db.seq_counters
      → parse_cursor (some (query_events_after iso now a cursor db).next_cursor)
        ≤ counter a db.seq_counters
  next_cursor-le-counter w h = omega (
    arith,
    next_cursor-le-max_seq,
    max_seq-le-counter w (counter a db.seq_counters) h (omega arith),
  )
