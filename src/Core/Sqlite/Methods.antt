-- ===== src/Core/Sqlite/Methods.antt =====
-- backend/core/src/lib/sqlite-store.ts: the methods of the store. `now` is what the method reads
-- from `Date.now()`; `iso` is `new Date(ms).toISOString()`, of the JavaScript runtime.
use corner_tasks.Prelude.{
  ℕ, ◌+◌, Bool, true, false, ◌&&◌, not, Option, none, some, List, [], ◌∷◌, ltb, leb, ◌==◌,
  if◌then◌else◌, length, is_empty,
}
use corner_tasks.Prelude.Text.{Text, text_eq, text_lt}
use corner_tasks.Prelude.Int.{ℤ, sub_ℕ}
use corner_tasks.Core.Types.{
  StoredEvent, PutResult, QueryEventsResult, AuthChallenge, archive_retention_ms,
}
use corner_tasks.Core.Cursor.{parse_cursor, print_cursor}
use corner_tasks.Core.Sqlite.Rows.{
  EventRow, Db, to_stored_event, row_of, counter, bump_counter, get_event, upsert_event,
  query_after, prune_candidates, delete_event, get_challenge, upsert_challenge, delete_challenge,
}

-- The row that the insertion returns.
unfoldable pub next_seq : Text → Db → Db × ℕ
next_seq a db =
    (record db { seq_counters = bump_counter a db.seq_counters }, counter a db.seq_counters + 1)

-- The two early returns of `putEvent`, of the row that the table holds.
unfoldable pub is_stale : Option EventRow → StoredEvent → Bool
is_stale none ev = false
is_stale (some cur) ev =
    if text_lt ev.updated_at cur.payload.updated_at
    then true
    else text_eq cur.payload.updated_at ev.updated_at
      && not (text_lt cur.payload.event_id ev.event_id)

-- The number is allocated first, also where the event is then refused.
unfoldable pub put_event : StoredEvent → Db → Db × PutResult
unfolding next_seq is_stale
put_event ev db =
    let (db', n) = next_seq ev.account_did db in
    if is_stale (get_event ev.account_did ev.task_id db'.events) ev
    then (db', record { accepted = false; seq = none })
    else (
      record db' { events = upsert_event (row_of ev n) db'.events },
      record { accepted = true; seq = some n },
    )

-- The empty text is falsy, so a row with it is kept.
unfoldable pub is_expired : Text → EventRow → Bool
is_expired cutoff row = elim row.archived_completed_at [
  | none ↦ false
  | some at ↦ not (is_empty at) && text_lt at cutoff
]

unfoldable pub live_rows : Text → List EventRow → List StoredEvent
unfolding is_expired
live_rows cutoff [] = []
live_rows cutoff (row ∷ rows) =
    let rest = live_rows cutoff rows in
    if is_expired cutoff row then rest else to_stored_event row ∷ rest

-- `(acc, ev) => (ev.seq && ev.seq > acc ? ev.seq : acc)`
abbrev pub later_seq : ℕ → Option ℕ → ℕ
later_seq acc none = acc
later_seq acc (some n) = if not (n == 0) && ltb acc n then n else acc

unfoldable pub max_seq : ℕ → List StoredEvent → ℕ
max_seq acc [] = acc
max_seq acc (ev ∷ evs) = max_seq (later_seq acc ev.seq) evs

unfoldable pub delete_events : Text → List Text → List EventRow → List EventRow
delete_events a [] rows = rows
delete_events a (t ∷ ts) rows = delete_events a ts (delete_event a t rows)

module _ (iso : ℤ → Text) where
  abbrev pub cutoff_iso : ℕ → Text
  cutoff_iso now = iso (sub_ℕ now archive_retention_ms)

  unfoldable pub query_events_after : ℕ → Text → Text → Db → QueryEventsResult
  unfolding live_rows max_seq
  query_events_after now a cursor db =
      let n = parse_cursor (some cursor) in
      let out = live_rows (cutoff_iso now) (query_after a n db.events) in
      record { events = out; next_cursor = print_cursor (max_seq n out) }

  unfoldable pub prune_expired_archives : ℕ → Text → Db → Db × ℕ
  unfolding delete_events
  prune_expired_archives now a db =
      let candidates = prune_candidates a (cutoff_iso now) db.events in
      (record db { events = delete_events a candidates db.events }, length candidates)

unfoldable pub put_challenge : AuthChallenge → Db → Db
put_challenge c db = record db {
  challenges =
      upsert_challenge
        (record { account_did = c.account_did; challenge = c.challenge; expires_at = c.expires_at })
        db.challenges;
}

unfoldable pub consume_challenge : ℕ → Text → Text → Db → Db × Bool
consume_challenge now a c db = elim (get_challenge a c db.challenges) [
  | none ↦ (db, false)
  | some expires_at ↦
      (record db { challenges = delete_challenge a c db.challenges }, leb now expires_at)
]
