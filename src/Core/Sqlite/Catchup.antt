-- ===== src/Core/Sqlite/Catchup.antt =====
-- Two pulls in a row from the store of backend/core/src/lib/sqlite-store.ts, with any calls of the
-- store between them, and the order of a pull's events.
use corner_tasks.Prelude.{ℕ, ◌≤◌, ◌<◌, ◌≡◌, ◌⊎◌, ap, subst, false, some, arith, In, inl, inr}
use corner_tasks.Prelude.Text.{Text}
use corner_tasks.Prelude.Int.{ℤ}
use corner_tasks.Core.Cursor.{parse_cursor}
use corner_tasks.Core.Sqlite.Rows.{EventRow, Db, counter, to_stored_event, prune_candidates}
use corner_tasks.Core.Sqlite.Methods.{
  cutoff_iso, prune_expired_archives, put_challenge, is_expired, query_events_after,
}
use corner_tasks.Core.Sqlite.Keyed.{In-delete_events}
use corner_tasks.Core.Sqlite.Seq.{
  IsWellFormed, Write, put, prune, challenge, consume, Writes, here, next, counter-put_event,
  In-put_event, consume_events, Writes-IsWellFormed,
}
use corner_tasks.Core.Sqlite.Pull.{query_events_after-In, next_cursor-le-counter}

-- After a call, a row is an old one or is numbered past the account's counter.
Write-row :
    {iso : ℤ → Text} {db u : Db}
    → Write iso db u
    → IsWellFormed db
    → (x : EventRow) → In x u.events
    → In x db.events ⊎ (counter x.account_did db.seq_counters < x.seq)
Write-row {db = db} (put ev) w x m = elim (In-put_event ev db x w.keyed m) [
  | inl old ↦ inl old
  | inr new ↦ inr (rw new (omega arith))
]
Write-row {iso = iso} {db = db} (prune now a) w x m = inl (
    In-delete_events a (prune_candidates a (cutoff_iso iso now) db.events) db.events x
      (unfold prune_expired_archives in m))
Write-row (challenge c) w x m = inl (unfold put_challenge in m)
Write-row {db = db} (consume now a c) w x m =
    inl (subst (λ rows. In x rows) (consume_events now a c db).0 m)

-- A call never lowers a counter.
Write-counter :
    {iso : ℤ → Text} {db u : Db}
    → Write iso db u
    → (a : Text) → counter a db.seq_counters ≤ counter a u.seq_counters
Write-counter {db = db} (put ev) a = ground (arith, counter-put_event a ev db)
Write-counter (prune now b) a = unfold prune_expired_archives in omega arith
Write-counter (challenge c) a = unfold put_challenge in omega arith
Write-counter {db = db} (consume now b c) a =
    omega (arith, ap (counter a) (consume_events now b c db).1)

Writes-counter :
    {iso : ℤ → Text} {db u : Db}
    → Writes iso db u
    → (a : Text) → counter a db.seq_counters ≤ counter a u.seq_counters
Writes-counter here a = omega arith
Writes-counter (next ws one) a = omega (arith, Writes-counter ws a, Write-counter one a)

Writes-row :
    {iso : ℤ → Text} {db u : Db}
    → Writes iso db u
    → IsWellFormed db
    → (x : EventRow) → In x u.events
    → In x db.events ⊎ (counter x.account_did db.seq_counters < x.seq)
Writes-row here w x m = inl m
Writes-row (next {u = v} ws one) w x m = elim (Write-row one (Writes-IsWellFormed ws w) x m) [
  | inl old ↦ Writes-row ws w x old
  | inr new ↦ inr (omega (arith, Writes-counter ws x.account_did))
]

-- From a well-formed database, and a cursor not past the account's counter: a client pulls at `now`, the store is called in any way, and the client pulls again from the
-- cursor it was given. Every snapshot past its first cursor that the store now holds, and that
-- neither pull leaves out as an expired archive, came with the first pull or comes with the second.
pub pull_misses_nothing :
    (iso : ℤ → Text) (now now' : ℕ) (a cursor : Text) (db u : Db)
    → IsWellFormed db
    → parse_cursor (some cursor) ≤ counter a db.seq_counters
    → Writes iso db u
    → (x : EventRow) → In x u.events
    → x.account_did ≡ a
    → parse_cursor (some cursor) < x.seq
    → is_expired (cutoff_iso iso now) x ≡ false
    → is_expired (cutoff_iso iso now') x ≡ false
    → In (to_stored_event x) (query_events_after iso now a cursor db).events
      ⊎ In
          (to_stored_event x)
          (query_events_after iso now' a
            (query_events_after iso now a cursor db).next_cursor
            u).events
pull_misses_nothing iso now now' a cursor db u w c ws x m mine past live live' =
    elim (Writes-row ws w x m) [
      | inl old ↦ inl (query_events_after-In iso now a cursor db x old mine past live)
      | inr new ↦ inr (
          query_events_after-In iso now' a (query_events_after iso now a cursor db).next_cursor u x
            m mine
            (omega (
              arith,
              next_cursor-le-counter iso now a cursor db w c,
              ap (λ (t : Text). counter t db.seq_counters) mine,
            ))
            live')
    ]
