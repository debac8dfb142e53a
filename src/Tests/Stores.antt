-- ===== src/Tests/Stores.antt =====
-- The theorems about the SQLite store, at small inputs.
use corner_tasks.Prelude.{
  ◌≡◌, ◌≤◌, ◌<◌, ◌↔◌, ◌⊎◌, refl, sym, ap, true, false, some, List, [], ◌∷◌, arith, inl, inr, In,
}
use corner_tasks.Prelude.Text.{Text, codes, text_eq, text_eq_iff, text_lt}
use corner_tasks.Core.Types.{StoredEvent, AuthChallenge, QueryEventsResult}
use corner_tasks.Core.Cursor.{double_of, parse_cursor, print_cursor, parse_cursor-print_cursor}
use corner_tasks.Core.Sqlite.Rows.{
  EventRow, Db, create_schema, to_stored_event, row_of, counter, get_event, upsert_event,
  bump_counter, ChallengeRow,
}
use corner_tasks.Core.Sqlite.Methods.{
  put_event, query_events_after, prune_expired_archives, put_challenge, consume_challenge,
  is_expired, cutoff_iso,
}
use corner_tasks.Core.Sqlite.Lww.{snapshot, put_all, stamp, stamp_lt, snapshot-put_event}
use corner_tasks.Prelude.Latest.{latest}
use corner_tasks.Core.Sqlite.Convergence.{HasDistinctStamps, put_all_converges}
use corner_tasks.Core.Sqlite.Seq.{
  IsWellFormed, here, next, put, create_schema-IsWellFormed, Writes-IsWellFormed,
  put_event-IsWellFormed,
}
use corner_tasks.Core.Sqlite.Pull.{
  query_events_after_exact, next_cursor_grows, next_cursor-le-counter,
}
use corner_tasks.Core.Sqlite.Catchup.{pull_misses_nothing}
use corner_tasks.Core.Sqlite.Ascending.{AscendingFrom, query_events_after-AscendingFrom}
use corner_tasks.Core.Sqlite.Challenges.{
  IsFor, HaveKeys, put_challenge-HaveKeys, consume_challenge_exact,
}
use corner_tasks.Core.Sqlite.Pruning.{prunes, prune_exact}
use corner_tasks.Tests.Fixtures.{alice, milk, monday, tuesday, iso}

abbrev in_order : List StoredEvent
in_order = monday ∷ tuesday ∷ []

abbrev disordered : List StoredEvent
disordered = tuesday ∷ monday ∷ tuesday ∷ []

in_order-disordered : (ev : StoredEvent) → In ev in_order → In ev disordered
in_order-disordered ev (inl e) = inr (inl e)
in_order-disordered ev (inr (inl e)) = inl e
in_order-disordered ev (inr (inr m)) = absurd m

disordered-in_order : (ev : StoredEvent) → In ev disordered → In ev in_order
disordered-in_order ev (inl e) = inr (inl e)
disordered-in_order ev (inr (inl e)) = inl e
disordered-in_order ev (inr (inr (inl e))) = inr (inl e)
disordered-in_order ev (inr (inr (inr m))) = absurd m

days_differ : ¬ (stamp monday ≡ stamp tuesday)
unfolding text_eq
days_differ e = cc ((text_eq_iff monday.event_id tuesday.event_id).1 (ap (λ s. s.1) e))

in_order-HasDistinctStamps : HasDistinctStamps in_order
in_order-HasDistinctStamps x y (inl e) (inl f) a t s = rw (e, f) refl
in_order-HasDistinctStamps x y (inl e) (inr (inl f)) a t s = absurd (days_differ (rw (e, f) at s))
in_order-HasDistinctStamps x y (inr (inl e)) (inl f) a t s =
    absurd (days_differ (sym (rw (e, f) at s)))
in_order-HasDistinctStamps x y (inr (inl e)) (inr (inl f)) a t s = rw (e, f) refl
in_order-HasDistinctStamps x y (inl e) (inr (inr f)) a t s = absurd f
in_order-HasDistinctStamps x y (inr (inl e)) (inr (inr f)) a t s = absurd f
in_order-HasDistinctStamps x y (inr (inr e)) m a t s = absurd e

put_all_converges_example :
    snapshot alice milk (put_all in_order create_schema)
    ≡ snapshot alice milk (put_all disordered create_schema)
put_all_converges_example =
    put_all_converges in_order disordered alice milk in_order-disordered disordered-in_order
      in_order-HasDistinctStamps

snapshot_test : snapshot alice milk (put_all disordered create_schema) ≡ some tuesday
unfolding put_event create_schema get_event upsert_event text_eq text_lt
snapshot_test = refl

abbrev first_cursor : Text
first_cursor = codes "0"

abbrev one_row : Db
one_row = (put_event monday create_schema).0

abbrev two_puts : Db
two_puts = (put_event tuesday one_row).0

one_row-IsWellFormed : IsWellFormed one_row
one_row-IsWellFormed = put_event-IsWellFormed monday create_schema create_schema-IsWellFormed

Writes-IsWellFormed_example : IsWellFormed two_puts
Writes-IsWellFormed_example =
    Writes-IsWellFormed {iso = iso} (next (next here (put monday)) (put tuesday))
      create_schema-IsWellFormed

snapshot-put_event_example :
    snapshot alice milk two_puts ≡ latest stamp_lt stamp (snapshot alice milk one_row) tuesday
unfolding get_event text_eq
snapshot-put_event_example = snapshot-put_event alice milk tuesday one_row

abbrev latest_row : EventRow
latest_row = row_of tuesday 2

abbrev first_pull : QueryEventsResult
first_pull = query_events_after iso 0 alice first_cursor one_row

pull_misses_nothing_example :
    In (to_stored_event latest_row) first_pull.events
    ⊎ In
        (to_stored_event latest_row)
        (query_events_after iso 1 alice first_pull.next_cursor two_puts).events
unfolding put_event create_schema text_eq parse_cursor counter get_event upsert_event text_lt
    bump_counter is_expired double_of
pull_misses_nothing_example =
    pull_misses_nothing iso 0 1 alice first_cursor one_row two_puts one_row-IsWellFormed
      (omega arith) (next here (put tuesday)) latest_row (inl refl) refl (omega arith) refl refl

query_events_after_exact_example :
    In (to_stored_event latest_row) (query_events_after iso 0 alice first_cursor two_puts).events
    ↔ ((x : EventRow) × In x two_puts.events
        × (x.account_did ≡ alice)
        × (parse_cursor (some first_cursor) < x.seq)
        × (is_expired (cutoff_iso iso 0) x ≡ false)
        × (to_stored_event latest_row ≡ to_stored_event x))
query_events_after_exact_example =
    query_events_after_exact iso 0 alice first_cursor two_puts (to_stored_event latest_row)

next_cursor_grows_example :
    parse_cursor (some first_cursor) ≤ parse_cursor (some first_pull.next_cursor)
unfolding parse_cursor double_of counter put_event get_event create_schema bump_counter text_eq
next_cursor_grows_example =
    next_cursor_grows iso 0 alice first_cursor one_row one_row-IsWellFormed (omega arith)
      (omega arith)

next_cursor-le-counter_example :
    parse_cursor (some first_pull.next_cursor) ≤ counter alice one_row.seq_counters
unfolding put_event create_schema text_eq parse_cursor counter double_of get_event
next_cursor-le-counter_example =
    next_cursor-le-counter iso 0 alice first_cursor one_row one_row-IsWellFormed (omega arith)

query_events_after-AscendingFrom_example :
    AscendingFrom
      (parse_cursor (some first_cursor))
      (query_events_after iso 0 alice first_cursor one_row).events
query_events_after-AscendingFrom_example =
    query_events_after-AscendingFrom iso 0 alice first_cursor one_row one_row-IsWellFormed

prune_exact_example :
    In latest_row (prune_expired_archives iso 0 alice one_row).0.events
    ↔ (In latest_row one_row.events × (prunes alice (cutoff_iso iso 0) latest_row ≡ false))
prune_exact_example = prune_exact iso 0 alice one_row one_row-IsWellFormed latest_row

abbrev a_challenge : AuthChallenge
a_challenge = record { account_did = alice; challenge = codes "once"; expires_at = 9 }

abbrev challenged : Db
challenged = put_challenge a_challenge create_schema

challenged-HaveKeys : HaveKeys challenged.challenges
unfolding create_schema
challenged-HaveKeys = put_challenge-HaveKeys a_challenge create_schema tt

consume_challenge_exact_example :
    (((consume_challenge 9 alice (codes "once") challenged).1 ≡ true) ↔ (
      (row : ChallengeRow) × In row challenged.challenges
      × IsFor alice (codes "once") row
      × (9 ≤ row.expires_at)))
    × ((row : ChallengeRow)
        → In row (consume_challenge 9 alice (codes "once") challenged).0.challenges
          ↔ (In row challenged.challenges × ¬ (IsFor alice (codes "once") row)))
consume_challenge_exact_example =
    consume_challenge_exact 9 alice (codes "once") challenged challenged-HaveKeys

parse_cursor-print_cursor_example : parse_cursor (some (print_cursor 1203)) ≡ 1203
parse_cursor-print_cursor_example = parse_cursor-print_cursor 1203 (omega arith)
