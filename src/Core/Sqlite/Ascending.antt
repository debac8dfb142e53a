-- ===== src/Core/Sqlite/Ascending.antt =====
-- The order in which `queryEventsAfter` of backend/core/src/lib/sqlite-store.ts returns events.
use corner_tasks.Prelude.{
  ℕ, ◌≤◌, ◌<◌, ◌≡◌, ◌≢◌, refl, true, List, [], ◌∷◌, arith, In, inl, inr, filter, In-filter,
  Bool-cases, or_else, some, ltb→lt,
}
use corner_tasks.Prelude.Text.{Text, text_eq_iff}
use corner_tasks.Prelude.Int.{ℤ}
use corner_tasks.Core.Types.{StoredEvent}
use corner_tasks.Core.Cursor.{parse_cursor}
use corner_tasks.Core.Sqlite.Rows.{EventRow, Db, insert_by_seq, sort_by_seq, query_after}
use corner_tasks.Core.Sqlite.Methods.{is_expired, live_rows, cutoff_iso, query_events_after}
use corner_tasks.Core.Sqlite.Keyed.{IsKeyed, has_key-get_event-none}
use corner_tasks.Core.Sqlite.Seq.{IsWellFormed}
use corner_tasks.Core.Sqlite.Pull.{asks, sort_by_seq-In}

-- The numbers rise strictly, the first of them past `n`.
abbrev RowsFrom : ℕ → List EventRow → Type 0
RowsFrom n [] = Unit
RowsFrom n (x ∷ xs) = (n < x.seq) × RowsFrom x.seq xs

abbrev pub AscendingFrom : ℕ → List StoredEvent → Type 0
AscendingFrom n [] = Unit
AscendingFrom n (s ∷ ss) = (n < or_else s.seq 0) × AscendingFrom (or_else s.seq 0) ss

abbrev HasDistinctSeqs : List EventRow → Type 0
HasDistinctSeqs [] = Unit
HasDistinctSeqs (x ∷ xs) = ((y : EventRow) → In y xs → x.seq ≢ y.seq) × HasDistinctSeqs xs

insert_by_seq-RowsFrom :
    (n : ℕ) (new : EventRow) (rows : List EventRow)
    → RowsFrom n rows
    → n < new.seq
    → ((y : EventRow) → In y rows → new.seq ≢ y.seq)
    → RowsFrom n (insert_by_seq new rows)
unfolding insert_by_seq
insert_by_seq-RowsFrom n new [] h lt d = (lt, tt)
insert_by_seq-RowsFrom n new (row ∷ rows) h lt d = ground (
  arith,
  d row (inl refl),
  λ (below : row.seq < new.seq).
      insert_by_seq-RowsFrom row.seq new rows h.1 below (λ y m. d y (inr m)),
)

sort_by_seq-RowsFrom :
    (n : ℕ) (rows : List EventRow)
    → ((x : EventRow) → In x rows → n < x.seq)
    → HasDistinctSeqs rows
    → RowsFrom n (sort_by_seq rows)
unfolding sort_by_seq
sort_by_seq-RowsFrom n [] past d = tt
sort_by_seq-RowsFrom n (row ∷ rows) past d =
    insert_by_seq-RowsFrom n row (sort_by_seq rows)
      (sort_by_seq-RowsFrom n rows (λ x m. past x (inr m)) d.1) (past row (inl refl))
      (λ y m. d.0 y ((sort_by_seq-In rows y).1 m))

-- Two rows of one account with one number would be one row, which the key rules out.
head_distinct :
    (a : Text) (n : ℕ) (row : EventRow) (rows : List EventRow)
    → IsKeyed (row ∷ rows)
    → ((x y : EventRow)
        → In x (row ∷ rows)
        → In y (row ∷ rows)
        → x.account_did ≡ y.account_did
        → x.seq ≡ y.seq
        → x ≡ y)
    → asks a n row ≡ true
    → (y : EventRow) → In y (filter (asks a n) rows)
    → row.seq ≢ y.seq
head_distinct a n row rows keyed spaced mine y m e =
    let (at, theirs) = In-filter (asks a n) y rows m in
    let same : row ≡ y =
      spaced row y (inl refl) (inr at)
        (ground (arith, text_eq_iff row.account_did a, text_eq_iff y.account_did a)) e in
    ground (
      arith,
      has_key-get_event-none row.account_did row.task_id rows y keyed.0 at,
      text_eq_iff y.account_did row.account_did,
      text_eq_iff y.task_id row.task_id,
      same,
    )

filter_distinct :
    (a : Text) (n : ℕ) (rows : List EventRow)
    → IsKeyed rows
    → ((x y : EventRow)
        → In x rows
        → In y rows
        → x.account_did ≡ y.account_did
        → x.seq ≡ y.seq
        → x ≡ y)
    → HasDistinctSeqs (filter (asks a n) rows)
unfolding filter
filter_distinct a n [] keyed spaced = tt
filter_distinct a n (row ∷ rows) keyed spaced =
    let rest : HasDistinctSeqs (filter (asks a n) rows) =
      filter_distinct a n rows keyed.1 (λ x y mx my. spaced x y (inr mx) (inr my)) in
    elim (Bool-cases (asks a n row)) [
      | inl e ↦ rw e (head_distinct a n row rows keyed spaced e, rest)
      | inr e ↦ rw e rest
    ]

pub AscendingFrom-lower :
    (m n : ℕ) (ss : List StoredEvent) → n ≤ m → AscendingFrom m ss → AscendingFrom n ss
AscendingFrom-lower m n [] le h = tt
AscendingFrom-lower m n (s ∷ ss) le h = (omega arith, h.1)

live_rows-AscendingFrom :
    (cutoff : Text) (n : ℕ) (rows : List EventRow)
    → RowsFrom n rows
    → AscendingFrom n (live_rows cutoff rows)
unfolding live_rows
live_rows-AscendingFrom cutoff n [] h = tt
live_rows-AscendingFrom cutoff n (row ∷ rows) h = elim (Bool-cases (is_expired cutoff row)) [
  | inl e ↦ rw e (
      AscendingFrom-lower row.seq n (live_rows cutoff rows) (omega arith)
        (live_rows-AscendingFrom cutoff row.seq rows h.1))
  | inr e ↦ rw e (h.0, live_rows-AscendingFrom cutoff row.seq rows h.1)
]

-- From a well-formed database, the numbers of the events that a pull returns rise strictly, and the first
-- of them is past the cursor.
pub query_events_after-AscendingFrom :
    (iso : ℤ → Text) (now : ℕ) (a cursor : Text) (db : Db)
    → IsWellFormed db
    → AscendingFrom (parse_cursor (some cursor)) (query_events_after iso now a cursor db).events
unfolding query_events_after query_after
query_events_after-AscendingFrom iso now a cursor db w =
    live_rows-AscendingFrom (cutoff_iso iso now) (parse_cursor (some cursor)) _ (
      sort_by_seq-RowsFrom (parse_cursor (some cursor))
        (filter (asks a (parse_cursor (some cursor))) db.events)
        (λ x m.
          let (at, asked) = In-filter (asks a (parse_cursor (some cursor))) x db.events m in
          ltb→lt (parse_cursor (some cursor)) x.seq (ground (arith, asked)))
        (filter_distinct a (parse_cursor (some cursor)) db.events w.keyed w.spaced))
