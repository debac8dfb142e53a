-- ===== src/Core/Sqlite/Keyed.antt =====
-- The primary key of the events table of backend/core/src/lib/sqlite-store.ts under its statements.
use corner_tasks.Prelude.{
  ◌≡◌, ◌⊎◌, refl, Bool, false, not, none, some, List, [], ◌∷◌, arith, filter, In, In-filter, inl,
  inr,
}
use corner_tasks.Prelude.Text.{Text, text_eq_iff}
use corner_tasks.Core.Sqlite.Rows.{EventRow, has_key, get_event, upsert_event, delete_event}
use corner_tasks.Core.Sqlite.Methods.{delete_events}
use corner_tasks.Core.Sqlite.Lookup.{get_event-upsert_event}

-- PRIMARY KEY (account_did, task_id)
abbrev pub IsKeyed : List EventRow → Type 0
IsKeyed [] = Unit
IsKeyed (row ∷ rows) = (get_event row.account_did row.task_id rows ≡ none) × IsKeyed rows

pub has_key-get_event-none :
    (a t : Text) (rows : List EventRow) (row : EventRow)
    → get_event a t rows ≡ none
    → In row rows
    → has_key a t row ≡ false
unfolding get_event
has_key-get_event-none a t [] row h m = absurd m
has_key-get_event-none a t (r ∷ rows) row h (inl e) = rw e (ground arith)
has_key-get_event-none a t (r ∷ rows) row h (inr m) =
    has_key-get_event-none a t rows row (ground arith) m

pub get_event-In :
    (a t : Text) (rows : List EventRow) (row : EventRow)
    → get_event a t rows ≡ some row
    → In row rows
unfolding get_event
get_event-In a t [] row h = cc
get_event-In a t (r ∷ rows) row h = ground (arith, get_event-In a t rows row)

pub upsert_event-IsKeyed :
    (new : EventRow) (rows : List EventRow) → IsKeyed rows → IsKeyed (upsert_event new rows)
unfolding upsert_event get_event
upsert_event-IsKeyed new [] h = (refl, tt)
upsert_event-IsKeyed new (row ∷ rows) h = ground (
  arith,
  upsert_event-IsKeyed new rows,
  get_event-upsert_event row.account_did row.task_id new rows,
  text_eq_iff row.account_did new.account_did,
  text_eq_iff row.task_id new.task_id,
  text_eq_iff new.account_did row.account_did,
  text_eq_iff new.task_id row.task_id,
)

-- What the table holds after an upsert: the new row, and the rows with another key.
pub In-upsert_event :
    (new : EventRow) (rows : List EventRow) (x : EventRow)
    → IsKeyed rows
    → In x (upsert_event new rows)
    → (x ≡ new) ⊎ (In x rows × (has_key new.account_did new.task_id x ≡ false))
unfolding upsert_event
In-upsert_event new [] x h (inl e) = inl e
In-upsert_event new [] x h (inr m) = absurd m
In-upsert_event new (row ∷ rows) x h m = ground (
  arith,
  In-upsert_event new rows x,
  has_key-get_event-none row.account_did row.task_id rows x h.0,
  text_eq_iff row.account_did new.account_did,
  text_eq_iff row.task_id new.task_id,
)

pub get_event-filter :
    (p : EventRow → Bool) (a t : Text) (rows : List EventRow)
    → get_event a t rows ≡ none
    → get_event a t (filter p rows) ≡ none
unfolding filter get_event
get_event-filter p a t [] h = h
get_event-filter p a t (row ∷ rows) h = ground (arith, get_event-filter p a t rows)

pub filter-IsKeyed :
    (p : EventRow → Bool) (rows : List EventRow) → IsKeyed rows → IsKeyed (filter p rows)
unfolding filter
filter-IsKeyed p [] h = h
filter-IsKeyed p (row ∷ rows) h =
    ground (arith, filter-IsKeyed p rows, get_event-filter p row.account_did row.task_id rows)

pub delete_events-IsKeyed :
    (a : Text) (ts : List Text) (rows : List EventRow)
    → IsKeyed rows
    → IsKeyed (delete_events a ts rows)
unfolding delete_events delete_event
delete_events-IsKeyed a [] rows h = h
delete_events-IsKeyed a (t ∷ ts) rows h =
    delete_events-IsKeyed a ts (delete_event a t rows)
      (filter-IsKeyed (λ row. not (has_key a t row)) rows h)

pub In-delete_events :
    (a : Text) (ts : List Text) (rows : List EventRow) (x : EventRow)
    → In x (delete_events a ts rows)
    → In x rows
unfolding delete_events delete_event
In-delete_events a [] rows x m = m
In-delete_events a (t ∷ ts) rows x m =
    (In-filter (λ row. not (has_key a t row)) x rows
      (In-delete_events a ts (delete_event a t rows) x m)).0
