-- ===== src/Core/Sqlite/Lww.antt =====
-- `putEvent` of backend/core/src/lib/sqlite-store.ts is last-writer-wins on (updatedAt, eventId).
use corner_tasks.Prelude.{
  ℕ, ◌+◌, ◌≡◌, refl, ◌∙◌, Bool, ◌&&◌, not, Option, none, some, List, [], ◌∷◌, arith, if◌then◌else◌,
  inl, inr, Bool-cases,
}
use corner_tasks.Prelude.Text.{Text, text_eq, text_eq_iff, text_lt, text_lt_total, text_lt_irrefl}
use corner_tasks.Prelude.Order.{IsStrict, lex, lex-IsStrict, text_lt-IsStrict, lt_asym}
use corner_tasks.Prelude.Latest.{latest, latest_of}
use corner_tasks.Core.Types.{StoredEvent}
use corner_tasks.Core.Sqlite.Rows.{EventRow, Db, to_stored_event, row_of, counter, get_event}
use corner_tasks.Core.Sqlite.Methods.{is_stale, put_event}
use corner_tasks.Core.Sqlite.Lookup.{get_event-upsert_event}

abbrev pub Stamp : Type 0
Stamp = Text × Text

abbrev pub stamp : StoredEvent → Stamp
stamp ev = (ev.updated_at, ev.event_id)

abbrev pub stamp_lt : Stamp → Stamp → Bool
stamp_lt = lex text_lt text_lt

pub stamp_lt-IsStrict : IsStrict stamp_lt
stamp_lt-IsStrict = lex-IsStrict text_lt text_lt text_lt-IsStrict text_lt-IsStrict

-- What a row says of its task, without the number that the server gave it.
abbrev pub content : EventRow → StoredEvent
content row = record (to_stored_event row) { seq = none }

abbrev pub content? : Option EventRow → Option StoredEvent
content? none = none
content? (some row) = some (content row)

-- The current snapshot of a task.
abbrev pub snapshot : Text → Text → Db → Option StoredEvent
snapshot a t db = content? (get_event a t db.events)

-- The early returns of `putEvent` are the order of the stamps.
pub is_stale-stamp_lt :
    (cur : EventRow) (ev : StoredEvent)
    → is_stale (some cur) ev ≡ not (stamp_lt (stamp (content cur)) (stamp ev))
unfolding is_stale
is_stale-stamp_lt cur ev = ground (
  arith,
  text_eq_iff cur.payload.updated_at ev.updated_at,
  text_lt_total cur.payload.updated_at ev.updated_at,
  text_lt_irrefl ev.updated_at,
  lt_asym text_lt-IsStrict cur.payload.updated_at ev.updated_at,
)

-- Is `ev` about task `t` of account `a`?
abbrev pub about : Text → Text → StoredEvent → Bool
about a t ev = text_eq ev.account_did a && text_eq ev.task_id t

abbrev pub without_seq : StoredEvent → StoredEvent
without_seq ev = record ev { seq = none }

-- The row that `putEvent` leaves for the event's own task, by what the table held.
unfoldable pub stored_row : Option EventRow → StoredEvent → ℕ → Option EventRow
stored_row held ev n = if is_stale held ev then held else some (row_of ev n)

pub get_event-put_event :
    (a t : Text) (ev : StoredEvent) (db : Db)
    → get_event a t (put_event ev db).0.events ≡ (
        if about a t ev
        then stored_row
            (get_event ev.account_did ev.task_id db.events)
            ev
            (counter ev.account_did db.seq_counters + 1)
        else get_event a t db.events)
unfolding put_event stored_row
get_event-put_event a t ev db =
    elim (Bool-cases (is_stale (get_event ev.account_did ev.task_id db.events) ev)) [
      | inl old ↦ rw old (ground (arith, text_eq_iff ev.account_did a, text_eq_iff ev.task_id t))
      | inr new ↦ rw (new, get_event-upsert_event)
    ]

content-stored_row :
    (held : Option EventRow) (ev : StoredEvent) (n : ℕ)
    → content? (stored_row held ev n) ≡ latest stamp_lt stamp (content? held) (without_seq ev)
unfolding stored_row
content-stored_row none ev n = unfold is_stale in refl
content-stored_row (some cur) ev n = elim (Bool-cases (stamp_lt (stamp (content cur)) (stamp ev))) [
  | inl e ↦ rw (is_stale-stamp_lt cur ev, e)
  | inr e ↦ rw (is_stale-stamp_lt cur ev, e)
]

-- A put replaces the snapshot of its own task exactly when the event's (updatedAt, eventId) is later, and
-- leaves the snapshots of all other tasks.
pub snapshot-put_event :
    (a t : Text) (ev : StoredEvent) (db : Db)
    → snapshot a t (put_event ev db).0 ≡ (
        if about a t ev
        then latest stamp_lt stamp (snapshot a t db) (without_seq ev)
        else snapshot a t db)
snapshot-put_event a t ev db = rw (get_event-put_event a t ev db) (
    ground (
      arith,
      text_eq_iff ev.account_did a,
      text_eq_iff ev.task_id t,
      content-stored_row (get_event a t db.events) ev (counter ev.account_did db.seq_counters + 1),
    ))

-- `putEvent` of each event in turn.
abbrev pub put_all : List StoredEvent → Db → Db
put_all [] db = db
put_all (ev ∷ evs) db = put_all evs (put_event ev db).0

-- The events about one task, as the store keeps them.
unfoldable pub history : Text → Text → List StoredEvent → List StoredEvent
history a t [] = []
history a t (ev ∷ evs) =
    let rest = history a t evs in if about a t ev then without_seq ev ∷ rest else rest

-- After any writes, what the store holds of a task is the latest of its events.
pub snapshot-put_all :
    (a t : Text) (evs : List StoredEvent) (db : Db)
    → snapshot a t (put_all evs db) ≡ latest_of stamp_lt stamp (snapshot a t db) (history a t evs)
unfolding history
snapshot-put_all a t [] db = refl
snapshot-put_all a t (ev ∷ evs) db = elim (Bool-cases (about a t ev)) [
  | inl e ↦ snapshot-put_all a t evs (put_event ev db).0 ∙ rw (snapshot-put_event a t ev db, e)
  | inr e ↦ snapshot-put_all a t evs (put_event ev db).0 ∙ rw (snapshot-put_event a t ev db, e)
]
