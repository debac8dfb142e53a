-- ===== src/Core/Sqlite/Seq.antt =====
-- The sequence numbers of backend/core/src/lib/sqlite-store.ts: an invariant of the tables that
-- every method keeps, over any run of the store.
use corner_tasks.Prelude.{
  ℕ, ◌+◌, ◌≤◌, ◌≡◌, ◌⊎◌, refl, sym, ◌∙◌, ap, List, arith, if◌then◌else◌, In, inl, inr, Bool-cases,
}
use corner_tasks.Prelude.Text.{Text, text_eq, text_eq_refl}
use corner_tasks.Prelude.Int.{ℤ}
use corner_tasks.Core.Types.{StoredEvent, AuthChallenge}
use corner_tasks.Core.Sqlite.Rows.{
  EventRow, Db, create_schema, row_of, counter, get_event, prune_candidates,
}
use corner_tasks.Core.Sqlite.Methods.{
  is_stale, put_event, delete_events, cutoff_iso, prune_expired_archives, put_challenge,
  consume_challenge,
}
use corner_tasks.Core.Sqlite.Lookup.{counter-bump_counter}
use corner_tasks.Core.Sqlite.Keyed.{
  IsKeyed, upsert_event-IsKeyed, In-upsert_event, delete_events-IsKeyed, In-delete_events,
}

pub record IsWellFormed (db : Db) : Type 0 where
  pub keyed : IsKeyed db.events
  pub numbered :
      (x : EventRow)
      → In x db.events
      → (1 ≤ x.seq) × (x.seq ≤ counter x.account_did db.seq_counters)
  pub spaced :
      (x y : EventRow)
      → In x db.events
      → In y db.events
      → x.account_did ≡ y.account_did
      → x.seq ≡ y.seq
      → x ≡ y

-- One call of a method of the store.
pub data Write (iso : ℤ → Text) (db : Db) : Db → Type 0 where
  put : (ev : StoredEvent) → Write iso db (put_event ev db).0
  prune : (now : ℕ) (a : Text) → Write iso db (prune_expired_archives iso now a db).0
  challenge : (c : AuthChallenge) → Write iso db (put_challenge c db)
  consume : (now : ℕ) (a c : Text) → Write iso db (consume_challenge now a c db).0

pub data Writes (iso : ℤ → Text) (db : Db) : Db → Type 0 where
  here : Writes iso db db
  next : {u v : Db} → Writes iso db u → Write iso u v → Writes iso db v

pub counter-put_event :
    (a : Text) (ev : StoredEvent) (db : Db)
    → counter a (put_event ev db).0.seq_counters ≡ (
        if text_eq ev.account_did a
        then counter a db.seq_counters + 1
        else counter a db.seq_counters)
unfolding put_event
counter-put_event a ev db =
    elim (Bool-cases (is_stale (get_event ev.account_did ev.task_id db.events) ev)) [
      | inl old ↦ rw old (counter-bump_counter a ev.account_did db.seq_counters)
      | inr new ↦ rw new (counter-bump_counter a ev.account_did db.seq_counters)
    ]

-- The rows after a put: those of before, and one with the number after the account's last.
pub In-put_event :
    (ev : StoredEvent) (db : Db) (x : EventRow)
    → IsKeyed db.events
    → In x (put_event ev db).0.events
    → In x db.events ⊎ (x ≡ row_of ev (counter ev.account_did db.seq_counters + 1))
unfolding put_event
In-put_event ev db x h m =
    ground (
      arith,
      In-upsert_event (row_of ev (counter ev.account_did db.seq_counters + 1)) db.events x h,
    )

module _ (ev : StoredEvent) (db : Db) (w : IsWellFormed db) where
  put_event-IsKeyed : IsKeyed (put_event ev db).0.events
  unfolding put_event
  put_event-IsKeyed = ground (
    arith,
    w.keyed,
    upsert_event-IsKeyed (row_of ev (counter ev.account_did db.seq_counters + 1)) db.events w.keyed,
  )

  put_event_numbered :
      (x : EventRow)
      → In x (put_event ev db).0.events
      → (1 ≤ x.seq) × (x.seq ≤ counter x.account_did (put_event ev db).0.seq_counters)
  put_event_numbered x m = elim (In-put_event ev db x w.keyed m) [
    | inl old ↦ rw (counter-put_event x.account_did ev db) (ground (arith, w.numbered x old))
    | inr new ↦
        rw (counter-put_event x.account_did ev db, new, text_eq_refl ev.account_did)
          (omega arith, omega arith)
  ]

  -- The new row is numbered past every row of its account.
  put_event_fresh :
      (x : EventRow)
      → In x db.events
      → x.account_did ≡ ev.account_did
      → x.seq ≡ counter ev.account_did db.seq_counters + 1
      → ⊥
  put_event_fresh x m a e =
      omega (arith, (w.numbered x m).1, e, ap (λ (t : Text). counter t db.seq_counters) a)

  put_event_spaced :
      (x y : EventRow)
      → In x (put_event ev db).0.events
      → In y (put_event ev db).0.events
      → x.account_did ≡ y.account_did
      → x.seq ≡ y.seq
      → x ≡ y
  put_event_spaced x y mx my a e = elim (In-put_event ev db x w.keyed mx) [
    | inl old ↦ elim (In-put_event ev db y w.keyed my) [
      | inl old' ↦ w.spaced x y old old' a e
      | inr new' ↦ absurd (
          put_event_fresh x old (a ∙ ap (λ (r : EventRow). r.account_did) new')
            (e ∙ ap (λ (r : EventRow). r.seq) new'))
    ]
    | inr new ↦ elim (In-put_event ev db y w.keyed my) [
      | inl old' ↦ absurd (
          put_event_fresh y old' (sym a ∙ ap (λ (r : EventRow). r.account_did) new)
            (sym e ∙ ap (λ (r : EventRow). r.seq) new))
      | inr new' ↦ new ∙ sym new'
    ]
  ]

  pub put_event-IsWellFormed : IsWellFormed (put_event ev db).0
  put_event-IsWellFormed = record {
    keyed = put_event-IsKeyed;
    numbered = put_event_numbered;
    spaced = put_event_spaced;
  }

deleted-IsWellFormed :
    (a : Text) (ts : List Text) (db : Db)
    → IsWellFormed db
    → IsWellFormed (record db { events = delete_events a ts db.events })
deleted-IsWellFormed a ts db w = record {
  keyed = delete_events-IsKeyed a ts db.events w.keyed;
  numbered = λ x m. w.numbered x (In-delete_events a ts db.events x m);
  spaced = λ x y mx my.
      w.spaced x y (In-delete_events a ts db.events x mx) (In-delete_events a ts db.events y my);
}

pub prune-IsWellFormed :
    (iso : ℤ → Text) (now : ℕ) (a : Text) (db : Db)
    → IsWellFormed db
    → IsWellFormed (prune_expired_archives iso now a db).0
unfolding prune_expired_archives
prune-IsWellFormed iso now a db w =
    deleted-IsWellFormed a (prune_candidates a (cutoff_iso iso now) db.events) db w

same_tables-IsWellFormed :
    (db u : Db)
    → u.events ≡ db.events
    → u.seq_counters ≡ db.seq_counters
    → IsWellFormed db
    → IsWellFormed u
same_tables-IsWellFormed db u e c w = record {
  keyed = rw e w.keyed;
  numbered = rw (e, c) w.numbered;
  spaced = rw e w.spaced;
}

pub consume_events :
    (now : ℕ) (a c : Text) (db : Db)
    → ((consume_challenge now a c db).0.events ≡ db.events)
      × ((consume_challenge now a c db).0.seq_counters ≡ db.seq_counters)
unfolding consume_challenge
consume_events now a c db = (ground arith, ground arith)

pub Write-IsWellFormed :
    {iso : ℤ → Text} {db u : Db} → Write iso db u → IsWellFormed db → IsWellFormed u
unfolding put_challenge
Write-IsWellFormed {db = db} (put ev) w = put_event-IsWellFormed ev db w
Write-IsWellFormed {iso = iso} {db = db} (prune now a) w = prune-IsWellFormed iso now a db w
Write-IsWellFormed {db = db} (challenge c) w = same_tables-IsWellFormed db _ refl refl w
Write-IsWellFormed {db = db} (consume now a c) w =
    same_tables-IsWellFormed db _ (consume_events now a c db).0 (consume_events now a c db).1 w

-- Whatever calls are made from a well-formed database, in whatever order: one row a task, every
-- number positive and at most its account's counter, and no two rows of an account with one number.
pub Writes-IsWellFormed :
    {iso : ℤ → Text} {db u : Db} → Writes iso db u → IsWellFormed db → IsWellFormed u
Writes-IsWellFormed here w = w
Writes-IsWellFormed (next ws one) w = Write-IsWellFormed one (Writes-IsWellFormed ws w)

pub create_schema-IsWellFormed : IsWellFormed create_schema
unfolding create_schema
create_schema-IsWellFormed = record {
  keyed = tt;
  numbered = λ x m. absurd m;
  spaced = λ x y m. absurd m;
}
