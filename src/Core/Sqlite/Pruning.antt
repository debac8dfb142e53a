-- ===== src/Core/Sqlite/Pruning.antt =====
-- `pruneExpiredArchives` of backend/core/src/lib/sqlite-store.ts.
use corner_tasks.Prelude.{
  ℕ, ◌≡◌, ◌∙◌, ◌↔◌, refl, sym, Bool, true, false, ◌&&◌, not, List, [], ◌∷◌, arith, if◌then◌else◌,
  In, inl, inr, In-filter, filter-In,
}
use corner_tasks.Prelude.Text.{Text, text_eq, text_eq_iff}
use corner_tasks.Prelude.Int.{ℤ}
use corner_tasks.Core.Sqlite.Rows.{
  EventRow, Db, has_key, archived_before, prune_candidates, delete_event,
}
use corner_tasks.Core.Sqlite.Methods.{cutoff_iso, delete_events, prune_expired_archives}
use corner_tasks.Core.Sqlite.Keyed.{IsKeyed, has_key-get_event-none}
use corner_tasks.Core.Sqlite.Seq.{IsWellFormed}

abbrev pub prunes : Text → Text → EventRow → Bool
prunes a cutoff row = text_eq row.account_did a && archived_before cutoff row.archived_completed_at

-- The rows that a list of deletions leaves are those that none of them names.
delete_events-In :
    (a : Text) (ts : List Text) (rows : List EventRow) (x : EventRow)
    → In x (delete_events a ts rows)
    → In x rows × ((x.account_did ≡ a) → ¬ In x.task_id ts)
unfolding delete_events delete_event
delete_events-In a [] rows x m = (m, λ _ h. h)
delete_events-In a (t ∷ ts) rows x m =
    let (at, others) = delete_events-In a ts (delete_event a t rows) x m in
    let (old, kept) = In-filter (λ row. not (has_key a t row)) x rows at in
    (
      old,
      λ mine. elim [
        | inl e ↦ ground (arith, kept, text_eq_iff x.account_did a, text_eq_iff x.task_id t)
        | inr later ↦ others mine later
      ],
    )

In-delete_events_kept :
    (a : Text) (ts : List Text) (rows : List EventRow) (x : EventRow)
    → In x rows
    → (x.account_did ≡ a → ¬ In x.task_id ts)
    → In x (delete_events a ts rows)
unfolding delete_events delete_event
In-delete_events_kept a [] rows x m h = m
In-delete_events_kept a (t ∷ ts) rows x m h =
    In-delete_events_kept a ts (delete_event a t rows) x
      (filter-In (λ row. not (has_key a t row)) x rows m
        (ground (
          arith,
          text_eq_iff x.account_did a,
          text_eq_iff x.task_id t,
          λ (e : x.account_did ≡ a) (k : x.task_id ≡ t). h e (inl k),
        )))
      (λ e later. h e (inr later))

prune_candidates-In :
    (a cutoff : Text) (rows : List EventRow) (x : EventRow)
    → In x rows
    → prunes a cutoff x ≡ true
    → In x.task_id (prune_candidates a cutoff rows)
unfolding prune_candidates
prune_candidates-In a cutoff (row ∷ rows) x (inl e) h = rw (← e, h) (inl refl)
prune_candidates-In a cutoff (row ∷ rows) x (inr m) h =
    ground (arith, prune_candidates-In a cutoff rows x m h)
prune_candidates-In a cutoff [] x m h = absurd m

In-prune_candidates :
    (a cutoff : Text) (rows : List EventRow) (t : Text)
    → In t (prune_candidates a cutoff rows)
    → (y : EventRow) × In y rows × (prunes a cutoff y ≡ true) × (y.task_id ≡ t)
unfolding prune_candidates
In-prune_candidates a cutoff [] t m = absurd m
In-prune_candidates a cutoff (row ∷ rows) t m =
    go (prunes a cutoff row) refl (In-prune_candidates a cutoff rows t) m
  where
    Found : List EventRow → Type 0
    Found rs = (y : EventRow) × In y rs × (prunes a cutoff y ≡ true) × (y.task_id ≡ t)

    later : Found rows → Found (row ∷ rows)
    later (y, at, h, e) = (y, inr at, h, e)

    go :
        (b : Bool)
        → prunes a cutoff row ≡ b
        → (In t (prune_candidates a cutoff rows) → Found rows)
        → In t (
            if b
            then row.task_id ∷ prune_candidates a cutoff rows
            else prune_candidates a cutoff rows)
        → Found (row ∷ rows)
    go true k ih (inl e) = (row, inl refl, k, sym e)
    go true k ih (inr at) = later (ih at)
    go false k ih at = later (ih at)

-- One row a task.
keyed_unique :
    (rows : List EventRow) (x y : EventRow)
    → IsKeyed rows
    → In x rows
    → In y rows
    → x.account_did ≡ y.account_did
    → x.task_id ≡ y.task_id
    → x ≡ y
keyed_unique [] x y k mx my a t = absurd mx
keyed_unique (row ∷ rows) x y k (inl ex) (inl ey) a t = ex ∙ sym ey
keyed_unique (row ∷ rows) x y k (inl ex) (inr my) a t = ground (
  arith,
  has_key-get_event-none row.account_did row.task_id rows y k.0 my,
  text_eq_iff y.account_did row.account_did,
  text_eq_iff y.task_id row.task_id,
)
keyed_unique (row ∷ rows) x y k (inr mx) (inl ey) a t = ground (
  arith,
  has_key-get_event-none row.account_did row.task_id rows x k.0 mx,
  text_eq_iff x.account_did row.account_did,
  text_eq_iff x.task_id row.task_id,
)
keyed_unique (row ∷ rows) x y k (inr mx) (inr my) a t = keyed_unique rows x y k.1 mx my a t

-- In a well-formed database the sweep removes exactly the account's rows whose archive time is before the cutoff: a row is
-- there afterwards if and only if it was there and is not such a row.
pub prune_exact :
    (iso : ℤ → Text) (now : ℕ) (a : Text) (db : Db)
    → IsWellFormed db
    → (x : EventRow)
    → In x (prune_expired_archives iso now a db).0.events
      ↔ (In x db.events × (prunes a (cutoff_iso iso now) x ≡ false))
unfolding prune_expired_archives
prune_exact iso now a db w x = (
  λ m.
      let (old, others) =
        delete_events-In a (prune_candidates a (cutoff_iso iso now) db.events) db.events x m in
      (
        old,
        ground (
          arith,
          text_eq_iff x.account_did a,
          λ (h : prunes a (cutoff_iso iso now) x ≡ true) (mine : x.account_did ≡ a).
              others mine (prune_candidates-In a (cutoff_iso iso now) db.events x old h),
        ),
      ),
  λ (old, h).
      In-delete_events_kept a (prune_candidates a (cutoff_iso iso now) db.events) db.events x old
        λ mine named. spared old h mine named,
)
  where
    spared :
        In x db.events
        → prunes a (cutoff_iso iso now) x ≡ false
        → x.account_did ≡ a
        → In x.task_id (prune_candidates a (cutoff_iso iso now) db.events)
        → ⊥
    spared old h mine named =
        let (y, at, k, t) = In-prune_candidates a (cutoff_iso iso now) db.events x.task_id named in
        ground (
          arith,
          text_eq_iff y.account_did a,
          keyed_unique db.events x y w.keyed old at,
          h,
          k,
          t,
          mine,
        )
