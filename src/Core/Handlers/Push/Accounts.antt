-- ===== src/Core/Handlers/Push/Accounts.antt =====
-- backend/core/src/handlers/push.ts over the store of backend/core/src/lib/sqlite-store.ts: who can
-- change what, and that no event it stores is ever swept.
use corner_tasks.Prelude.{
  ℕ, ◌≡◌, ◌≢◌, refl, ap, ◌∙◌, Option, none, List, [], ◌∷◌, arith, filter, In, inl, inr, length,
}
use corner_tasks.Prelude.Text.{Text, text_eq_iff}
use corner_tasks.Prelude.Outcome.{returned}
use corner_tasks.Prelude.Int.{ℤ}
use corner_tasks.Core.Http.{HttpEvent}
use corner_tasks.Core.Store.{sqlite_store}
use corner_tasks.Core.Auth.{granted, require_bearer}
use corner_tasks.Core.Config.{Config}
use corner_tasks.Core.Sqlite.Rows.{
  EventRow, Db, create_schema, get_event, counter, delete_event, prune_candidates,
}
use corner_tasks.Core.Sqlite.Methods.{delete_events, prune_expired_archives, cutoff_iso}
use corner_tasks.Core.Sqlite.Lww.{get_event-put_event}
use corner_tasks.Core.Sqlite.Seq.{
  IsWellFormed, create_schema-IsWellFormed, counter-put_event, put_event-IsWellFormed,
  prune-IsWellFormed, In-put_event,
}
use corner_tasks.Core.Sqlite.Keyed.{In-delete_events}
use corner_tasks.Core.Handlers.Push.{as_stored, push}
use corner_tasks.Core.Handlers.Push.Frame.{KeptBy, push_keeps}

get_event-delete_event_ne :
    (a b t u : Text) (rows : List EventRow)
    → a ≢ b
    → get_event b t (delete_event a u rows) ≡ get_event b t rows
unfolding get_event delete_event filter
get_event-delete_event_ne a b t u [] h = refl
get_event-delete_event_ne a b t u (row ∷ rows) h = ground (
  arith,
  get_event-delete_event_ne a b t u rows h,
  text_eq_iff row.account_did a,
  text_eq_iff row.account_did b,
)

get_event-delete_events_ne :
    (a b t : Text) (us : List Text) (rows : List EventRow)
    → a ≢ b
    → get_event b t (delete_events a us rows) ≡ get_event b t rows
unfolding delete_events
get_event-delete_events_ne a b t [] rows h = refl
get_event-delete_events_ne a b t (u ∷ us) rows h =
    get_event-delete_events_ne a b t us (delete_event a u rows) h
    ∙ get_event-delete_event_ne a b t u rows h

-- What an account has of a task, and its last number.
abbrev pub holdings : Text → Text → Db → Option EventRow × ℕ
holdings b t db = (get_event b t db.events, counter b db.seq_counters)

other_account-KeptBy :
    (iso : ℤ → Text) (a b t : Text) (db : Db)
    → a ≢ b
    → KeptBy (sqlite_store iso) (λ u. holdings b t u ≡ holdings b t db) a
other_account-KeptBy iso a b t db h = record {
  by_put = λ ev s mine same. ground (
    arith,
    same,
    get_event-put_event b t (as_stored ev) s,
    counter-put_event b (as_stored ev) s,
    text_eq_iff ev.account_did b,
    mine,
  );
  by_prune = λ now s same.
      unfold prune_expired_archives in
      ground (
        arith,
        same,
        get_event-delete_events_ne a b t (prune_candidates a (cutoff_iso iso now) s.events) s.events
            h,
      );
}

-- A push that does not carry a valid token of account `b` changes none of b's rows and not its
-- number, whatever account and events its body names.
pub push_isolated :
    (config : Config) (verified_at pruned_at : ℕ) (event : HttpEvent) (db : Db) (b t : Text)
    → require_bearer config.codec config.signing verified_at event ≢ returned (granted b)
    → holdings b t (push (sqlite_store config.iso) config verified_at pruned_at event db).1
      ≡ holdings b t db
push_isolated config verified_at pruned_at event db b t h =
    push_keeps (sqlite_store config.iso) config (λ u. holdings b t u ≡ holdings b t db) verified_at
      pruned_at event db
      (λ a e.
        other_account-KeptBy config.iso a b t db
          (λ same. h (e ∙ ap (λ x. returned (granted x)) same)))
      refl

-- No row carries an archive time.
abbrev pub HasNoArchive : Db → Type 0
HasNoArchive db = (x : EventRow) → In x db.events → x.archived_completed_at ≡ none

prune_candidates-none :
    (a cutoff : Text) (rows : List EventRow)
    → ((x : EventRow) → In x rows → x.archived_completed_at ≡ none)
    → prune_candidates a cutoff rows ≡ []
unfolding prune_candidates
prune_candidates-none a cutoff [] h = refl
prune_candidates-none a cutoff (row ∷ rows) h =
    ground (arith, h row (inl refl), prune_candidates-none a cutoff rows (λ x m. h x (inr m)))

push-HasNoArchive :
    (config : Config) (verified_at pruned_at : ℕ) (event : HttpEvent) (db : Db)
    → IsWellFormed db × HasNoArchive db
    → IsWellFormed (push (sqlite_store config.iso) config verified_at pruned_at event db).1
      × HasNoArchive (push (sqlite_store config.iso) config verified_at pruned_at event db).1
push-HasNoArchive config verified_at pruned_at event db h =
    push_keeps (sqlite_store config.iso) config (λ u. IsWellFormed u × HasNoArchive u) verified_at
      pruned_at event db
      (λ a e. record {
        by_put = λ ev s mine k. (
          put_event-IsWellFormed (as_stored ev) s k.0,
          λ x m. elim (In-put_event (as_stored ev) s x k.0.keyed m) [
            | inl old ↦ k.1 x old
            | inr new ↦ ap (λ (r : EventRow). r.archived_completed_at) new
          ],
        );
        by_prune = λ now s k. (
          prune-IsWellFormed config.iso now a s k.0,
          λ x m. k.1 x (
              In-delete_events a (prune_candidates a (cutoff_iso config.iso now) s.events) s.events
                x (unfold prune_expired_archives in m)),
        );
      })
      h

-- A push request with the two times that it reads.
pub record PushCall : Type 0 where
  pub verified_at : ℕ
  pub pruned_at : ℕ
  pub event : HttpEvent

unfoldable pub serve_pushes : Config → List PushCall → Db → Db
serve_pushes config [] db = db
serve_pushes config (r ∷ rs) db =
    serve_pushes config rs
      (push (sqlite_store config.iso) config r.verified_at r.pruned_at r.event db).1

serve_pushes-HasNoArchive :
    (config : Config) (rs : List PushCall) (db : Db)
    → IsWellFormed db × HasNoArchive db
    → HasNoArchive (serve_pushes config rs db)
unfolding serve_pushes
serve_pushes-HasNoArchive config [] db h = h.1
serve_pushes-HasNoArchive config (r ∷ rs) db h =
    serve_pushes-HasNoArchive config rs
      (push (sqlite_store config.iso) config r.verified_at r.pruned_at r.event db).1
      (push-HasNoArchive config r.verified_at r.pruned_at r.event db h)

-- Whatever is pushed to a new database, and however much later, the retention sweep removes
-- nothing: the events that a push stores carry no archive time.
pub retention_never_sweeps :
    (config : Config) (rs : List PushCall) (now : ℕ) (a : Text)
    → (prune_expired_archives config.iso now a (serve_pushes config rs create_schema)).1 ≡ 0
unfolding prune_expired_archives
retention_never_sweeps config rs now a = ap length (
    prune_candidates-none a (cutoff_iso config.iso now)
      (serve_pushes config rs create_schema).events
      (serve_pushes-HasNoArchive config rs create_schema
        (create_schema-IsWellFormed, λ x m. absurd (unfold create_schema in m))))
