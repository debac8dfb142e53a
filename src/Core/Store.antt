-- ===== src/Core/Store.antt =====
-- The `Store` contract of backend/core/src/lib/db.ts, over the state `S` of the store. A method
-- may throw; `now` is what it reads from `Date.now()`. backend/core/src/lib/sqlite-store.ts fills it.
use corner_tasks.Prelude.{ℕ, Bool, Option, none, some, ◌≡◌, refl}
use corner_tasks.Prelude.Text.{Text}
use corner_tasks.Prelude.Int.{ℤ}
use corner_tasks.Core.Types.{StoredEvent, PutResult, QueryEventsResult, AuthChallenge}
use corner_tasks.Prelude.Outcome.{returned}
use corner_tasks.Core.Sqlite.Rows.{Db}
use corner_tasks.Core.Sqlite.Methods
pub use corner_tasks.Prelude.Call.{Call, continue, ◌>>=◌, continue_keeps, continue_returned}

pub record Store (S : Type 0) : Type 0 where
  pub put_event : StoredEvent → Call S PutResult
  pub query_events_after : ℕ → Text → Text → Call S QueryEventsResult
  pub prune_expired_archives : ℕ → Text → Call S ℕ
  pub put_challenge : AuthChallenge → Call S Unit
  pub consume_challenge : ℕ → Text → Text → Call S Bool

abbrev pub sqlite_store : (ℤ → Text) → Store Db
sqlite_store iso = record {
  put_event = λ ev db. (returned (Methods.put_event ev db).1, (Methods.put_event ev db).0);
  query_events_after =
      λ now a cursor db. (returned (Methods.query_events_after iso now a cursor db), db);
  prune_expired_archives = λ now a db. (
    returned (Methods.prune_expired_archives iso now a db).1,
    (Methods.prune_expired_archives iso now a db).0,
  );
  put_challenge = λ c db. (returned tt, Methods.put_challenge c db);
  consume_challenge = λ now a c db.
      (returned (Methods.consume_challenge now a c db).1, (Methods.consume_challenge now a c db).0);
}

-- An early response, or the rest of the handler.
abbrev pub unless_answered : {S R : Type 0} → Option R → Call S R → Call S R
unless_answered (some r) k s = (returned r, s)
unless_answered none k s = k s

pub unless_answered_keeps :
    {S R : Type 0} (P : S → Type 0) (o : Option R) (k : Call S R) (s : S)
    → P s
    → (o ≡ none → P (k s).1)
    → P (unless_answered o k s).1
unless_answered_keeps P none k s h rest = rest refl
unless_answered_keeps P (some r) k s h rest = h
