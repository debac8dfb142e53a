-- ===== src/Core/Sqlite/Lookup.antt =====
-- Laws of the statements of backend/core/src/lib/sqlite-store.ts: what is read after a write.
use corner_tasks.Prelude.{
  ℕ, ◌+◌, ◌≡◌, refl, true, ◌&&◌, none, some, List, [], ◌∷◌, arith, if◌then◌else◌, filter,
}
use corner_tasks.Prelude.Text.{Text, text_eq, text_eq_iff}
use corner_tasks.Core.Sqlite.Rows.{
  EventRow, ChallengeRow, counter, bump_counter, has_key, get_event, upsert_event, names,
  get_challenge, upsert_challenge, delete_challenge,
}

pub counter-bump_counter :
    (a b : Text) (cs : List (Text × ℕ))
    → counter a (bump_counter b cs) ≡ (if text_eq b a then counter a cs + 1 else counter a cs)
unfolding counter bump_counter
counter-bump_counter a b [] = ground arith
counter-bump_counter a b ((c, n) ∷ cs) =
    ground (arith, counter-bump_counter a b cs, text_eq_iff c a, text_eq_iff c b, text_eq_iff b a)

pub get_event-upsert_event :
    (a t : Text) (new : EventRow) (rows : List EventRow)
    → get_event a t (upsert_event new rows)
      ≡ (if has_key a t new then some new else get_event a t rows)
unfolding get_event upsert_event
get_event-upsert_event a t new [] = refl
get_event-upsert_event a t new (row ∷ rows) = ground (
  arith,
  get_event-upsert_event a t new rows,
  text_eq_iff row.account_did new.account_did,
  text_eq_iff row.task_id new.task_id,
  text_eq_iff row.account_did a,
  text_eq_iff row.task_id t,
  text_eq_iff new.account_did a,
  text_eq_iff new.task_id t,
)

pub get_event-has_key :
    (a t : Text) (rows : List EventRow) (row : EventRow)
    → get_event a t rows ≡ some row
    → has_key a t row ≡ true
unfolding get_event
get_event-has_key a t [] row h = ground arith
get_event-has_key a t (r ∷ rows) row h = ground (arith, get_event-has_key a t rows row)

pub get_challenge-upsert_challenge :
    (a c : Text) (new : ChallengeRow) (rows : List ChallengeRow)
    → get_challenge a c (upsert_challenge new rows)
      ≡ (if names a c new then some new.expires_at else get_challenge a c rows)
unfolding get_challenge upsert_challenge
get_challenge-upsert_challenge a c new [] = refl
get_challenge-upsert_challenge a c new (row ∷ rows) = ground (
  arith,
  get_challenge-upsert_challenge a c new rows,
  text_eq_iff row.account_did new.account_did,
  text_eq_iff row.challenge new.challenge,
  text_eq_iff row.account_did a,
  text_eq_iff row.challenge c,
  text_eq_iff new.account_did a,
  text_eq_iff new.challenge c,
)

pub get_challenge-delete_challenge :
    (a c b d : Text) (rows : List ChallengeRow)
    → get_challenge a c (delete_challenge b d rows)
      ≡ (if text_eq a b && text_eq c d then none else get_challenge a c rows)
unfolding get_challenge delete_challenge filter
get_challenge-delete_challenge a c b d [] = ground arith
get_challenge-delete_challenge a c b d (row ∷ rows) = ground (
  arith,
  get_challenge-delete_challenge a c b d rows,
  text_eq_iff row.account_did a,
  text_eq_iff row.challenge c,
  text_eq_iff row.account_did b,
  text_eq_iff row.challenge d,
  text_eq_iff a b,
  text_eq_iff c d,
)
