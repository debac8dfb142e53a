-- ===== src/Core/Sqlite/Challenges.antt =====
-- `putChallenge` and `consumeChallenge` of backend/core/src/lib/sqlite-store.ts.
use corner_tasks.Prelude.{
  branches, subst, sym, ap, ◌∙◌, false, List, [], ◌∷◌, In, Bool-cases, not, In-filter, filter-In, ℕ,
  ◌≤◌, ◌≡◌, ◌↔◌, refl, true, ◌&&◌, Option, none, some, arith, if◌then◌else◌, Option-cases, inl, inr,
}
use corner_tasks.Prelude.Text.{Text, text_eq, text_eq_iff}
use corner_tasks.Core.Types.{AuthChallenge}
use corner_tasks.Core.Sqlite.Rows.{
  Db, ChallengeRow, names, get_challenge, delete_challenge, upsert_challenge,
}
use corner_tasks.Core.Sqlite.Methods.{put_challenge, consume_challenge}
use corner_tasks.Core.Sqlite.Lookup.{get_challenge-upsert_challenge, get_challenge-delete_challenge}

-- The time until which the store honours a challenge.
abbrev pub deadline : Text → Text → Db → Option ℕ
deadline a c db = get_challenge a c db.challenges

-- A challenge that is put replaces the account's challenge of the same text, and no other.
pub deadline-put_challenge :
    (a c : Text) (new : AuthChallenge) (db : Db)
    → deadline a c (put_challenge new db) ≡ (
        if text_eq new.account_did a && text_eq new.challenge c
        then some new.expires_at
        else deadline a c db)
unfolding put_challenge
deadline-put_challenge a c new db = get_challenge-upsert_challenge a c _ db.challenges

-- Consuming a challenge removes it, expired or not, and touches no other.
pub deadline-consume_challenge :
    (now : ℕ) (a c b d : Text) (db : Db)
    → deadline a c (consume_challenge now b d db).0
      ≡ (if text_eq a b && text_eq c d then none else deadline a c db)
unfolding consume_challenge
deadline-consume_challenge now a c b d db =
    ground (
      arith,
      get_challenge-delete_challenge a c b d db.challenges,
      text_eq_iff a b,
      text_eq_iff c d,
    )

-- A row of the account's challenge
abbrev pub IsFor : Text → Text → ChallengeRow → Type 0
IsFor a c row = (row.account_did ≡ a) × (row.challenge ≡ c)

names-IsFor : (a c : Text) (row : ChallengeRow) → (names a c row ≡ true) ↔ IsFor a c row
names-IsFor a c row = ground (arith, text_eq_iff row.account_did a, text_eq_iff row.challenge c)

-- No row is one of that challenge of that account.
abbrev IsNew : Text → Text → List ChallengeRow → Type 0
IsNew a c rows = (y : ChallengeRow) → In y rows → names a c y ≡ false

-- The primary key of the table: one row for each challenge of an account
abbrev pub HaveKeys : List ChallengeRow → Type 0
HaveKeys [] = Unit
HaveKeys (row ∷ rows) = IsNew row.account_did row.challenge rows × HaveKeys rows

met_again :
    (a c : Text) (row : ChallengeRow) (rows : List ChallengeRow) (y : ChallengeRow)
    → IsNew row.account_did row.challenge rows
    → In y rows
    → IsFor a c row
    → IsFor a c y
    → ⊥
met_again a c row rows y h m own own' = cc (
  h y m,
  (names-IsFor row.account_did row.challenge y).1 (own'.0 ∙ sym own.0, own'.1 ∙ sym own.1),
)

only_row :
    (a c : Text) (rows : List ChallengeRow) (x y : ChallengeRow)
    → HaveKeys rows
    → In x rows
    → In y rows
    → IsFor a c x
    → IsFor a c y
    → x ≡ y
only_row a c [] x y h m n own own' = absurd m
only_row a c (row ∷ rows) x y h (inl e) (inl f) own own' = e ∙ sym f
only_row a c (row ∷ rows) x y h (inl e) (inr n) own own' =
    absurd (met_again a c row rows y h.0 n (subst (IsFor a c) e own) own')
only_row a c (row ∷ rows) x y h (inr m) (inl f) own own' =
    absurd (met_again a c row rows x h.0 m (subst (IsFor a c) f own') own)
only_row a c (row ∷ rows) x y h (inr m) (inr n) own own' = only_row a c rows x y h.1 m n own own'

-- The table keeps its key when a challenge is put.
upsert_challenge-IsNew :
    (a c : Text) (new : ChallengeRow) (rows : List ChallengeRow)
    → names a c new ≡ false
    → IsNew a c rows
    → IsNew a c (upsert_challenge new rows)
unfolding upsert_challenge
upsert_challenge-IsNew a c new [] apart h y (inl e) = rw e apart
upsert_challenge-IsNew a c new [] apart h y (inr m) = absurd m
upsert_challenge-IsNew a c new (row ∷ rows) apart h y m =
    branches (λ rs. In y rs → names a c y ≡ false) (names new.account_did new.challenge row)
      (new ∷ rows) (row ∷ upsert_challenge new rows)
      (λ _. elim [ inl e ↦ rw e apart | inr k ↦ h y (inr k) ])
      (λ _. elim [
        | inl e ↦ h y (inl e)
        | inr k ↦ upsert_challenge-IsNew a c new rows apart (λ z n. h z (inr n)) y k
      ])
      m

names-sym :
    (x y : ChallengeRow) → names x.account_did x.challenge y ≡ names y.account_did y.challenge x
names-sym x y = ground (
  arith,
  text_eq_iff x.account_did y.account_did,
  text_eq_iff y.account_did x.account_did,
  text_eq_iff x.challenge y.challenge,
  text_eq_iff y.challenge x.challenge,
)

upsert_challenge-HaveKeys :
    (new : ChallengeRow) (rows : List ChallengeRow)
    → HaveKeys rows
    → HaveKeys (upsert_challenge new rows)
unfolding upsert_challenge
upsert_challenge-HaveKeys new [] h = (λ y m. absurd m, tt)
upsert_challenge-HaveKeys new (row ∷ rows) h =
    branches HaveKeys (names new.account_did new.challenge row) (new ∷ rows)
      (row ∷ upsert_challenge new rows)
      (λ e.
        let (a, c) = (names-IsFor new.account_did new.challenge row).0 e in
        (λ y m. rw (← a, ← c) (h.0 y m), h.1))
      (λ e. (
        upsert_challenge-IsNew row.account_did row.challenge new rows (names-sym row new ∙ e) h.0,
        upsert_challenge-HaveKeys new rows h.1,
      ))

pub put_challenge-HaveKeys :
    (new : AuthChallenge) (db : Db)
    → HaveKeys db.challenges
    → HaveKeys (put_challenge new db).challenges
unfolding put_challenge
put_challenge-HaveKeys new db h = upsert_challenge-HaveKeys _ db.challenges h

other_names : (a c : Text) (row : ChallengeRow) → not (names a c row) ≡ true → ¬ (IsFor a c row)
other_names a c row e own = cc (e, (names-IsFor a c row).1 own)

names_other : (a c : Text) (row : ChallengeRow) → ¬ (IsFor a c row) → not (names a c row) ≡ true
names_other a c row apart = elim (Bool-cases (names a c row)) [
  | inl named ↦ absurd (apart ((names-IsFor a c row).0 named))
  | inr other ↦ rw other refl
]

get_challenge-In :
    (a c : Text) (rows : List ChallengeRow) (t : ℕ)
    → get_challenge a c rows ≡ some t
    → (row : ChallengeRow) × In row rows × IsFor a c row × (row.expires_at ≡ t)
unfolding get_challenge
get_challenge-In a c [] t e = cc e
get_challenge-In a c (row ∷ rows) t e = elim (Bool-cases (names a c row)) [
  | inl named ↦ (row, inl refl, (names-IsFor a c row).0 named, cc (rw named at e))
  | inr other ↦
      let (found, m, own, same) = get_challenge-In a c rows t (rw other at e) in
      (found, inr m, own, same)
]

In-get_challenge :
    (a c : Text) (rows : List ChallengeRow) (row : ChallengeRow)
    → In row rows
    → IsFor a c row
    → (t : ℕ) × (get_challenge a c rows ≡ some t)
unfolding get_challenge
In-get_challenge a c [] row m own = absurd m
In-get_challenge a c (first ∷ rows) row m own = elim (Bool-cases (names a c first)) [
  | inl named ↦ (first.expires_at, rw named refl)
  | inr other ↦ elim m [
    | inl same ↦ cc ((names-IsFor a c first).1 (subst (IsFor a c) same own), other)
    | inr later ↦ let (t, e) = In-get_challenge a c rows row later own in (t, rw other e)
  ]
]

-- Of a table with its primary key: a challenge is consumed exactly if the account has a row of it that has not
-- expired. Afterwards the rows are those that there were, but for the account's row of that challenge, whether
-- it had expired or not.
pub consume_challenge_exact :
    (now : ℕ) (a c : Text) (db : Db)
    → HaveKeys db.challenges
    → (((consume_challenge now a c db).1 ≡ true)
        ↔ ((row : ChallengeRow) × In row db.challenges × IsFor a c row × (now ≤ row.expires_at)))
      × ((row : ChallengeRow)
          → In row (consume_challenge now a c db).0.challenges
            ↔ (In row db.challenges × ¬ (IsFor a c row)))
unfolding consume_challenge delete_challenge
consume_challenge_exact now a c db keys = elim (Option-cases (get_challenge a c db.challenges)) [
  | inl e ↦
      rw (consume_challenge, e)
        (
          (λ h. cc h, λ (row, m, own, h). cc (e, (In-get_challenge a c db.challenges row m own).1)),
          λ row. (
            λ m. (m, λ own. absurd (cc (e, (In-get_challenge a c db.challenges row m own).1))),
            λ (m, other). m,
          ),
        )
  | inr (t, e) ↦
      let (row, m, own, same) = get_challenge-In a c db.challenges t e in
      rw (consume_challenge, e)
        (
          (
            λ h. (row, m, own, ground (arith, same, h)),
            λ (other, m', own', h). ground (
              arith,
              ap (λ (x : ChallengeRow). x.expires_at)
                  (only_row a c db.challenges other row keys m' m own' own),
              same,
              h,
            ),
          ),
          λ other. (
            λ m'.
                let (old, apart) = In-filter (λ x. not (names a c x)) other db.challenges m' in
                (old, other_names a c other apart),
            λ (m', apart).
                filter-In (λ x. not (names a c x)) other db.challenges m'
                  (names_other a c other apart),
          ),
        )
]
