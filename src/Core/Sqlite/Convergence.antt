-- ===== src/Core/Sqlite/Convergence.antt =====
-- The store of backend/core/src/lib/sqlite-store.ts converges: what it holds of a task depends on
-- which events were put, not on their order or on repeated deliveries.
use corner_tasks.Prelude.{
  ◌≡◌, refl, sym, ap, ◌∙◌, Bool, true, false, List, [], ◌∷◌, arith, if◌then◌else◌, In, inl, inr,
  Bool-cases,
}
use corner_tasks.Prelude.Text.{Text, text_eq_iff}
use corner_tasks.Prelude.Latest.{latest_of_unique}
use corner_tasks.Core.Types.{StoredEvent}
use corner_tasks.Core.Sqlite.Rows.{create_schema, get_event}
use corner_tasks.Core.Sqlite.Lww.{
  stamp, stamp_lt, stamp_lt-IsStrict, snapshot, about, without_seq, put_all, history,
  snapshot-put_all,
}

history-In :
    (a t : Text) (evs : List StoredEvent) (ev : StoredEvent)
    → In ev evs
    → about a t ev ≡ true
    → In (without_seq ev) (history a t evs)
unfolding history
history-In a t [] ev m h = absurd m
history-In a t (e ∷ evs) ev (inl same) h = rw (← same, h) (inl refl)
history-In a t (e ∷ evs) ev (inr m) h = elim (Bool-cases (about a t e)) [
  | inl k ↦ rw k (inr (history-In a t evs ev m h))
  | inr k ↦ rw k (history-In a t evs ev m h)
]

In-history :
    (a t : Text) (evs : List StoredEvent) (x : StoredEvent)
    → In x (history a t evs)
    → (ev : StoredEvent) × In ev evs × (about a t ev ≡ true) × (x ≡ without_seq ev)
unfolding history
In-history a t [] x m = absurd m
In-history a t (e ∷ evs) x m = go (about a t e) refl (In-history a t evs x) m
  where
    later :
        (ev : StoredEvent) × In ev evs × (about a t ev ≡ true) × (x ≡ without_seq ev)
        → (ev : StoredEvent) × In ev (e ∷ evs) × (about a t ev ≡ true) × (x ≡ without_seq ev)
    later (ev, at, h, eq) = (ev, inr at, h, eq)

    go :
        (b : Bool)
        → about a t e ≡ b
        → (In x (history a t evs)
            → (ev : StoredEvent) × In ev evs × (about a t ev ≡ true) × (x ≡ without_seq ev))
        → In x (if b then without_seq e ∷ history a t evs else history a t evs)
        → (ev : StoredEvent) × In ev (e ∷ evs) × (about a t ev ≡ true) × (x ≡ without_seq ev)
    go true k ih (inl same) = (e, inl refl, k, same)
    go true k ih (inr at) = later (ih at)
    go false k ih at = later (ih at)

-- No two different events of one task carry the same stamp.
abbrev pub HasDistinctStamps : List StoredEvent → Type 0
HasDistinctStamps evs =
    (x y : StoredEvent)
    → In x evs
    → In y evs
    → x.account_did ≡ y.account_did
    → x.task_id ≡ y.task_id
    → stamp x ≡ stamp y
    → without_seq x ≡ without_seq y

history_sub :
    (a t : Text) (evs fvs : List StoredEvent)
    → ((ev : StoredEvent) → In ev evs → In ev fvs)
    → (x : StoredEvent) → In x (history a t evs)
    → In x (history a t fvs)
history_sub a t evs fvs f x m =
    let (ev, at, h, same) = In-history a t evs x m in rw same (history-In a t fvs ev (f ev at) h)

about_same :
    (a t : Text) (u v : StoredEvent)
    → about a t u ≡ true
    → about a t v ≡ true
    → (u.account_did ≡ v.account_did) × (u.task_id ≡ v.task_id)
about_same a t u v h k = (
  ground (arith, text_eq_iff u.account_did a, text_eq_iff v.account_did a),
  ground (arith, text_eq_iff u.task_id t, text_eq_iff v.task_id t),
)

history_distinct :
    (a t : Text) (evs : List StoredEvent)
    → HasDistinctStamps evs
    → (x y : StoredEvent) → In x (history a t evs)
    → In y (history a t evs)
    → stamp x ≡ stamp y
    → x ≡ y
history_distinct a t evs d x y mx my e =
    let (u, at_u, h, p) = In-history a t evs x mx in
    let (v, at_v, k, q) = In-history a t evs y my in
    p
    ∙ d u v at_u at_v (about_same a t u v h k).0 (about_same a t u v h k).1
        (sym (ap stamp p) ∙ e ∙ ap stamp q)
    ∙ sym q

-- Two stores that receive the same events, each in its own order and with its own repetitions,
-- come to hold the same snapshot of every task, if no two different events of a task have the
-- same updatedAt and eventId.
pub put_all_converges :
    (evs fvs : List StoredEvent) (a t : Text)
    → ((ev : StoredEvent) → In ev evs → In ev fvs)
    → ((ev : StoredEvent) → In ev fvs → In ev evs)
    → HasDistinctStamps evs
    → snapshot a t (put_all evs create_schema) ≡ snapshot a t (put_all fvs create_schema)
unfolding create_schema get_event
put_all_converges evs fvs a t f g d =
    snapshot-put_all a t evs create_schema
    ∙ latest_of_unique stamp_lt stamp stamp_lt-IsStrict (history a t evs) (history a t fvs)
        (history_sub a t evs fvs f) (history_sub a t fvs evs g) (history_distinct a t evs d)
    ∙ sym (snapshot-put_all a t fvs create_schema)
