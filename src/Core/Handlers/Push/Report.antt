-- ===== src/Core/Handlers/Push/Report.antt =====
-- The response of backend/core/src/handlers/push.ts answers for the whole batch.
use corner_tasks.Prelude.{
  ℕ, ◌≡◌, ◌⊎◌, refl, Bool, true, false, List, [], ◌∷◌, ◌++◌, arith, In, inl, inr, Bool-cases,
}
use corner_tasks.Prelude.Text.{Text, text_eq}
use corner_tasks.Prelude.Outcome.{Outcome, returned, threw}
use corner_tasks.Core.Types.{SyncEvent, PutResult}
use corner_tasks.Core.Http.{HttpResult, json_result, push_response, PushReject, stale}
use corner_tasks.Core.Schema.{PushRequest}
use corner_tasks.Core.Auth.{assert_subject_matches}
use corner_tasks.Core.Store.{Store, continue_returned}
use corner_tasks.Core.Handlers.Push.{
  has_seen, as_stored, Tally, no_tally, again, counted, push_loop, finish_push, push_request,
  LoopEnd, early, filled,
}

pub In-append_left : {A : Type 0} (x : A) (xs ys : List A) → In x xs → In x (xs ++ ys)
In-append_left x (y ∷ xs) ys (inl e) = inl e
In-append_left x (y ∷ xs) ys (inr m) = inr (In-append_left x xs ys m)
In-append_left x [] ys m = absurd m

pub In-append_right : {A : Type 0} (x : A) (xs ys : List A) → In x ys → In x (xs ++ ys)
In-append_right x [] ys m = m
In-append_right x (y ∷ xs) ys m = inr (In-append_right x xs ys m)

-- The event is reported, as accepted or as rejected.
abbrev pub Reported : Text → Tally → Type 0
Reported id t = In id t.accepted ⊎ ((r : PushReject) × In r t.rejected × (r.event_id ≡ id))

-- One tally goes on from another: nothing reported is lost.
abbrev Extends : Tally → Tally → Type 0
Extends t u = (id : Text) → Reported id t → Reported id u

again-Extends : (id : Text) (t : Tally) → Extends t (again id t)
again-Extends id t x (inl m) = inl (In-append_left x t.accepted (id ∷ []) m)
again-Extends id t x (inr r) = inr r

counted-Extends : (id : Text) (result : PutResult) (t : Tally) → Extends t (counted id result t)
counted-Extends id result t x h = go result.accepted refl h
  where
    go : (b : Bool) → result.accepted ≡ b → Reported x t → Reported x (counted id result t)
    go true e (inl m) = rw e (inl (In-append_left x t.accepted (id ∷ []) m))
    go true e (inr r) = rw e (inr r)
    go false e (inl m) = rw e (inl m)
    go false e (inr (r, m, k)) =
        rw e (
          inr (r, In-append_left r t.rejected (record { event_id = id; reason = stale } ∷ []) m, k))

again_reports : (id : Text) (t : Tally) → Reported id (again id t)
again_reports id t = inl (In-append_right id t.accepted (id ∷ []) (inl refl))

counted_reports : (id : Text) (result : PutResult) (t : Tally) → Reported id (counted id result t)
counted_reports id result t = go result.accepted refl
  where
    go : (b : Bool) → result.accepted ≡ b → Reported id (counted id result t)
    go true e = rw e (inl (In-append_right id t.accepted (id ∷ []) (inl refl)))
    go false e = rw e (
        inr (
          record { event_id = id; reason = stale },
          In-append_right _ t.rejected (record { event_id = id; reason = stale } ∷ []) (inl refl),
          refl,
        ))

-- What a batch that ran to its end reports: all that was reported before, and each of its events.
abbrev Covers : List SyncEvent → Tally → Tally → Type 0
Covers evs t u = Extends t u × ((ev : SyncEvent) → In ev evs → Reported ev.event_id u)

Covers-cons :
    (ev : SyncEvent) (evs : List SyncEvent) (t u v : Tally)
    → Extends t u
    → Reported ev.event_id u
    → Covers evs u v
    → Covers (ev ∷ evs) t v
Covers-cons ev evs t u v e r c = (
  λ id h. c.0 id (e id h),
  λ x. elim [ inl same ↦ rw same (c.0 ev.event_id r) | inr m ↦ c.1 x m ],
)

module _ {S : Type 0} (store : Store S) (account : Text) where
  -- If the loop is not ended early, every event of the batch is reported.
  pub push_loop-Covers :
      (evs : List SyncEvent) (t u : Tally) (s s' : S)
      → push_loop store account evs t s ≡ (returned (filled u), s')
      → Covers evs t u
  unfolding push_loop
  push_loop-Covers [] t u s s' e =
      let same : t ≡ u = cc e in (λ id h. rw (← same) h, λ x m. absurd m)
  push_loop-Covers (ev ∷ evs) t u s s' e = elim (Bool-cases (text_eq ev.account_did account)) [
    | inl mine ↦ elim (Bool-cases (has_seen ev.event_id t.seen)) [
      | inl old ↦
          Covers-cons ev evs t (again ev.event_id t) u (again-Extends ev.event_id t)
            (again_reports ev.event_id t)
            (push_loop-Covers evs (again ev.event_id t) u s s' (rw (mine, old) at e))
      | inr new ↦
          let (result, _, rest) =
            continue_returned (store.put_event (as_stored ev) s).0
              (λ r. push_loop store account evs (counted ev.event_id r t))
              (store.put_event (as_stored ev) s).1 s' (filled u) (rw (mine, new) at e) in
          Covers-cons ev evs t (counted ev.event_id result t) u
            (counted-Extends ev.event_id result t) (counted_reports ev.event_id result t)
            (push_loop-Covers evs (counted ev.event_id result t) u
              (store.put_event (as_stored ev) s).1 s' rest)
    ]
    | inr other ↦ ground (arith, e, other)
  ]

-- What a successful response must say of a batch.
abbrev pub Answers : HttpResult → List SyncEvent → Type 0
Answers r evs =
    (t : Tally) × (r ≡ json_result 200 (push_response t.accepted t.rejected))
    × ((ev : SyncEvent) → In ev evs → Reported ev.event_id t)

finish_push-Answers :
    {S : Type 0} (store : Store S) (now : ℕ) (account : Text) (evs : List SyncEvent)
    (o : Outcome LoopEnd) (s s' : S) (r : HttpResult)
    → ((t : Tally) → o ≡ returned (filled t) → Covers evs no_tally t)
    → ((x : HttpResult) → o ≡ returned (early x) → x.status ≡ 403)
    → finish_push store now account (o, s) ≡ (returned r, s')
    → r.status ≡ 200
    → Answers r evs
unfolding finish_push
finish_push-Answers store now account evs (returned (filled t)) s s' r c x e ok =
    (t, cc e, (c t refl).1)
finish_push-Answers store now account evs (returned (early y)) s s' r c x e ok =
    ground (arith, x y refl, e, ok)
finish_push-Answers store now account evs threw s s' r c x e ok = cc e

push_loop_early :
    {S : Type 0} (store : Store S) (account : Text) (evs : List SyncEvent) (t : Tally) (s s' : S)
    (x : HttpResult)
    → push_loop store account evs t s ≡ (returned (early x), s')
    → x.status ≡ 403
unfolding push_loop
push_loop_early store account [] t s s' x e = cc e
push_loop_early store account (ev ∷ evs) t s s' x e =
    elim (Bool-cases (text_eq ev.account_did account)) [
      | inl mine ↦ elim (Bool-cases (has_seen ev.event_id t.seen)) [
        | inl old ↦
            push_loop_early store account evs (again ev.event_id t) s s' x (rw (mine, old) at e)
        | inr new ↦
            let (result, _, rest) =
              continue_returned (store.put_event (as_stored ev) s).0
                (λ r. push_loop store account evs (counted ev.event_id r t))
                (store.put_event (as_stored ev) s).1 s' (early x) (rw (mine, new) at e) in
            push_loop_early store account evs (counted ev.event_id result t)
              (store.put_event (as_stored ev) s).1 s' x rest
      ]
      | inr other ↦ ground (arith, e, other)
    ]

-- A push that is answered with 200 reports every event of its batch, as accepted or as rejected.
pub push-Answers_all :
    {S : Type 0} (store : Store S) (now : ℕ) (subject : Text) (req : PushRequest) (s s' : S)
    (r : HttpResult)
    → push_request store now subject req s ≡ (returned r, s')
    → r.status ≡ 200
    → Answers r req.events
unfolding push_request assert_subject_matches
push-Answers_all store now subject req s s' r e ok =
    elim (Bool-cases (text_eq subject req.account_did)) [
      | inl same ↦
          let (o, u) = push_loop store req.account_did req.events no_tally s in
          finish_push-Answers store now req.account_did req.events o u s' r
            (λ t k.
              push_loop-Covers store req.account_did req.events no_tally t s u (λ i. (k i, u)))
            (λ x k. push_loop_early store req.account_did req.events no_tally s u x (λ i. (k i, u)))
            (rw same at e) ok
      | inr other ↦ ground (arith, e, other, ok)
    ]
