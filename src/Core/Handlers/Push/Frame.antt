-- ===== src/Core/Handlers/Push/Frame.antt =====
-- What backend/core/src/handlers/push.ts leaves alone: other accounts, whatever is sent.
use corner_tasks.Prelude.{
  ℕ, ◌≡◌, refl, ap, subst, ◌∙◌, Option, none, some, List, [], ◌∷◌, arith, Bool-cases, inl, inr,
}
use corner_tasks.Prelude.Text.{Text, text_eq, text_eq_iff}
use corner_tasks.Prelude.Outcome.{Outcome, returned, threw}
use corner_tasks.Prelude.Json.{Json}
use corner_tasks.Core.Types.{SyncEvent}
use corner_tasks.Core.Http.{HttpEvent}
use corner_tasks.Core.Store.{Store, continue, continue_keeps, unless_answered_keeps}
use corner_tasks.Core.Auth.{
  granted, refused, TokenVerification, require_bearer, assert_subject_matches,
}
use corner_tasks.Core.Schema.{PushRequest, read_push_request}
use corner_tasks.Core.Config.{Config}
use corner_tasks.Core.Handlers.Push.{
  body_json, has_seen, as_stored, Tally, again, counted, no_tally, push_loop, finish_push,
  push_request, push_read, push_body, push_as, push, LoopEnd, early, filled,
}

-- A property of the store's state that the writes for one account keep.
pub record KeptBy {S : Type 0} (store : Store S) (P : S → Type 0) (account : Text) : Type 0 where
  pub by_put :
      (ev : SyncEvent) (s : S)
      → ev.account_did ≡ account
      → P s
      → P (store.put_event (as_stored ev) s).1
  pub by_prune : (now : ℕ) (s : S) → P s → P (store.prune_expired_archives now account s).1

assert_subject_matches-none :
    (subject a : Text) → assert_subject_matches subject a ≡ none → subject ≡ a
unfolding assert_subject_matches
assert_subject_matches-none subject a e = ground (arith, text_eq_iff subject a)

module _ {S : Type 0} (store : Store S) (P : S → Type 0) (account : Text)
    (kept : KeptBy store P account) where
  push_loop_keeps :
      (evs : List SyncEvent) (t : Tally) (s : S) → P s → P (push_loop store account evs t s).1
  unfolding push_loop
  push_loop_keeps [] t s h = h
  push_loop_keeps (ev ∷ evs) t s h = elim (Bool-cases (text_eq ev.account_did account)) [
    | inl mine ↦ elim (Bool-cases (has_seen ev.event_id t.seen)) [
      | inl old ↦ rw (mine, old) (push_loop_keeps evs (again ev.event_id t) s h)
      | inr new ↦
          rw (mine, new)
            (continue_keeps P (store.put_event (as_stored ev) s).0
              (λ result. push_loop store account evs (counted ev.event_id result t))
              (store.put_event (as_stored ev) s).1
              (kept.by_put ev s ((text_eq_iff ev.account_did account).0 mine) h)
              (λ result.
                push_loop_keeps evs (counted ev.event_id result t)
                  (store.put_event (as_stored ev) s).1
                  (kept.by_put ev s ((text_eq_iff ev.account_did account).0 mine) h)))
    ]
    | inr other ↦ rw other h
  ]

  finish_push_keeps :
      (now : ℕ) (r : Outcome LoopEnd) (s : S) → P s → P (finish_push store now account (r, s)).1
  unfolding finish_push
  finish_push_keeps now (returned (filled t)) s h = kept.by_prune now s h
  finish_push_keeps now (returned (early r)) s h = h
  finish_push_keeps now threw s h = h

  push_request_keeps :
      (now : ℕ) (req : PushRequest) (s : S) → P s → P (push_request store now account req s).1
  unfolding push_request
  push_request_keeps now req s h =
      unless_answered_keeps P (assert_subject_matches account req.account_did)
        (λ s'.
          finish_push store now req.account_did
            (push_loop store req.account_did req.events no_tally s'))
        s h
        λ e.
          subst (λ a. P (finish_push store now a (push_loop store a req.events no_tally s)).1)
            (assert_subject_matches-none account req.account_did e)
            (finish_push_keeps now (push_loop store account req.events no_tally s).0
              (push_loop store account req.events no_tally s).1
              (push_loop_keeps req.events no_tally s h))

  module _ (config : Config) where
    push_read_keeps :
        (now : ℕ) (o : Option PushRequest) (s : S)
        → P s
        → P (push_read store config now account o s).1
    unfolding push_read
    push_read_keeps now none s h = h
    push_read_keeps now (some req) s h = push_request_keeps now req s h

    pub push_body_keeps :
        (now : ℕ) (o : Option Json) (s : S) → P s → P (push_body store config now account o s).1
    unfolding push_body
    push_body_keeps now none s h = h
    push_body_keeps now (some body) s h =
        push_read_keeps now (read_push_request config.formats body) s h

module _ {S : Type 0} (store : Store S) (config : Config) (P : S → Type 0) where
  push_as_keeps :
      (now : ℕ) (event : HttpEvent) (v : TokenVerification) (s : S)
      → ((a : Text) → v ≡ granted a → KeptBy store P a)
      → P s
      → P (push_as store config now event v s).1
  unfolding push_as
  push_as_keeps now event (refused r) s kept h = h
  push_as_keeps now event (granted a) s kept h =
      push_body_keeps store P a (kept a refl) config now (body_json event.body) s h

  -- A property that writes for the token's account keep is kept by every request.
  pub push_keeps :
      (verified_at pruned_at : ℕ) (event : HttpEvent) (s : S)
      → ((a : Text)
          → require_bearer config.codec config.signing verified_at event ≡ returned (granted a)
          → KeptBy store P a)
      → P s
      → P (push store config verified_at pruned_at event s).1
  unfolding push
  push_keeps verified_at pruned_at event s kept h =
      go (require_bearer config.codec config.signing verified_at event) refl
    where
      go :
          (r : Outcome TokenVerification)
          → require_bearer config.codec config.signing verified_at event ≡ r
          → P (continue r (push_as store config pruned_at event) s).1
      go (returned v) e = push_as_keeps pruned_at event v s (λ a k. kept a (e ∙ ap returned k)) h
      go threw e = h
