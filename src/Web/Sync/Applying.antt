-- ===== src/Web/Sync/Applying.antt =====
-- What the store has seen when `pullSince` of apps/web/src/sync/SyncEngine.ts has applied a reply.
use corner_tasks.Prelude.{
  ℕ, ◌≡◌, refl, sym, ap, ◌∙◌, subst, false, Option, none, some, List, [], ◌∷◌, ◌⊎◌, inl, inr, In,
  is_empty, branches,
}
use corner_tasks.Prelude.Text.{Text, text_eq, text_eq_iff, text_eq_refl}
use corner_tasks.Prelude.Order.{lt_asym, ge_trans}
use corner_tasks.Prelude.Latest.{latest}
use corner_tasks.Prelude.Outcome.{Outcome, returned, threw}
use corner_tasks.Core.Types.{Op, upsert, delete, SyncEvent}
use corner_tasks.Web.Wire.{Bytes, Runtime, EventPlaintext, iso_parse, open_event}
use corner_tasks.Web.Session.{World, Identity}
use corner_tasks.Web.Tasks.{TaskStore}
use corner_tasks.Web.Tasks.Lww
use corner_tasks.Web.Tasks.Lww.{
  View, seen, version, version_lt, version_lt-IsStrict, view_of, task_of, id_of, seen-apply_remote,
  RemoteEvent,
}
use corner_tasks.Web.Sync.Pull.{
  remote_by_op, remote_of, write_remote_event, is_old_upsert, apply_dated, apply_remote,
  apply_events, unless_threw,
}

-- There is a view, and `k` is not later than its version.
abbrev AtLeast : ℕ × Text → Option View → Type 0
AtLeast k o = (v : View) × (o ≡ some v) × (version_lt (version v) k ≡ false)

-- The store has seen the event, or a later one of its task.
abbrev pub HasSeen : RemoteEvent → TaskStore → Type 0
HasSeen ev s = AtLeast (version (view_of ev)) (seen (task_of ev) s)

latest-AtLeast : (o : Option View) (v : View) → AtLeast (version v) (latest version_lt version o v)
latest-AtLeast none v = (v, refl, version_lt-IsStrict.lt_irrefl (version v))
latest-AtLeast (some w) v =
    branches (λ u. AtLeast (version v) (some u)) (version_lt (version w) (version v)) v w
      (λ _. (v, refl, version_lt-IsStrict.lt_irrefl (version v))) (λ e. (w, refl, e))

same_view : {u w : View} → some u ≡ some w → w ≡ u
same_view e = cc e

AtLeast-latest :
    (k : ℕ × Text) (o : Option View) (v : View)
    → AtLeast k o
    → AtLeast k (latest version_lt version o v)
AtLeast-latest k none v (w, e, h) = cc e
AtLeast-latest k (some u) v (w, e, h) =
    branches (λ x. AtLeast k (some x)) (version_lt (version u) (version v)) v u
      (λ newer. (
        v,
        refl,
        ge_trans version_lt-IsStrict (version v) (version u) k
            (lt_asym version_lt-IsStrict (version u) (version v) newer)
            (subst (λ x. version_lt (version x) k ≡ false) {x = w} {y = u} (same_view e) h),
      ))
      (λ _. (w, e, h))

HasSeen-own :
    (ev : RemoteEvent) (s : TaskStore)
    → is_empty (id_of ev) ≡ false
    → HasSeen ev (Lww.apply_remote ev s)
HasSeen-own ev s h =
    subst (AtLeast (version (view_of ev)))
      (sym (seen-apply_remote (task_of ev) ev s h ∙ rw (text_eq_refl (task_of ev)) refl))
      (latest-AtLeast (seen (task_of ev) s) (view_of ev))

HasSeen-other :
    (ev other : RemoteEvent) (s : TaskStore)
    → is_empty (id_of other) ≡ false
    → HasSeen ev s
    → HasSeen ev (Lww.apply_remote other s)
HasSeen-other ev other s h had =
    subst (AtLeast (version (view_of ev))) (sym (seen-apply_remote (task_of ev) other s h)) (
      branches (AtLeast (version (view_of ev))) (text_eq (task_of other) (task_of ev))
        (latest version_lt version (seen (task_of ev) s) (view_of other)) (seen (task_of ev) s)
        (λ _. AtLeast-latest (version (view_of ev)) (seen (task_of ev) s) (view_of other) had)
        (λ _. had))

asked_for : {ev other : RemoteEvent} → some other ≡ some ev → ev ≡ other
asked_for e = cc e

remote_by_op-id :
    (op : Op) (updated : ℕ) (event : SyncEvent) (opened : Option EventPlaintext) (ev : RemoteEvent)
    → remote_by_op op updated event opened ≡ some ev
    → id_of ev ≡ event.event_id
unfolding remote_by_op
remote_by_op-id delete updated event opened ev e = ap id_of (asked_for e)
remote_by_op-id upsert updated event none ev e = cc e
remote_by_op-id upsert updated event (some pt) ev e = ap id_of (asked_for e)

remote_of-id :
    (updated : ℕ) (event : SyncEvent) (opened : Outcome (Option EventPlaintext)) (ev : RemoteEvent)
    → remote_of updated event opened ≡ some ev
    → id_of ev ≡ event.event_id
unfolding remote_of
remote_of-id updated event threw ev e = cc e
remote_of-id updated event (returned opened) ev e =
    remote_by_op-id event.op updated event opened ev e

-- Each event has an id.
abbrev pub AreNamed : List SyncEvent → Type 0
AreNamed events = (event : SyncEvent) → In event events → is_empty event.event_id ≡ false

module _ {N : Type 0} (world : World N) (runtime : Runtime) (identity : Identity)
    (encryption_key : Bytes) where
  -- An event of the account that says `ev`: its date and its text can be read, and it is not an upsert that is
  -- too old by a time that the clock shows.
  abbrev pub Says : SyncEvent → RemoteEvent → Type 0
  Says event ev =
      (updated : ℕ) × (event.account_did ≡ identity.account_did)
      × (iso_parse runtime event.updated_at ≡ some updated)
      × ((n : N) → is_old_upsert (world.now n).0 updated event ≡ false)
      × (remote_of updated event (open_event runtime event encryption_key) ≡ some ev)

  -- What one event does to a store.
  abbrev Does : SyncEvent → TaskStore → TaskStore → Type 0
  Does event s s' =
      (s' ≡ s) ⊎ ((ev : RemoteEvent) × (id_of ev ≡ event.event_id) × (s' ≡ Lww.apply_remote ev s))

  abbrev store_of : Outcome Unit × TaskStore × N → TaskStore
  store_of r = r.1

  write_remote_event-Does :
      (event : SyncEvent) (o : Option RemoteEvent) (s : TaskStore) (n : N)
      → ((ev : RemoteEvent) → o ≡ some ev → id_of ev ≡ event.event_id)
      → Does event s (store_of (write_remote_event world runtime identity encryption_key o s n))
  unfolding write_remote_event
  write_remote_event-Does event none s n h = inl refl
  write_remote_event-Does event (some ev) s n h =
      branches (λ r. Does event s (store_of r)) (world.commits n).0 _ _
        (λ _. inr (ev, h ev refl, refl)) (λ _. inl refl)

  apply_dated-Does :
      (event : SyncEvent) (o : Option ℕ) (s : TaskStore) (n : N)
      → Does event s (store_of (apply_dated world runtime identity encryption_key o event s n))
  unfolding apply_dated
  apply_dated-Does event none s n = inl refl
  apply_dated-Does event (some updated) s n =
      branches (λ r. Does event s (store_of r)) (is_old_upsert (world.now n).0 updated event) _ _
        (λ _. inl refl)
        (λ _.
          write_remote_event-Does event _ s _
            (remote_of-id updated event (open_event runtime event encryption_key)))

  apply_remote-Does :
      (event : SyncEvent) (s : TaskStore) (n : N)
      → Does event s (store_of (apply_remote world runtime identity encryption_key event s n))
  unfolding apply_remote
  apply_remote-Does event s n =
      branches (λ r. Does event s (store_of r)) (text_eq event.account_did identity.account_did) _ _
        (λ _. apply_dated-Does event (iso_parse runtime event.updated_at) s n) (λ _. inl refl)

  Does-HasSeen :
      (event : SyncEvent) (s s' : TaskStore) (ev : RemoteEvent)
      → is_empty event.event_id ≡ false
      → Does event s s'
      → HasSeen ev s
      → HasSeen ev s'
  Does-HasSeen event s s' ev named (inl same) had = subst (HasSeen ev) (sym same) had
  Does-HasSeen event s s' ev named (inr (other, id, new)) had =
      subst (HasSeen ev) (sym new) (HasSeen-other ev other s (ap is_empty id ∙ named) had)

  write_remote_event-HasSeen :
      (ev : RemoteEvent) (s : TaskStore) (n : N)
      → is_empty (id_of ev) ≡ false
      → let r = write_remote_event world runtime identity encryption_key (some ev) s n in
        r.0 ≡ returned tt → HasSeen ev (store_of r)
  unfolding write_remote_event
  write_remote_event-HasSeen ev s n h =
      branches (λ (r : Outcome Unit × TaskStore × N). r.0 ≡ returned tt → HasSeen ev (store_of r))
        (world.commits n).0 _ _ (λ _ _. HasSeen-own ev s h) (λ _ e. cc e)

  -- An event that is applied without a throw has been seen.
  apply_remote-HasSeen :
      (event : SyncEvent) (ev : RemoteEvent) (s : TaskStore) (n : N)
      → is_empty event.event_id ≡ false
      → Says event ev
      → let r = apply_remote world runtime identity encryption_key event s n in
        r.0 ≡ returned tt → HasSeen ev (store_of r)
  unfolding apply_remote apply_dated
  apply_remote-HasSeen event ev s n named (updated, own, dated, young, says) =
      rw ((text_eq_iff event.account_did identity.account_did).1 own, dated, young n, says)
        (write_remote_event-HasSeen ev s _ (
          ap is_empty (remote_of-id updated event (open_event runtime event encryption_key) ev says)
          ∙ named))

  unless_threw-keeps :
      (P : TaskStore → Type 0) (r : Outcome Unit × TaskStore × N)
      (k : TaskStore → N → Outcome Unit × TaskStore × N)
      → P r.1
      → ((s : TaskStore) (n : N) → P s → P (k s n).1)
      → P (unless_threw r k).1
  unless_threw-keeps P (threw, s, n) k now later = now
  unless_threw-keeps P (returned _, s, n) k now later = later s n now

  unless_threw-returned :
      (r : Outcome Unit × TaskStore × N) (k : TaskStore → N → Outcome Unit × TaskStore × N)
      → (unless_threw r k).0 ≡ returned tt
      → (r.0 ≡ returned tt) × ((k r.1 r.2).0 ≡ returned tt) × (unless_threw r k ≡ k r.1 r.2)
  unless_threw-returned (threw, s, n) k e = cc e
  unless_threw-returned (returned _, s, n) k e = (refl, e, refl)

  apply_events-kept :
      (events : List SyncEvent) (ev : RemoteEvent) (s : TaskStore) (n : N)
      → AreNamed events
      → HasSeen ev s
      → HasSeen ev (store_of (apply_events world runtime identity encryption_key events s n))
  unfolding apply_events
  apply_events-kept [] ev s n named had = had
  apply_events-kept (event ∷ events) ev s n named had =
      unless_threw-keeps (HasSeen ev) (apply_remote world runtime identity encryption_key event s n)
        _ (Does-HasSeen event s _ ev (named event (inl refl)) (apply_remote-Does event s n) had)
        (λ s' n' h. apply_events-kept events ev s' n' (λ x m. named x (inr m)) h)

  -- A loop that ends without a throw has applied each event.
  pub apply_events-HasSeen :
      (events : List SyncEvent) (event : SyncEvent) (ev : RemoteEvent) (s : TaskStore) (n : N)
      → AreNamed events
      → In event events
      → Says event ev
      → let r = apply_events world runtime identity encryption_key events s n in
        r.0 ≡ returned tt → HasSeen ev (store_of r)
  unfolding apply_events
  apply_events-HasSeen [] event ev s n named m says e = absurd m
  apply_events-HasSeen (first ∷ events) event ev s n named m says e =
      let one = apply_remote world runtime identity encryption_key first s n in
      let rest = λ (s' : TaskStore) (n' : N).
        apply_events world runtime identity encryption_key events s' n' in
      let (done, over, same) = unless_threw-returned one rest e in
      subst (λ (r : Outcome Unit × TaskStore × N). HasSeen ev r.1) (sym same)
        (elim m [
          | inl it ↦
              apply_events-kept events ev one.1 one.2 (λ x k. named x (inr k))
                (apply_remote-HasSeen first ev s n (named first (inl refl))
                  (subst (λ x. Says x ev) it says) done)
          | inr later ↦
              apply_events-HasSeen events event ev one.1 one.2 (λ x k. named x (inr k)) later says
                over
        ])
