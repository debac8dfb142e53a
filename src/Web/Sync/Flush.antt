-- ===== src/Web/Sync/Flush.antt =====
-- What `flushPushes` of apps/web/src/sync/SyncEngine.ts may take out of the outbound queue.
use corner_tasks.Prelude.{
  ℕ, ◌≡◌, refl, sym, Bool, true, false, List, [], ◌∷◌, ◌⊎◌, inl, inr, In, Bool-cases, if◌then◌else◌,
  is_empty,
}
use corner_tasks.Prelude.Text.{Text, text_eq, text_eq_iff}
use corner_tasks.Core.Types.{SyncEvent}
use corner_tasks.Web.Wire.{Runtime}
use corner_tasks.Web.Session.{Reply, ok, failed, PushResponse, World, Identity, AuthSession, bearer}
use corner_tasks.Web.Tasks.{TaskStore, QueueRow}
use corner_tasks.Web.Tasks.Queue.{PendingQueueRow, pending_queue_rows, mark_row, mark_rows}
use corner_tasks.Web.Sync.{Engine, push_with_auth}
use corner_tasks.Web.Sync.Calls.{with_token_ok}
use corner_tasks.Web.Sync.Push.{
  is_skipped, skipped_ids, answered, mark_if_any, events_to_send, settle, send, flush_rows,
  flush_pushes,
}

mark_row_keeps :
    (at : ℕ) (id : Text) (r : QueueRow) (rows : List QueueRow)
    → In r rows
    → In r (mark_row at id rows) ⊎ (r.event_id ≡ id)
unfolding mark_row
mark_row_keeps at id r [] m = inl m
mark_row_keeps at id r (q ∷ rows) m = elim (Bool-cases (text_eq q.event_id id)) [
  | inl e ↦ rw e (elim m [
    | inl same ↦ inr (rw same ((text_eq_iff q.event_id id).0 e))
    | inr later ↦ inl (inr later)
  ])
  | inr e ↦ rw e (elim m [
    | inl same ↦ inl (inl same)
    | inr later ↦ elim (mark_row_keeps at id r rows later) [ inl k ↦ inl (inr k) | inr k ↦ inr k ]
  ])
]

mark_rows_keep :
    (at : ℕ) (ids : List Text) (r : QueueRow) (rows : List QueueRow)
    → In r rows
    → In r (mark_rows at ids rows) ⊎ In r.event_id ids
unfolding mark_rows
mark_rows_keep at [] r rows m = inl m
mark_rows_keep at (id ∷ ids) r rows m = elim (mark_row_keeps at id r rows m) [
  | inl kept ↦ elim (mark_rows_keep at ids r (mark_row at id rows) kept) [
    | inl k ↦ inl k
    | inr k ↦ inr (inr k)
  ]
  | inr marked ↦ inr (inl marked)
]

mark_if_any_keeps :
    (at : ℕ) (ids : List Text) (r : QueueRow) (s : TaskStore)
    → In r s.queue
    → In r (mark_if_any at ids s).queue ⊎ In r.event_id ids
mark_if_any_keeps at [] r s m = inl m
mark_if_any_keeps at (id ∷ ids) r s m = mark_rows_keep at (id ∷ ids) r s.queue m

-- A pending row of an upsert to a task that was archived long ago.
abbrev pub Archived : ℕ → TaskStore → Text → Type 0
Archived now s id =
    (row : PendingQueueRow) × In row (pending_queue_rows s)
    × (is_skipped now s row ≡ true)
    × (row.event_id ≡ id)

skipped_row :
    (now : ℕ) (s : TaskStore) (id : Text) (rows : List PendingQueueRow)
    → In id (skipped_ids now s rows)
    → (row : PendingQueueRow) × In row rows × (is_skipped now s row ≡ true) × (row.event_id ≡ id)
unfolding skipped_ids
skipped_row now s id [] m = absurd m
skipped_row now s id (row ∷ rows) m = go (is_skipped now s row) refl (skipped_row now s id rows) m
  where
    go :
        (b : Bool)
        → is_skipped now s row ≡ b
        → (In id (skipped_ids now s rows)
            → (q : PendingQueueRow) × In q rows × (is_skipped now s q ≡ true) × (q.event_id ≡ id))
        → In id (if b then row.event_id ∷ skipped_ids now s rows else skipped_ids now s rows)
        → (q : PendingQueueRow) × In q (row ∷ rows)
          × (is_skipped now s q ≡ true)
          × (q.event_id ≡ id)
    go true h ih (inl e) = (row, inl refl, h, sym e)
    go true h ih (inr later) = let (q, at, k, e) = ih later in (q, inr at, k, e)
    go false h ih later = let (q, at, k, e) = ih later in (q, inr at, k, e)

module _ {N : Type 0} (world : World N) (runtime : Runtime) (identity : Identity) where
  module _ (P : Text → Type 0)
      (only_P : (events : List SyncEvent) (token : Text) (n : N) (response : PushResponse)
          (id : Text)
        → (world.push identity.account_did events token n).0 ≡ ok response
        → In id (answered response)
        → P id) where
    settle_keeps :
        (events : List SyncEvent) (reply : Reply PushResponse) (session : AuthSession) (n : N)
        (e : Engine N) (r : QueueRow)
        → ((response : PushResponse)
            → reply ≡ ok response
            → (token : Text) × (m : N) × ((world.push identity.account_did events token m).0
                ≡ ok response))
        → In r e.store.queue
        → In r (settle world runtime identity (reply, session, n) e).store.queue ⊎ P r.event_id
    unfolding settle
    settle_keeps events (failed x) session n e r made m = inl m
    settle_keeps events (ok response) session n e r made m =
        let (token, k, eq) = made response refl in
        elim (mark_if_any_keeps (world.now n).0 (answered response) r e.store m) [
          | inl kept ↦ inl kept
          | inr settled ↦ inr (only_P events token k response r.event_id eq settled)
        ]

    send_keeps :
        (events : List SyncEvent) (e : Engine N) (r : QueueRow)
        → In r e.store.queue
        → In r (send world runtime identity events e).store.queue ⊎ P r.event_id
    unfolding send push_with_auth
    send_keeps [] e r m = inl m
    send_keeps (event ∷ events) e r m =
        let t = bearer world runtime identity e.session e.net in
        let reply = push_with_auth world runtime identity (event ∷ events) e.session e.net in
        settle_keeps (event ∷ events) reply.0 reply.1 reply.2 e r
          (λ response h.
            with_token_ok world runtime identity (world.push identity.account_did (event ∷ events))
              response t h)
          m

    flush_rows_keep :
        (rows : List PendingQueueRow) (e : Engine N) (r : QueueRow)
        → In r e.store.queue
        → In r (flush_rows world runtime identity rows e).store.queue
          ⊎ P r.event_id
          ⊎ In r.event_id (skipped_ids (world.now e.net).0 e.store rows)
    unfolding flush_rows skipped_ids
    flush_rows_keep [] e r m = inl m
    flush_rows_keep (row ∷ rows) e r m =
        let now = (world.now e.net).0 in
        let n = (world.now e.net).1 in
        let skipped = skipped_ids now e.store (row ∷ rows) in
        let at = (world.now n).0 in
        let next : Engine N = record e {
          store = mark_if_any at skipped e.store;
          net = if is_empty skipped then n else (world.now n).1;
        } in
        elim (mark_if_any_keeps at skipped r e.store m) [
          | inl kept ↦
              elim (send_keeps (events_to_send world runtime identity now e.store (row ∷ rows)) next
                r kept) [ inl k ↦ inl k | inr k ↦ inr (inl k) ]
          | inr old ↦ inr (inr old)
        ]

    -- A push leaves every row of the outbound queue as it is, but for those that it marks as sent: of
    -- these the server has answered for the event id (P holds of every id that a push reply accepts or
    -- rejects), or a pending upsert with that id is of a task archived before the cutoff.
    pub flush_pushes_keeps :
        (e : Engine N) (r : QueueRow)
        → In r e.store.queue
        → In r (flush_pushes world runtime identity e).store.queue
          ⊎ P r.event_id
          ⊎ Archived (world.now e.net).0 e.store r.event_id
    unfolding flush_pushes
    flush_pushes_keeps e r m = elim (flush_rows_keep (pending_queue_rows e.store) e r m) [
      | inl kept ↦ inl kept
      | inr (inl settled) ↦ inr (inl settled)
      | inr (inr old) ↦ inr (
          inr (skipped_row (world.now e.net).0 e.store r.event_id (pending_queue_rows e.store) old))
    ]
