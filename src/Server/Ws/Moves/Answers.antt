-- ===== src/Server/Ws/Moves/Answers.antt =====
-- What the notifications of the hub of backend/server/src/ws-server.ts and the answers that it waits for do to its connections.
use corner_tasks.Prelude.{
  ℕ, ◌≡◌, ◌==◌, refl, false, Option, some, List, [], ◌∷◌, ◌++◌, leb, branches, or_else,
}
use corner_tasks.Prelude.Text.{Text, codes}
use corner_tasks.Prelude.Json.{Json, get_field, as_str}
use corner_tasks.Prelude.Outcome.{Outcome, returned, threw}
use corner_tasks.Core.Types.{QueryEventsResult}
use corner_tasks.Core.Auth.{TokenVerification, granted, refused}
use corner_tasks.Core.Http.{HttpResult, bad_token, token_expired}
use corner_tasks.Server.Ws.Frames.{
  unauthenticated, auth_ok, auth_err, push_ack, close_auth_failed, close_too_many_connections,
  too_many_connections, refusal_code, frame_handling_failed, because,
}
use corner_tasks.Server.Ws.Connection.{
  AuthWait, PushWait, Peer, is_closed, is_subscribed, send_frame,
}
use corner_tasks.Server.Ws.Pump.Soundness.{Honest}
use corner_tasks.Server.Ws.Hub.{
  Hub, set_peer, set_for, conclude, notify_peer, notify_ids, notify_account, connections_for,
}
use corner_tasks.Server.Ws.Messages.{
  begin_auth_with, begin_auth, admit, finish_auth, auth_result, resume_auth, handle_subscribe,
  can_subscribe, acknowledge, push_result, resume_push, read_reason, accepted_of, rejected_of,
  rejected_all,
}
use corner_tasks.Server.Ws.Moves.{
  says, asks, verifies, drops_auth, binds, subscribes, hears, Moves, no_move, then_move,
}
use corner_tasks.Server.Ws.Moves.Hubs.{
  HubMoves, HubMoves-trans, once, teardown-Moves, torn_after-Moves, update_peer-Moves,
}

module _ (ask : Text → Text → Outcome QueryEventsResult) (honest : Honest ask) where
  notify_peer-Moves :
      (origin : Option (ℕ × List Text)) (i : ℕ) (p : Peer) → Moves p (notify_peer ask origin i p)
  unfolding notify_peer
  notify_peer-Moves origin i p =
      branches (Moves p) (is_subscribed p.conn.state) _ p
        (λ sub. once (hears ask origin i honest sub)) (λ _. no_move)

  notify_ids-Moves :
      (origin : Option (ℕ × List Text)) (ids : List ℕ) (h : Hub)
      → HubMoves h (notify_ids ask origin ids h)
  unfolding notify_ids
  notify_ids-Moves origin [] h = λ j. no_move
  notify_ids-Moves origin (i ∷ ids) h =
      let notified = set_peer i (notify_peer ask origin i (h.peers i)) h in
      HubMoves-trans h notified (notify_ids ask origin ids notified)
        (update_peer-Moves h.peers i _ (notify_peer-Moves origin i (h.peers i)))
        (notify_ids-Moves origin ids notified)

  pub notify_account-Moves :
      (a : Text) (origin : Option (ℕ × List Text)) (h : Hub)
      → HubMoves h (notify_account ask a origin h)
  unfolding notify_account
  notify_account-Moves a origin h = notify_ids-Moves origin (or_else (set_for a h.by_account) []) h

  pub handle_subscribe-Moves : (msg : Json) (p : Peer) → Moves p (handle_subscribe ask msg p)
  unfolding handle_subscribe
  handle_subscribe-Moves msg p =
      branches (Moves p) (can_subscribe p.conn.state) _ p
        (λ can. once (subscribes ask msg honest can)) (λ _. no_move)

  acknowledge-Moves :
      (i : ℕ) (call : PushWait) (result : HttpResult) (h : Hub)
      → HubMoves h (acknowledge ask i call result h)
  unfolding acknowledge
  acknowledge-Moves i call result h =
      branches (HubMoves h) (result.status == 401) _ _
        (λ _.
          let reason = or_else (read_reason result.body) token_expired in
          torn_after-Moves i close_auth_failed (because reason)
            (send_frame (auth_err reason) (h.peers i)) h (once (says (auth_err reason) refl)))
        (λ _.
          branches (HubMoves h) (result.status == 200) _ _
            (λ _.
              let ack = push_ack call.push_id (accepted_of result.body) (rejected_of result.body) in
              let told = set_peer i (send_frame ack (h.peers i)) h in
              HubMoves-trans h told
                (notify_account ask call.account_did (some (i, accepted_of result.body)) told)
                (update_peer-Moves h.peers i _ (once (says ack refl)))
                (notify_account-Moves call.account_did (some (i, accepted_of result.body)) told))
            (λ _. update_peer-Moves h.peers i _ (
              once
                (says (push_ack call.push_id [] (rejected_all result.status call.events)) refl))))

  push_result-Moves :
      (i : ℕ) (call : PushWait) (response : Outcome HttpResult) (h : Hub)
      → HubMoves h (push_result ask i call response h)
  unfolding push_result
  push_result-Moves i call threw h = teardown-Moves i 1011 frame_handling_failed h
  push_result-Moves i call (returned result) h =
      branches (HubMoves h) (is_closed (h.peers i).conn.state) h _ (λ _ j. no_move)
        (λ _. acknowledge-Moves i call result h)

  pub resume_push-Moves :
      (i : ℕ) (call : PushWait) (h : Hub) → HubMoves h (resume_push ask i call h)
  unfolding resume_push
  resume_push-Moves i call h = push_result-Moves i call call.response h

module _ (max i : ℕ) (token : Text) (before after : List AuthWait) (call : AuthWait) (h : Hub)
    (e : (h.peers i).auths ≡ before ++ call ∷ after) where
  abbrev rest_of : Peer
  rest_of = record (h.peers i) { auths = before ++ after }

  dropped : Moves (h.peers i) rest_of
  dropped = once (drops_auth before after call e)

  admit-Moves :
      (a : Text)
      → is_closed (h.peers i).conn.state ≡ false
      → HubMoves h (admit max i a token rest_of h)
  unfolding admit
  admit-Moves a there =
      branches (HubMoves h) (leb max (connections_for a h.by_account)) _ _
        (λ _. torn_after-Moves i close_too_many_connections too_many_connections rest_of h dropped)
        (λ _.
          update_peer-Moves h.peers i _
            (then_move (once (binds a token before after call e there)) (says (auth_ok a) refl)))

  finish_auth-Moves :
      (result : TokenVerification)
      → is_closed (h.peers i).conn.state ≡ false
      → HubMoves h (finish_auth max i token result rest_of h)
  unfolding finish_auth
  finish_auth-Moves (granted a) there = admit-Moves a there
  finish_auth-Moves (refused reason) there =
      torn_after-Moves i (refusal_code reason) (because reason)
        (send_frame (auth_err reason) rest_of) h (then_move dropped (says (auth_err reason) refl))

  pub auth_result-Moves :
      (o : Outcome TokenVerification) → HubMoves h (auth_result max i token o rest_of h)
  unfolding auth_result
  auth_result-Moves threw = torn_after-Moves i 1011 frame_handling_failed rest_of h dropped
  auth_result-Moves (returned result) =
      branches (HubMoves h) (is_closed (h.peers i).conn.state) _ _
        (λ _. update_peer-Moves h.peers i rest_of dropped) (λ there. finish_auth-Moves result there)

pub resume_auth-Moves :
    (max i : ℕ) (before after : List AuthWait) (call : AuthWait) (h : Hub)
    → (h.peers i).auths ≡ before ++ call ∷ after
    → HubMoves h (resume_auth max i call (before ++ after) h)
unfolding resume_auth
resume_auth-Moves max i before after call h e =
    auth_result-Moves max i call.presented before after call h e call.verified

begin_auth_with-Moves :
    (verify : Text → Outcome TokenVerification) (token : Text) (i : ℕ) (h : Hub)
    → (h.peers i).conn.state ≡ unauthenticated
    → HubMoves h (conclude i (begin_auth_with verify token (h.peers i)) h)
unfolding begin_auth_with conclude
begin_auth_with-Moves verify [] i h e =
    torn_after-Moves i close_auth_failed (because bad_token) _ h
      (then_move (once (asks e)) (says (auth_err bad_token) refl))
begin_auth_with-Moves verify (c ∷ token) i h e = update_peer-Moves h.peers i _ (once (verifies _ e))

pub begin_auth-Moves :
    (verify : Text → Outcome TokenVerification) (msg : Json) (i : ℕ) (h : Hub)
    → (h.peers i).conn.state ≡ unauthenticated
    → HubMoves h (conclude i (begin_auth verify msg (h.peers i)) h)
unfolding begin_auth
begin_auth-Moves verify msg i h e =
    begin_auth_with-Moves verify (or_else (as_str (get_field (codes "token") msg)) []) i h e
