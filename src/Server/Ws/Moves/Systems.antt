-- ===== src/Server/Ws/Moves/Systems.antt =====
-- The steps of the hub of backend/server/src/ws-server.ts as moves of its connections.
use corner_tasks.Prelude.{
  In, ℕ, suc, ◌≡◌, ◌⊎◌, ◌==◌, ==_iff, inl, inr, refl, sym, ap, ◌∙◌, subst, Bool, true, Option, none,
  some, List, ◌∷◌, ◌++◌, branches,
}
use corner_tasks.Prelude.Text.{Text, codes, text_eq}
use corner_tasks.Prelude.Json.{Json, Items, get_field, as_str}
use corner_tasks.Prelude.Outcome.{Outcome, returned, threw}
use corner_tasks.Core.Types.{QueryEventsResult}
use corner_tasks.Core.Config.{Config}
use corner_tasks.Core.Http.{HttpEvent, HttpResult, RequestBody}
use corner_tasks.Core.Auth.{verify_bearer_token}
use corner_tasks.Core.Store.{sqlite_store}
use corner_tasks.Core.Handlers.Push.{push}
use corner_tasks.Core.Sqlite.Rows.{Db}
use corner_tasks.Core.Sqlite.Methods.{query_events_after}
use corner_tasks.Core.Sqlite.Pull.{In-query_events_after}
use corner_tasks.Server.Ws.Frames.{ConnState, unauthenticated, authenticating, drain_failed}
use corner_tasks.Server.Ws.Connection.{ReadWait, PushWait, Peer, is_closed, touch, new_connection}
use corner_tasks.Server.Ws.Pump.{resume_pump, read_result, finish_pump}
use corner_tasks.Server.Ws.Pump.Soundness.{Honest, Valid}
use corner_tasks.Server.Ws.Hub.{Hub, new_peer, set_peer, conclude, on_connection}
use corner_tasks.Server.Ws.Messages.{
  Inbound, binary, text, Action, ignored, authenticate, subscribe, push_batch, answer_ping,
  action_of, act_in, typed_action, act_on_type, batch_of, resume_push,
}
use corner_tasks.Server.Ws.System.{
  System, Options, asking, push_with_id, handle_push, notify_named, pushed_account, without_read,
  act, on_message, fan_out, rest_push, answer_read, on_immediate, without_push, Step, connects,
  receives, auth_answered, read_answered, push_answered, immediate_runs, auth_timer_fires,
  ping_timer_fires, dead_timer_fires, socket_closes, socket_fails, pushed_over_http, shuts_down,
}
use corner_tasks.Server.Ws.Moves.{
  says, touches, reads_on, fails, returns, pushes, drops_push, Moves, no_move, then_move,
}
use corner_tasks.Server.Ws.Moves.Hubs.{
  HubMoves, HubMoves-trans, update_peer-Moves, update_peer-same, conclude-Moves, teardown_set-Moves,
  on_dead_timer-Moves, on_error-Moves, shut_down-Moves, on_auth_timer-Moves, on_ping_timer-Moves,
  on_close-Moves,
}
use corner_tasks.Server.Ws.Moves.Answers.{
  begin_auth-Moves, handle_subscribe-Moves, notify_account-Moves, resume_auth-Moves,
  resume_push-Moves,
}

module _ (config : Config) (opts : Options) where
  -- The store answers with rows of the account that is asked for.
  pub asking-Honest : (readable : Option ℕ) (db : Db) → Honest (asking config opts readable db)
  asking-Honest none db a cursor result e = λ s m. cc e
  asking-Honest (some now) db a cursor result e = λ s m.
      let same : query_events_after config.iso now a cursor db ≡ result = cc e in
      let (x, at, mine, past, live, equal) =
        In-query_events_after config.iso now a cursor db s
          (subst (λ (r : QueryEventsResult). In s r.events) (sym same) m) in
      rw equal mine

  -- Only a connection that has no account yet is asked to authenticate.
  act_on_type-authenticate :
      (kind : Text) (msg m : Json) → act_on_type kind msg ≡ authenticate m → ⊥
  unfolding act_on_type
  act_on_type-authenticate kind msg m =
      branches (λ action. action ≡ authenticate m → ⊥) (text_eq kind (codes "subscribe")) _ _
        (λ _ e. cc e)
        (λ _.
          branches (λ action. action ≡ authenticate m → ⊥) (text_eq kind (codes "push")) _ _
            (λ _ e. cc e)
            (λ _.
              branches (λ action. action ≡ authenticate m → ⊥) (text_eq kind (codes "ping")) _ _
                (λ _ e. cc e) (λ _ e. cc e)))

  typed_action-authenticate :
      (state : ConnState) (kind : Option Text) (msg m : Json)
      → typed_action state kind msg ≡ authenticate m
      → state ≡ unauthenticated
  unfolding typed_action act_in
  typed_action-authenticate state none msg m e = cc e
  typed_action-authenticate unauthenticated (some kind) msg m e = refl
  typed_action-authenticate authenticating (some kind) msg m e = cc e
  typed_action-authenticate _ (some kind) msg m e = absurd (act_on_type-authenticate kind msg m e)

  action_of-authenticate :
      (state : ConnState) (message : Inbound) (m : Json)
      → action_of state message ≡ authenticate m
      → state ≡ unauthenticated
  unfolding action_of
  action_of-authenticate state binary m e = cc e
  action_of-authenticate state (text none) m e = cc e
  action_of-authenticate state (text (some msg)) m e =
      branches (λ action. action ≡ authenticate m → state ≡ unauthenticated) (is_closed state) _ _
        (λ _ k. cc k)
        (λ _. typed_action-authenticate state (as_str (get_field (codes "type") msg)) msg m) e

  push_with_id-Moves :
      (now i : ℕ) (push_id : Option Text) (events : Items) (s : System)
      → HubMoves s.hub (push_with_id config opts now i push_id events s).hub
  unfolding push_with_id
  push_with_id-Moves now i none events s = λ j. no_move
  push_with_id-Moves now i (some push_id) events s =
      update_peer-Moves s.hub.peers i _ (then_move no_move (pushes push_id events _))

  handle_push-Moves :
      (now i : ℕ) (msg : Json) (s : System)
      → HubMoves s.hub (handle_push config opts now i msg s).hub
  unfolding handle_push
  handle_push-Moves now i msg s =
      push_with_id-Moves now i (as_str (get_field (codes "pushId") msg))
        (batch_of (get_field (codes "events") msg)) s

  act-Moves :
      (readable : Option ℕ) (now i : ℕ) (action : Action) (s : System)
      → ((m : Json) → action ≡ authenticate m → (s.hub.peers i).conn.state ≡ unauthenticated)
      → HubMoves s.hub (act config opts readable now i action s).hub
  unfolding act
  act-Moves readable now i ignored s fresh = λ j. no_move
  act-Moves readable now i (authenticate msg) s fresh =
      begin_auth-Moves (verify_bearer_token config.codec config.signing now) msg i s.hub
        (fresh msg refl)
  act-Moves readable now i (subscribe msg) s fresh =
      update_peer-Moves s.hub.peers i _
        (handle_subscribe-Moves _ (asking-Honest readable s.store) msg _)
  act-Moves readable now i (push_batch msg) s fresh = handle_push-Moves now i msg s
  act-Moves readable now i (answer_ping msg) s fresh =
      update_peer-Moves s.hub.peers i _ (then_move no_move (says _ refl))

  on_message-Moves :
      (readable : Option ℕ) (now i : ℕ) (message : Inbound) (s : System)
      → HubMoves s.hub (on_message config opts readable now i message s).hub
  unfolding on_message touch
  on_message-Moves readable now i message s =
      let p = record (s.hub.peers i) { conn = touch (s.hub.peers i).conn } in
      let h = set_peer i p s.hub in
      HubMoves-trans s.hub h
        (act config opts readable now i (action_of (s.hub.peers i).conn.state message)
          (record s { hub = h })).hub
        (update_peer-Moves s.hub.peers i p (then_move no_move touches))
        (act-Moves readable now i (action_of (s.hub.peers i).conn.state message)
          (record s { hub = h })
          (λ m e.
            ap (λ (q : Peer). q.conn.state) (update_peer-same s.hub.peers i p)
            ∙ action_of-authenticate (s.hub.peers i).conn.state message m e))

  notify_named-Moves :
      (readable : Option ℕ) (a : Option Text) (s : System)
      → HubMoves s.hub (notify_named config opts readable a s).hub
  unfolding notify_named
  notify_named-Moves readable none s = λ j. no_move
  notify_named-Moves readable (some a) s =
      notify_account-Moves (asking config opts readable s.store) (asking-Honest readable s.store) a
        none s.hub

  fan_out-Moves :
      (readable : Option ℕ) (body : RequestBody) (response : Outcome HttpResult) (s : System)
      → HubMoves s.hub (fan_out config opts readable body response s).hub
  unfolding fan_out
  fan_out-Moves readable body threw s = λ j. no_move
  fan_out-Moves readable body (returned result) s =
      branches (λ (t : System). HubMoves s.hub t.hub) (result.status == 200) _ _
        (λ _. notify_named-Moves readable (pushed_account config opts body) s) (λ _ j. no_move)

  rest_push-Moves :
      (readable : Option ℕ) (now : ℕ) (event : HttpEvent) (s : System)
      → HubMoves s.hub (rest_push config opts readable now event s).hub
  unfolding rest_push
  rest_push-Moves readable now event s =
      let (response, db) = push (sqlite_store config.iso) config now now event s.store in
      fan_out-Moves readable event.body response (record s { store = db })

  read_result-Moves :
      (readable : Option ℕ) (i : ℕ) (before after : List ReadWait) (call : ReadWait)
      (o : Outcome QueryEventsResult) (s : System)
      → (s.hub.peers i).reads ≡ before ++ call ∷ after
      → call.answer ≡ o
      → HubMoves s.hub (
          conclude i
            (read_result
              (asking config opts readable s.store)
              opts.chunk_size
              call
              o
              (without_read config opts (before ++ after) (s.hub.peers i)))
            s.hub)
  unfolding read_result finish_pump
  read_result-Moves readable i before after call threw s e k =
      teardown_set-Moves i 1011 drain_failed
        (finish_pump (without_read config opts (before ++ after) (s.hub.peers i))) s.hub
        (then_move no_move (fails before after call e))
  read_result-Moves readable i before after call (returned result) s e k =
      conclude-Moves i _ s.hub (
        then_move no_move (
          reads_on (asking config opts readable s.store) opts.chunk_size before after call result
            (asking-Honest readable s.store) e k))

  answer_read-Moves :
      (readable : Option ℕ) (i : ℕ) (before after : List ReadWait) (call : ReadWait) (s : System)
      → (s.hub.peers i).reads ≡ before ++ call ∷ after
      → HubMoves s.hub (answer_read config opts readable i call (before ++ after) s).hub
  unfolding answer_read resume_pump
  answer_read-Moves readable i before after call s e =
      read_result-Moves readable i before after call call.answer s e refl

  on_immediate-Moves :
      (readable : Option ℕ) (i left : ℕ) (s : System)
      → (s.hub.peers i).immediates ≡ suc left
      → HubMoves s.hub (on_immediate config opts readable i left s).hub
  unfolding on_immediate
  on_immediate-Moves readable i left s e = update_peer-Moves s.hub.peers i _ (
      then_move no_move
        (returns (asking config opts readable s.store) left (asking-Honest readable s.store) e))

  answer_push-Moves :
      (readable : Option ℕ) (i : ℕ) (call : PushWait) (rest : List PushWait) (s : System)
      → HubMoves s.hub (
          resume_push
            (asking config opts readable s.store)
            i
            call
            (without_push config opts i rest s.hub))
  answer_push-Moves readable i call rest s =
      HubMoves-trans s.hub (without_push config opts i rest s.hub)
        (resume_push (asking config opts readable s.store) i call
          (without_push config opts i rest s.hub))
        (update_peer-Moves s.hub.peers i _ (then_move no_move (drops_push rest)))
        (resume_push-Moves (asking config opts readable s.store) (asking-Honest readable s.store) i
          call (without_push config opts i rest s.hub))

  pub new_peer-Valid :
      (auth_timer ping_timer dead_timer : Bool)
      → Valid (record new_peer {
        conn = record new_connection {
          auth_timer = auth_timer;
          ping_timer = ping_timer;
          dead_timer = dead_timer;
        };
      })
  new_peer-Valid auth_timer ping_timer dead_timer = record {
    sound = record {
      anonymous = λ _. refl;
      idle = λ _. refl;
      named = λ h. cc h;
      waiting = λ c m. absurd m;
      one_auth = inl refl;
      own_reads = λ c m. absurd m;
      own_events = λ f w m. absurd m;
    };
    readers = refl;
    attended = λ h. cc h;
  }

  on_connection-Moves :
      (h : Hub) (j : ℕ)
      → Moves (h.peers j) ((on_connection h).peers j)
        ⊎ ((h.accepted ≡ j) × Valid ((on_connection h).peers j))
  unfolding on_connection touch
  on_connection-Moves h j =
      branches (λ p. Moves (h.peers j) p ⊎ ((h.accepted ≡ j) × Valid p)) (h.accepted == j) _ _
        (λ e. inr ((==_iff h.accepted j).0 e, new_peer-Valid true true true)) (λ _. inl no_move)

  -- A step makes moves of each connection, but for the one that is new.
  pub Step-Moves :
      {s t : System}
      → Step config opts s t
      → (j : ℕ)
      → Moves (s.hub.peers j) (t.hub.peers j) ⊎ ((s.hub.accepted ≡ j) × Valid (t.hub.peers j))
  Step-Moves {s} connects j = on_connection-Moves s.hub j
  Step-Moves {s} (receives readable now i message there) j =
      inl (on_message-Moves readable now i message s j)
  Step-Moves {s} (auth_answered i before after call e) j =
      inl (resume_auth-Moves opts.max_connections i before after call s.hub e j)
  Step-Moves {s} (read_answered readable i before after call e) j =
      inl (answer_read-Moves readable i before after call s e j)
  Step-Moves {s} (push_answered readable i before after call e) j =
      inl (answer_push-Moves readable i call (before ++ after) s j)
  Step-Moves {s} (immediate_runs readable i left e) j =
      inl (on_immediate-Moves readable i left s e j)
  Step-Moves {s} (auth_timer_fires i e) j = inl (on_auth_timer-Moves i s.hub j)
  Step-Moves {s} (ping_timer_fires i t e) j = inl (on_ping_timer-Moves i t s.hub j)
  Step-Moves {s} (dead_timer_fires i e) j = inl (on_dead_timer-Moves i s.hub j)
  Step-Moves {s} (socket_closes i there) j = inl (on_close-Moves i s.hub j)
  Step-Moves {s} (socket_fails i there) j = inl (on_error-Moves i s.hub j)
  Step-Moves {s} (pushed_over_http readable now event) j =
      inl (rest_push-Moves readable now event s j)
  Step-Moves {s} shuts_down j = inl (shut_down-Moves s.hub j)
