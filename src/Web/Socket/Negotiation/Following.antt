-- ===== src/Web/Socket/Negotiation/Following.antt =====
-- The reconnect policy of apps/web/src/sync/NegotiatingTransport.ts, handler by handler.
use corner_tasks.Prelude.{
  ℕ, ◌≡◌, refl, subst, Bool, true, false, not, ◌&&◌, ◌||◌, Option, none, some, ◌==◌, arith,
  branches,
}
use corner_tasks.Prelude.Text.{Text, codes, text_eq}
use corner_tasks.Web.Socket.Client.{
  SocketClient, subscribe, transmit, end_push, is_waiting_push, push_ack, ping, handle_message,
  close_client, Message, auth_ok, auth_err, events, live,
}
use corner_tasks.Web.Socket.Meta.{MetaResponse, includes}
use corner_tasks.Web.Socket.Negotiation.{
  idle, closed, draining, Negotiator, set_client, is_current, teardown_socket, cancel_reconnect,
  cancel_give_up_timer, has_url, open_socket, negotiate, on_meta, start, on_reconnect, on_give_up,
  on_visibility_change, is_live, on_network_change, on_bearer, on_bearer_failed, on_auth_ok,
  on_auth_err, on_events, on_live, on_socket_close, dispatch, hear, lose,
}
use corner_tasks.Web.Socket.Negotiation.Policy.{
  Follows, Follows-same, Follows-leaving, set_client-Follows, Follows-refl, Follows-trans,
  cancel_reconnect-Follows, fresh-Follows, register_failure-Follows, schedule_reconnect-Follows,
  teardown_socket-Follows, via,
}

-- A message gives a client no socket.
handle_message-socket :
    (msg : Message) (c : SocketClient)
    → (handle_message msg c).has_socket ≡ true
    → c.has_socket ≡ true
unfolding handle_message end_push transmit
handle_message-socket (push_ack id response) c =
    branches (λ (d : SocketClient). d.has_socket ≡ true → c.has_socket ≡ true)
      (is_waiting_push id c.pending) _ _ (λ _ h. h) (λ _ h. h)
handle_message-socket (ping t) c = λ h. h
handle_message-socket _ c = λ h. h

nobody_current : (k : ℕ) (ws : Option ℕ) → ws ≡ none → is_current k ws ≡ true → ⊥
nobody_current k none e h = cc h
nobody_current k (some j) e h = cc e

module _ (has_bearer_provider ws_runtime_available : Bool) where
  open_socket-Follows :
      (n : Negotiator) → Follows n (open_socket has_bearer_provider ws_runtime_available n)
  unfolding open_socket
  open_socket-Follows n =
      branches (Follows n)
        (n.stopped
          || not (has_url n.ws_url)
          || n.ws_disabled
          || n.hidden
          || not has_bearer_provider)
        _ _ (λ _. Follows-refl n)
        (λ e. record {
          bounded = λ b. record { attempt = b.attempt; delay = b.delay };
          disabled = λ c d. ground (arith, e, d.off);
        })

  pub negotiate-Follows :
      (n : Negotiator) → Follows n (negotiate has_bearer_provider ws_runtime_available n)
  unfolding negotiate
  negotiate-Follows n =
      branches (Follows n) (n.stopped || n.ws_disabled) _ _ (λ _. Follows-refl n)
        (λ _. Follows-same refl refl refl refl refl)

  pub on_meta-Follows :
      (meta : MetaResponse) (n : Negotiator)
      → Follows n (on_meta has_bearer_provider ws_runtime_available meta n)
  unfolding on_meta
  on_meta-Follows meta n =
      branches (Follows n) n.stopped _ _ (λ _. Follows-same refl refl refl refl refl)
        (λ _.
          branches (Follows n)
            (includes (codes "ws") meta.transports && has_url meta.ws_url && ws_runtime_available) _
            _
            (λ _.
              via (record n { meta_in_flight = false; ws_url = meta.ws_url })
                (Follows-same refl refl refl refl refl) (open_socket-Follows _))
            (λ _. Follows-same refl refl refl refl refl))

  pub start-Follows :
      (n : Negotiator) → Follows n (start has_bearer_provider ws_runtime_available n)
  unfolding start
  start-Follows n =
      branches (Follows n) n.hidden _ _ (λ _. Follows-same refl refl refl refl refl)
        (λ _.
          via (record n { stopped = false }) (Follows-same refl refl refl refl refl)
            (negotiate-Follows _))

  -- Both timers are cancelled and the socket is closed.
  pub hush-Follows :
      (n : Negotiator) → Follows n (teardown_socket (cancel_give_up_timer (cancel_reconnect n)))
  unfolding cancel_give_up_timer
  hush-Follows n = Follows-trans (cancel_reconnect-Follows n) (
      via (cancel_give_up_timer (cancel_reconnect n)) (Follows-same refl refl refl refl refl)
        (teardown_socket-Follows _))

  pub on_reconnect-Follows :
      (n : Negotiator) → Follows n (on_reconnect has_bearer_provider ws_runtime_available n)
  unfolding on_reconnect cancel_reconnect
  on_reconnect-Follows n =
      via (record n { reconnect = none }) (cancel_reconnect-Follows n) (open_socket-Follows _)

  pub on_give_up-Follows :
      (n : Negotiator) → Follows n (on_give_up has_bearer_provider ws_runtime_available n)
  unfolding on_give_up
  on_give_up-Follows n =
      via (record n { give_up = false; consecutive_failures = 0; backoff_attempt = 0 })
        (fresh-Follows refl refl refl refl refl) (open_socket-Follows _)

  -- The attempts start anew, and a backend's answer is asked for.
  again-Follows :
      (n : Negotiator)
      → Follows n (
          negotiate has_bearer_provider ws_runtime_available (
            cancel_give_up_timer
              (cancel_reconnect (record n { consecutive_failures = 0; backoff_attempt = 0 }))))
  unfolding cancel_give_up_timer
  again-Follows n =
      via (record n { consecutive_failures = 0; backoff_attempt = 0 })
        (fresh-Follows refl refl refl refl refl)
        (Follows-trans (cancel_reconnect-Follows _) (
          via
            (cancel_give_up_timer
              (cancel_reconnect (record n { consecutive_failures = 0; backoff_attempt = 0 })))
            (Follows-same refl refl refl refl refl) (negotiate-Follows _)))

  pub on_visibility_change-Follows :
      (hidden : Bool) (n : Negotiator)
      → Follows n (on_visibility_change has_bearer_provider ws_runtime_available hidden n)
  unfolding on_visibility_change
  on_visibility_change-Follows true n =
      via (record n { hidden = true }) (Follows-same refl refl refl refl refl) (hush-Follows _)
  on_visibility_change-Follows false n =
      via (record n { hidden = false }) (Follows-same refl refl refl refl refl) (again-Follows _)

  pub on_network_change-Follows :
      (n : Negotiator) → Follows n (on_network_change has_bearer_provider ws_runtime_available n)
  unfolding on_network_change
  on_network_change-Follows n =
      branches (Follows n) (n.stopped || n.hidden || is_live n.ws_phase) _ _ (λ _. Follows-refl n)
        (λ _. again-Follows n)

  -- A client connects only while it is the current one.
  pub on_bearer-Follows :
      (k : ℕ) (n : Negotiator) → Follows n (on_bearer has_bearer_provider ws_runtime_available k n)
  unfolding on_bearer
  on_bearer-Follows k n =
      branches (Follows n) (is_current k n.ws) _ _
        (λ e. record {
          bounded = λ b. record { attempt = b.attempt; delay = b.delay };
          disabled = λ is_open d. absurd (nobody_current k n.ws d.nobody e);
        })
        (λ _. Follows-refl n)

  pub on_bearer_failed-Follows :
      (k : ℕ) (n : Negotiator)
      → Follows n (on_bearer_failed has_bearer_provider ws_runtime_available k n)
  unfolding on_bearer_failed
  on_bearer_failed-Follows k n =
      branches (Follows n) (is_current k n.ws) _ _
        (λ _.
          via (record n { ws = none; ws_phase = idle }) (Follows-leaving refl refl refl refl refl)
            (register_failure-Follows _))
        (λ _. Follows-refl n)

  -- The transport is switched off.
  off-Follows :
      {n m : Negotiator}
      → m.backoff_attempt ≡ n.backoff_attempt
      → m.reconnect ≡ n.reconnect
      → m.ws_disabled ≡ true
      → (n.ws ≡ none → m.ws ≡ none)
      → m.clients ≡ n.clients
      → Follows n m
  off-Follows a r d w c = record {
    bounded = λ b. record { attempt = rw a b.attempt; delay = rw r b.delay };
    disabled = λ is_open e. record {
      off = d;
      nobody = w e.nobody;
      within = λ j h. e.within j (subst (λ f. (f j).has_socket ≡ true) c h);
    };
  }

  on_auth_err-Follows :
      (reason : Text) (n : Negotiator)
      → Follows n (on_auth_err has_bearer_provider ws_runtime_available reason n)
  unfolding on_auth_err
  on_auth_err-Follows reason n =
      branches (Follows n) (text_eq reason (codes "bad_audience")) _ _
        (λ _.
          via (record n { ws_disabled = true }) (off-Follows refl refl refl (λ e. e) refl)
            (teardown_socket-Follows _))
        (λ _. Follows-trans (teardown_socket-Follows n) (register_failure-Follows _))

  on_socket_close-Follows :
      (code : ℕ) (n : Negotiator)
      → Follows n (on_socket_close has_bearer_provider ws_runtime_available code n)
  unfolding on_socket_close
  on_socket_close-Follows code n =
      branches (Follows n) n.stopped _ _ (λ _. Follows-leaving refl refl refl refl refl)
        (λ _.
          branches (Follows n) (code == 4403) _ _ (λ _. off-Follows refl refl refl (λ _. refl) refl)
            (λ _.
              branches (Follows n) (is_live n.ws_phase) _ _
                (λ _.
                  via (record n { ws_phase = closed; ws = none; consecutive_failures = 0 })
                    (Follows-leaving refl refl refl refl refl) (schedule_reconnect-Follows _))
                (λ _.
                  via (record n { ws_phase = closed; ws = none })
                    (Follows-leaving refl refl refl refl refl) (register_failure-Follows _))))

  dispatch-Follows :
      (k : ℕ) (cursor : Text) (msg : Message) (n : Negotiator)
      → Follows n (dispatch has_bearer_provider ws_runtime_available k cursor msg n)
  unfolding dispatch on_auth_ok on_events on_live
  dispatch-Follows k cursor auth_ok n =
      via (record n { ws_phase = draining }) (Follows-same refl refl refl refl refl)
        (set_client-Follows k (transmit (subscribe cursor) (n.clients k))
          (record n { ws_phase = draining }) (unfold transmit in λ h. h))
  dispatch-Follows k cursor (auth_err reason) n = on_auth_err-Follows reason n
  dispatch-Follows k cursor (events evs next_cursor) n = Follows-same refl refl refl refl refl
  dispatch-Follows k cursor live n = fresh-Follows refl refl refl refl refl
  dispatch-Follows k cursor _ n = Follows-refl n

  pub hear-Follows :
      (k : ℕ) (cursor : Text) (msg : Message) (n : Negotiator)
      → Follows n (hear has_bearer_provider ws_runtime_available k cursor msg n)
  unfolding hear
  hear-Follows k cursor msg n =
      via (set_client k (handle_message msg (n.clients k)) n)
        (set_client-Follows k (handle_message msg (n.clients k)) n
          (handle_message-socket msg (n.clients k)))
        (dispatch-Follows k cursor msg _)

  pub lose-Follows :
      (k code : ℕ) (n : Negotiator)
      → Follows n (lose has_bearer_provider ws_runtime_available k code n)
  unfolding lose
  lose-Follows k code n =
      via (set_client k (close_client code (n.clients k)) n)
        (set_client-Follows k (close_client code (n.clients k)) n
          (unfold close_client in λ h. cc h))
        (on_socket_close-Follows code _)
