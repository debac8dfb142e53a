-- ===== src/Web/Socket/Negotiation/Reachable.antt =====
-- The reconnect policy of apps/web/src/sync/NegotiatingTransport.ts, after any number of steps.
use corner_tasks.Prelude.{◌≤◌, ◌≡◌, refl, ℕ, branches, arith, Bool, true, false, Option, none, some}
use corner_tasks.Prelude.Text.{Text, codes, text_eq}
use corner_tasks.Web.Socket.Client.{
  SocketClient, auth_err, on_open, transmit, end_push, is_waiting_push, on_push_timeout,
}
use corner_tasks.Web.Socket.Negotiation.{
  lose, hear, on_socket_close, dispatch, on_auth_err, teardown_socket, close_current, Negotiator,
  new_negotiator, stop, Step, starts, stops, meta_answers, visibility_changes, network_changes,
  reconnect_fires, give_up_fires, bearer_arrives, bearer_fails, opens, hears, loses, push_times_out,
  Reach, here, next,
}
use corner_tasks.Web.Socket.Negotiation.Policy.{
  CapIsBounded, Disabled, Follows, Follows-refl, Follows-same, set_client-Follows, via,
}
use corner_tasks.Web.Socket.Negotiation.Following.{
  on_meta-Follows, start-Follows, hush-Follows, on_reconnect-Follows, on_give_up-Follows,
  on_visibility_change-Follows, on_network_change-Follows, on_bearer-Follows,
  on_bearer_failed-Follows, hear-Follows, lose-Follows,
}

on_push_timeout-socket :
    (id : Text) (c : SocketClient) → (on_push_timeout id c).has_socket ≡ true → c.has_socket ≡ true
unfolding on_push_timeout end_push
on_push_timeout-socket id c =
    branches (λ (d : SocketClient). d.has_socket ≡ true → c.has_socket ≡ true)
      (is_waiting_push id c.pending) _ _ (λ _ h. h) (λ _ h. h)

close_current-disabled :
    (ws : Option ℕ) (n : Negotiator) → (close_current ws n).ws_disabled ≡ n.ws_disabled
unfolding close_current
close_current-disabled none n = refl
close_current-disabled (some k) n = refl

module _ (has_bearer_provider ws_runtime_available : Bool) where
  abbrev Stepped : Negotiator → Negotiator → Type 0
  Stepped = Step has_bearer_provider ws_runtime_available

  abbrev pub Reached : Negotiator → Negotiator → Type 0
  Reached = Reach has_bearer_provider ws_runtime_available

  Step-Follows : {n m : Negotiator} → Stepped n m → Follows n m
  unfolding stop
  Step-Follows {n} (starts _) = start-Follows has_bearer_provider ws_runtime_available n
  Step-Follows {n} (stops _) =
      via (record n { stopped = true }) (Follows-same refl refl refl refl refl)
        (hush-Follows has_bearer_provider ws_runtime_available _)
  Step-Follows {n} (meta_answers meta) =
      on_meta-Follows has_bearer_provider ws_runtime_available meta n
  Step-Follows {n} (visibility_changes hidden _) =
      on_visibility_change-Follows has_bearer_provider ws_runtime_available hidden n
  Step-Follows {n} (network_changes _) =
      on_network_change-Follows has_bearer_provider ws_runtime_available n
  Step-Follows {n} (reconnect_fires cap _) =
      on_reconnect-Follows has_bearer_provider ws_runtime_available n
  Step-Follows {n} (give_up_fires _) = on_give_up-Follows has_bearer_provider ws_runtime_available n
  Step-Follows {n} (bearer_arrives k _) =
      on_bearer-Follows has_bearer_provider ws_runtime_available k n
  Step-Follows {n} (bearer_fails k _) =
      on_bearer_failed-Follows has_bearer_provider ws_runtime_available k n
  Step-Follows {n} (opens k token _) =
      set_client-Follows k (on_open token (n.clients k)) n (unfold on_open transmit in λ h. h)
  Step-Follows {n} (hears k cursor msg _) =
      hear-Follows has_bearer_provider ws_runtime_available k cursor msg n
  Step-Follows {n} (loses k code _) = lose-Follows has_bearer_provider ws_runtime_available k code n
  Step-Follows {n} (push_times_out k id) =
      set_client-Follows k (on_push_timeout id (n.clients k)) n
        (on_push_timeout-socket id (n.clients k))

  Reach-Follows : {n m : Negotiator} → Reached n m → Follows n m
  Reach-Follows here = Follows-refl _
  Reach-Follows (next {m} reach step) = via m (Reach-Follows reach) (Step-Follows step)

  -- Why the transport is switched off: a socket is closed with 4403 while the transport is not stopped, or a
  -- token is refused for `bad_audience`.
  pub data Refusal (n : Negotiator) : Negotiator → Type 0 where
    forbidden :
        (k : ℕ)
        → n.stopped ≡ false
        → Refusal n (lose has_bearer_provider ws_runtime_available k 4403 n)
    wrong_audience :
        (k : ℕ) (cursor : Text)
        → Refusal n (
            hear has_bearer_provider ws_runtime_available k cursor
              (auth_err (codes "bad_audience"))
              n)

  Refusal-Disabled : {n m : Negotiator} → Refusal n m → Disabled (λ _. true) m
  unfolding lose hear on_socket_close dispatch on_auth_err teardown_socket text_eq
  Refusal-Disabled (forbidden k there) =
      rw there (record { off = refl; nobody = refl; within = λ j h. refl })
  Refusal-Disabled (wrong_audience k cursor) = record {
    off = close_current-disabled _ _;
    nobody = refl;
    within = λ j h. refl;
  }

  -- Once a socket of a transport that is not stopped has been closed with 4403, or a token has been refused for
  -- `bad_audience`, the WebSocket transport is switched off and stays off, whatever happens: no later step has
  -- a client get a browser socket.
  pub disabled_for_good :
      (n m l l' : Negotiator)
      → Refusal n m
      → Reached m l
      → Stepped l l'
      → (l'.ws_disabled ≡ true)
        × ((j : ℕ) → (l'.clients j).has_socket ≡ true → (l.clients j).has_socket ≡ true)
  disabled_for_good n m l l' why reach step =
      let d = (Reach-Follows reach).disabled (λ _. true) (Refusal-Disabled why) in
      let e =
        (Step-Follows step).disabled (λ j. (l.clients j).has_socket)
          (record { off = d.off; nobody = d.nobody; within = λ j h. h }) in
      (e.off, e.within)

  -- Whatever a new transport has been through: the attempt that the back-off counts is at most 5, and the bound
  -- of a reconnect delay that is set is from one second to thirty.
  pub backoff_bounded :
      (hidden : Bool) (n : Negotiator)
      → Reached (new_negotiator hidden) n
      → (n.backoff_attempt ≤ 5) × CapIsBounded n.reconnect
  backoff_bounded hidden n reach =
      let b = (Reach-Follows reach).bounded (record { attempt = omega arith; delay = tt }) in
      (b.attempt, b.delay)
