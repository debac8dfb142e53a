-- ===== src/Web/Socket/Negotiation.antt =====
-- apps/web/src/sync/NegotiatingTransport.ts: when a socket is opened, and what happens to it. A socket
-- is named by its place in the order of opening. A timer is whether it is set, that of the reconnect with
-- the bound that its random delay is below.
pub mod Policy
pub mod Following
pub mod Transport
pub mod Reachable
use corner_tasks.Prelude.{
  ℕ, zero, suc, ◌≡◌, ◌<◌, ◌+◌, ◌*◌, ◌^◌, min, Bool, true, false, not, ◌&&◌, ◌||◌, Option, none,
  some, List, [], ◌∷◌, ◌++◌, ◌==◌, leb, if◌then◌else◌, is_empty,
}
use corner_tasks.Prelude.Text.{Text, codes, text_eq}
use corner_tasks.Core.Types.{SyncEvent}
use corner_tasks.Web.Socket.Client.{
  SocketClient, new_client, Message, auth_ok, auth_err, events, live, transmit, subscribe, connect,
  on_open, on_push_timeout, close_client, handle_message,
}
use corner_tasks.Web.Socket.Meta.{MetaResponse, includes}

pub data WsPhase : Type 0 where
  idle connecting draining live_phase closed : WsPhase

pub data LastOutcome : Type 0 where
  untried went_ok went_wrong : LastOutcome

pub record Negotiator : Type 0 where
  pub stopped : Bool
  pub hidden : Bool
  pub ws_phase : WsPhase
  pub ws : Option ℕ
  pub ws_url : Option Text
  pub ws_disabled : Bool
  pub consecutive_failures : ℕ
  pub backoff_attempt : ℕ
  pub reconnect : Option ℕ
  pub give_up : Bool
  pub meta_in_flight : Bool
  pub last_outcome : LastOutcome
  pub buffered_events : List SyncEvent
  pub buffered_cursor : Option Text
  pub opened : ℕ
  pub clients : ℕ → SocketClient

abbrev pub new_negotiator : Bool → Negotiator
new_negotiator hidden = record {
  stopped = true;
  hidden = hidden;
  ws_phase = idle;
  ws = none;
  ws_url = none;
  ws_disabled = false;
  consecutive_failures = 0;
  backoff_attempt = 0;
  reconnect = none;
  give_up = false;
  meta_in_flight = false;
  last_outcome = untried;
  buffered_events = [];
  buffered_cursor = none;
  opened = 0;
  clients = λ _. new_client;
}

abbrev pub give_up_retry_ms : ℕ
give_up_retry_ms = 15 * 60000

abbrev pub set_client : ℕ → SocketClient → Negotiator → Negotiator
set_client k c n = record n { clients = λ j. if k == j then c else n.clients j }

abbrev pub is_current : ℕ → Option ℕ → Bool
is_current k none = false
is_current k (some j) = k == j

-- `this.ws?.closeSilently(...)`
unfoldable pub close_current : Option ℕ → Negotiator → Negotiator
close_current none n = n
close_current (some k) n = set_client k (close_client 1000 (n.clients k)) n

unfoldable pub teardown_socket : Negotiator → Negotiator
unfolding close_current
teardown_socket n = record (close_current n.ws n) { ws = none; ws_phase = idle }

unfoldable pub cancel_reconnect : Negotiator → Negotiator
cancel_reconnect n = record n { reconnect = none }

unfoldable pub cancel_give_up_timer : Negotiator → Negotiator
cancel_give_up_timer n = record n { give_up = false }

-- `capMs`
abbrev pub backoff_cap : ℕ → ℕ
backoff_cap attempt = min 30000 (1000 * 2 ^ min attempt 5)

unfoldable pub schedule_reconnect : Negotiator → Negotiator
schedule_reconnect n = if n.stopped || n.ws_disabled then n else record n {
  reconnect = some (backoff_cap n.backoff_attempt);
  backoff_attempt = min (n.backoff_attempt + 1) 5;
}

unfoldable pub schedule_give_up_retry : Negotiator → Negotiator
schedule_give_up_retry n = record n { give_up = true }

unfoldable pub register_failure : Negotiator → Negotiator
unfolding schedule_reconnect schedule_give_up_retry
register_failure n =
    let failed = record n {
      consecutive_failures = n.consecutive_failures + 1;
      ws_phase = idle;
      ws = none;
    } in
    if leb 3 (n.consecutive_failures + 1)
    then schedule_give_up_retry failed
    else schedule_reconnect failed

-- Neither `null` nor the empty text.
abbrev pub has_url : Option Text → Bool
has_url none = false
has_url (some url) = not (is_empty url)

abbrev pub is_live : WsPhase → Bool
is_live live_phase = true
is_live _ = false

-- The handler `onEvents`
unfoldable pub on_events : List SyncEvent → Text → Negotiator → Negotiator
on_events evs next_cursor n = record n {
  buffered_events = n.buffered_events ++ evs;
  buffered_cursor = some next_cursor;
}

module _ (has_bearer_provider ws_runtime_available : Bool) where
  unfoldable pub open_socket : Negotiator → Negotiator
  open_socket n =
      if n.stopped || not (has_url n.ws_url) || n.ws_disabled || n.hidden || not has_bearer_provider
      then n
      else record n {
        buffered_events = [];
        buffered_cursor = none;
        ws_phase = connecting;
        ws = some n.opened;
        opened = suc n.opened;
      }

  -- `negotiate` up to its `await`
  unfoldable pub negotiate : Negotiator → Negotiator
  negotiate n = if n.stopped || n.ws_disabled then n else record n { meta_in_flight = true }

  -- `negotiate` after it: `fetchMeta` has an answer.
  unfoldable pub on_meta : MetaResponse → Negotiator → Negotiator
  unfolding open_socket includes
  on_meta meta n =
      let answered = record n { meta_in_flight = false } in
      if n.stopped
      then answered
      else if includes (codes "ws") meta.transports && has_url meta.ws_url && ws_runtime_available
      then open_socket (record answered { ws_url = meta.ws_url })
      else record answered { ws_url = none; ws_phase = idle }

  unfoldable pub start : Negotiator → Negotiator
  unfolding negotiate
  start n =
      let started = record n { stopped = false } in if n.hidden then started else negotiate started

  unfoldable pub stop : Negotiator → Negotiator
  unfolding cancel_reconnect cancel_give_up_timer teardown_socket
  stop n = teardown_socket (cancel_give_up_timer (cancel_reconnect (record n { stopped = true })))

  -- The callbacks of the two timers
  unfoldable pub on_reconnect : Negotiator → Negotiator
  unfolding open_socket
  on_reconnect n = open_socket (record n { reconnect = none })

  unfoldable pub on_give_up : Negotiator → Negotiator
  unfolding open_socket
  on_give_up n =
      open_socket (record n { give_up = false; consecutive_failures = 0; backoff_attempt = 0 })

  abbrev pub fresh_attempts : Negotiator → Negotiator
  fresh_attempts n = record n { consecutive_failures = 0; backoff_attempt = 0 }

  -- `onVisibilityChange`, to `hidden` or not
  unfoldable pub on_visibility_change : Bool → Negotiator → Negotiator
  unfolding cancel_reconnect cancel_give_up_timer teardown_socket negotiate
  on_visibility_change true n =
      teardown_socket (cancel_give_up_timer (cancel_reconnect (record n { hidden = true })))
  on_visibility_change false n =
      negotiate
        (cancel_give_up_timer (cancel_reconnect (fresh_attempts (record n { hidden = false }))))

  unfoldable pub on_network_change : Negotiator → Negotiator
  unfolding cancel_reconnect cancel_give_up_timer negotiate
  on_network_change n =
      if n.stopped || n.hidden || is_live n.ws_phase
      then n
      else negotiate (cancel_give_up_timer (cancel_reconnect (fresh_attempts n)))

  -- `bearerProvider()` has given a token, or failed.
  unfoldable pub on_bearer : ℕ → Negotiator → Negotiator
  unfolding connect
  on_bearer k n = if is_current k n.ws then set_client k (connect (n.clients k)) n else n

  unfoldable pub on_bearer_failed : ℕ → Negotiator → Negotiator
  unfolding register_failure
  on_bearer_failed k n =
      if is_current k n.ws then register_failure (record n { ws = none; ws_phase = idle }) else n

  -- The handlers of `openSocket`; `cursor` is what the engine has stored.
  unfoldable pub on_auth_ok : ℕ → Text → Negotiator → Negotiator
  unfolding transmit
  on_auth_ok k cursor n =
      set_client k (transmit (subscribe cursor) (n.clients k)) (record n { ws_phase = draining })

  unfoldable pub on_auth_err : Text → Negotiator → Negotiator
  unfolding teardown_socket register_failure
  on_auth_err reason n =
      if text_eq reason (codes "bad_audience")
      then teardown_socket (record n { ws_disabled = true })
      else register_failure (teardown_socket n)

  unfoldable pub on_live : Negotiator → Negotiator
  on_live n = record (fresh_attempts n) { ws_phase = live_phase }

  unfoldable pub on_socket_close : ℕ → Negotiator → Negotiator
  unfolding register_failure schedule_reconnect
  on_socket_close code n =
      let gone = record n { ws_phase = closed; ws = none } in
      if n.stopped
      then gone
      else if code == 4403
      then record gone { ws_disabled = true }
      else if is_live n.ws_phase
      then schedule_reconnect (record gone { consecutive_failures = 0 })
      else register_failure gone

  unfoldable pub dispatch : ℕ → Text → Message → Negotiator → Negotiator
  unfolding on_auth_ok on_auth_err on_events on_live
  dispatch k cursor auth_ok n = on_auth_ok k cursor n
  dispatch k cursor (auth_err reason) n = on_auth_err reason n
  dispatch k cursor (events evs next_cursor) n = on_events evs next_cursor n
  dispatch k cursor live n = on_live n
  dispatch k cursor _ n = n

  -- A message of socket `k`: first the client, then the handler.
  unfoldable pub hear : ℕ → Text → Message → Negotiator → Negotiator
  unfolding handle_message dispatch
  hear k cursor msg n = dispatch k cursor msg (set_client k (handle_message msg (n.clients k)) n)

  -- Socket `k` has closed, or its watchdog has closed it.
  unfoldable pub lose : ℕ → ℕ → Negotiator → Negotiator
  unfolding close_client on_socket_close
  lose k code n = on_socket_close code (set_client k (close_client code (n.clients k)) n)

  -- What can happen, in any order. A socket's client that has been closed hears nothing more.
  pub data Step (n : Negotiator) : Negotiator → Type 0 where
    starts : n.stopped ≡ true → Step n (start n)
    stops : n.stopped ≡ false → Step n (stop n)
    meta_answers : (meta : MetaResponse) → Step n (on_meta meta n)
    visibility_changes :
        (hidden : Bool) → n.stopped ≡ false → Step n (on_visibility_change hidden n)
    network_changes : n.stopped ≡ false → Step n (on_network_change n)
    reconnect_fires : (cap : ℕ) → n.reconnect ≡ some cap → Step n (on_reconnect n)
    give_up_fires : n.give_up ≡ true → Step n (on_give_up n)
    bearer_arrives : (k : ℕ) → k < n.opened → Step n (on_bearer k n)
    bearer_fails : (k : ℕ) → k < n.opened → Step n (on_bearer_failed k n)
    opens :
        (k : ℕ) (token : Text)
        → (n.clients k).has_socket ≡ true
        → Step n (set_client k (on_open token (n.clients k)) n)
    hears :
        (k : ℕ) (cursor : Text) (msg : Message)
        → (n.clients k).has_socket ≡ true
        → Step n (hear k cursor msg n)
    loses : (k code : ℕ) → (n.clients k).has_socket ≡ true → Step n (lose k code n)
    push_times_out :
        (k : ℕ) (id : Text) → Step n (set_client k (on_push_timeout id (n.clients k)) n)

  pub data Reach (n : Negotiator) : Negotiator → Type 0 where
    here : Reach n n
    next : {m k : Negotiator} → Reach n m → Step m k → Reach n k
