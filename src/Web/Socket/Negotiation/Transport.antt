-- ===== src/Web/Socket/Negotiation/Transport.antt =====
-- The calls that the sync engine makes of apps/web/src/sync/NegotiatingTransport.ts.
use corner_tasks.Prelude.{
  Bool, true, false, ◌&&◌, Option, none, some, List, [], ◌∷◌, is_some, or_else, if◌then◌else◌,
}
use corner_tasks.Prelude.Text.{Text}
use corner_tasks.Core.Types.{SyncEvent}
use corner_tasks.Web.Session.{Reply, ok, failed, PushResponse, PullResponse, World}
use corner_tasks.Web.Sync.{ConnectionState, checking, live, polling, syncing, failing}
use corner_tasks.Web.Socket.Negotiation.{
  WsPhase, connecting, draining, live_phase, LastOutcome, untried, went_ok, went_wrong, Negotiator,
  is_live,
}

abbrev outcome_of : {A : Type 0} → Reply A → LastOutcome
outcome_of (ok _) = went_ok
outcome_of (failed _) = went_wrong

-- The answer of the socket's push, `none` where its promise is rejected, or where there is no live socket.
abbrev pub over_socket : Option PushResponse → Negotiator → Option PushResponse
over_socket answer n = if is_live n.ws_phase && is_some n.ws then answer else none

module _ {N : Type 0} (world : World N) where
  unfoldable pub push_or_rest :
      Option PushResponse
      → Text
      → List SyncEvent
      → Text
      → Negotiator
      → N
      → Reply PushResponse × Negotiator × N
  push_or_rest (some response) account evs bearer n net =
      (ok response, record n { last_outcome = went_ok }, net)
  push_or_rest none account evs bearer n net =
      let (reply, net') = world.push account evs bearer net in
      (reply, record n { last_outcome = outcome_of reply }, net')

  unfoldable pub push_events :
      Option PushResponse
      → Text
      → List SyncEvent
      → Text
      → Negotiator
      → N
      → Reply PushResponse × Negotiator × N
  unfolding push_or_rest
  push_events answer account evs bearer n net =
      push_or_rest (over_socket answer n) account evs bearer n net

  unfoldable pub pull_rest :
      Text → Text → Text → Negotiator → N → Reply PullResponse × Negotiator × N
  pull_rest account cursor bearer n net =
      let (reply, net') = world.pull account cursor bearer net in
      (reply, record n { last_outcome = outcome_of reply }, net')

  -- `buffered` are the buffered events.
  unfoldable pub pull_from :
      List SyncEvent → Text → Text → Text → Negotiator → N → Reply PullResponse × Negotiator × N
  unfolding pull_rest
  pull_from [] account cursor bearer n net =
      if is_live n.ws_phase
      then (ok (record { events = []; next_cursor = cursor }), n, net)
      else pull_rest account cursor bearer n net
  pull_from (ev ∷ evs) account cursor bearer n net = (
    ok (record { events = ev ∷ evs; next_cursor = or_else n.buffered_cursor cursor }),
    record n { buffered_events = []; buffered_cursor = none },
    net,
  )

  unfoldable pub pull_events :
      Text → Text → Text → Negotiator → N → Reply PullResponse × Negotiator × N
  unfolding pull_from
  pull_events account cursor bearer n net = pull_from n.buffered_events account cursor bearer n net

-- `connectionState`
unfoldable pub outcome_state : Bool → LastOutcome → ConnectionState
outcome_state true outcome = checking
outcome_state false went_ok = polling
outcome_state false went_wrong = failing
outcome_state false untried = checking

unfoldable pub socket_state : WsPhase → Bool → LastOutcome → ConnectionState
unfolding outcome_state
socket_state live_phase meta_in_flight outcome = live
socket_state connecting meta_in_flight outcome = syncing
socket_state draining meta_in_flight outcome = syncing
socket_state _ meta_in_flight outcome = outcome_state meta_in_flight outcome

unfoldable pub connection_state : Negotiator → ConnectionState
unfolding socket_state
connection_state n = socket_state n.ws_phase n.meta_in_flight n.last_outcome
