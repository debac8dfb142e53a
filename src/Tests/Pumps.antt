-- ===== src/Tests/Pumps.antt =====
-- The theorem on the end of a pump, at a connection that is notified before each answer.
use corner_tasks.Prelude.{ℕ, refl, true, none, some, List, [], ◌∷◌}
use corner_tasks.Prelude.Text.{Text}
use corner_tasks.Prelude.Outcome.{Outcome, returned}
use corner_tasks.Core.Types.{QueryEventsResult}
use corner_tasks.Core.Sqlite.Methods.{query_events_after, put_event}
use corner_tasks.Core.Sqlite.Rows.{create_schema}
use corner_tasks.Server.Ws.Frames.{draining}
use corner_tasks.Server.Ws.Connection.{Peer}
use corner_tasks.Server.Ws.Hub.{new_peer}
use corner_tasks.Server.Ws.Pump.{pump}
use corner_tasks.Server.Ws.Pump.Rounds.{Arrival, notified, answers, AtRest, pump_rests}
use corner_tasks.Tests.Fixtures.{alice, iso, monday}

abbrev subscribed : Peer
subscribed = record new_peer {
  conn = record new_peer.conn { state = draining; pending = true; account_did = some alice };
}

abbrev store_read : ℕ → Text → Text → Outcome QueryEventsResult
store_read n a cursor =
    returned (query_events_after iso 1000 a cursor (put_event monday create_schema).0)

abbrev two_more : ℕ → List Arrival
two_more n = notified none ∷ notified none ∷ []

pump_rests_example : AtRest (answers store_read two_more 200 0 64 (pump (store_read 64) subscribed))
pump_rests_example = pump_rests store_read two_more 200 0 subscribed (refl, refl)
