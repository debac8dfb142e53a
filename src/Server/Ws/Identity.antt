-- ===== src/Server/Ws/Identity.antt =====
-- The account of a connection of backend/server/src/ws-server.ts.
use corner_tasks.Prelude.{
  ℕ, ◌≡◌, ◌<◌, arith, ◌==◌, ◌||◌, inl, inr, refl, ap, ◌∙◌, Bool, true, false, not, Option, some,
  List, branches, is_empty, leb,
}
use corner_tasks.Prelude.Text.{Text}
use corner_tasks.Prelude.Outcome.{Outcome}
use corner_tasks.Core.Types.{QueryEventsResult}
use corner_tasks.Core.Config.{Config}
use corner_tasks.Core.Sqlite.Rows.{Db}
use corner_tasks.Server.Ws.Frames.{ConnState, draining, max_pump_rounds}
use corner_tasks.Server.Ws.Connection.{
  Connection, ReadWait, Peer, is_closed, send_frame, stop_connection, touch,
}
use corner_tasks.Server.Ws.Pump.{
  outgoing, advance, deliver, go_live_from, go_live, rest_pump, finish_pump, begin_read, pump_loop,
  pump_from, pump, read_on,
}
use corner_tasks.Server.Ws.Pump.Delivery.{send_events-conn}
use corner_tasks.Server.Ws.Pump.Soundness.{Valid}
use corner_tasks.Server.Ws.Messages.{begin_push, subscribed_at}
use corner_tasks.Server.Ws.System.{System, Options, Step, Reach}
use corner_tasks.Server.Ws.Reachable.{Reach-Valid}
use corner_tasks.Server.Ws.Moves.Systems.{Step-Moves}
use corner_tasks.Server.Ws.Moves.{
  Move, says, stops, ends, hangs_up, touches, asks, verifies, drops_auth, binds, subscribes, hears,
  reads_on, fails, returns, pushes, drops_push, Moves, no_move, then_move,
}
use corner_tasks.Server.Ws.Moves.Validity.{Moves-Valid}
use corner_tasks.Server.Ws.Moves.Soundness.{verified-nobody}

-- The account is still that of `p`.
abbrev SameAccount : Peer → Peer → Type 0
SameAccount p q = q.conn.account_did ≡ p.conn.account_did

go_live_from-account : (state : ConnState) (p : Peer) → SameAccount p (go_live_from state p)
unfolding go_live_from send_frame
go_live_from-account draining p = refl
go_live_from-account _ p = refl

module _ (ask : Text → Text → Outcome QueryEventsResult) where
  pump_loop-account : (rounds : ℕ) (p : Peer) → SameAccount p (pump_loop ask rounds p)
  unfolding pump_loop finish_pump rest_pump go_live begin_read
  pump_loop-account rounds p =
      branches (SameAccount p) (is_closed p.conn.state) _ _ (λ _. refl)
        (λ _.
          branches (SameAccount p) (not p.conn.pending || leb max_pump_rounds rounds) _ _
            (λ _. go_live_from-account p.conn.state p) (λ _. refl))

  pump_from-account : (b : Bool) (p : Peer) → SameAccount p (pump_from ask b p)
  unfolding pump_from
  pump_from-account true p = refl
  pump_from-account false p =
      pump_loop-account 0 (record p { conn = record p.conn { pumping = true } })

  pump-account : (p : Peer) → SameAccount p (pump ask p)
  unfolding pump
  pump-account p = pump_from-account p.conn.pumping p

  deliver-account :
      (size : ℕ) (withheld : Option (List Text)) (result : QueryEventsResult) (p : Peer)
      → SameAccount p (deliver size withheld result p)
  unfolding deliver advance
  deliver-account size withheld result p =
      ap (λ (c : Connection). c.account_did)
        (branches (λ (q : Peer). q.conn ≡ p.conn) (is_empty (outgoing withheld result.events)) _ _
          (λ _. refl)
          (λ _. send_events-conn size result.next_cursor (outgoing withheld result.events) p))

  read_on-account :
      (size : ℕ) (call : ReadWait) (result : QueryEventsResult) (p : Peer)
      → SameAccount p (read_on ask size call result p)
  unfolding read_on finish_pump
  read_on-account size call result p =
      branches (SameAccount p) (is_closed p.conn.state) _ _ (λ _. refl)
        (λ _.
          branches (SameAccount p) (p.conn.generation == call.generation) _ _
            (λ _.
              pump_loop-account call.rounds (deliver size call.suppress result p)
              ∙ deliver-account size call.suppress result p)
            (λ _. pump_loop-account call.rounds p))

Move-account :
    {p q : Peer} (a : Text)
    → Valid p
    → p.conn.account_did ≡ some a
    → Move p q
    → q.conn.account_did ≡ some a
unfolding send_frame stop_connection touch begin_push subscribed_at finish_pump
Move-account a v e (says f _) = e
Move-account a v e stops = e
Move-account a v e (ends code reason) = e
Move-account a v e hangs_up = e
Move-account a v e touches = e
Move-account a v e (asks _) = e
Move-account a v e (verifies call _) = e
Move-account a v e (drops_auth before after call _) = e
Move-account {p} a v e (binds b token before after call k there) =
    cc (e, verified-nobody before after call k there v.sound)
Move-account a v e (subscribes ask msg _ _) = pump-account ask _ ∙ e
Move-account a v e (hears ask origin i _ _) = pump-account ask _ ∙ e
Move-account a v e (reads_on ask size before after call result _ _ _) =
    read_on-account ask size call result _ ∙ e
Move-account a v e (fails before after call _) = e
Move-account a v e (returns ask left _ _) = pump-account ask _ ∙ e
Move-account a v e (pushes push_id events response) = e
Move-account a v e (drops_push rest) = e

Moves-account :
    {p q : Peer} (a : Text)
    → Valid p
    → p.conn.account_did ≡ some a
    → Moves p q
    → q.conn.account_did ≡ some a
Moves-account a v e no_move = e
Moves-account a v e (then_move before move) =
    Move-account a (Moves-Valid v before) (Moves-account a v e before) move

-- Whatever the hub has been through, and whatever it does next: a connection that was accepted and is bound to
-- an account stays bound to it.
pub identity_fixed :
    (config : Config) (opts : Options) (db : Db) (s t : System) (i : ℕ) (a : Text)
    → Reach config opts db s
    → Step config opts s t
    → i < s.hub.accepted
    → (s.hub.peers i).conn.account_did ≡ some a
    → (t.hub.peers i).conn.account_did ≡ some a
identity_fixed config opts db s t i a reach step there e = elim (Step-Moves config opts step i) [
  | inl moves ↦ Moves-account a (Reach-Valid config opts reach i) e moves
  | inr new ↦ absurd (let same = new.0 in omega arith)
]
