-- ===== src/Server/Ws/Reachable.antt =====
-- The states that the hub of backend/server/src/ws-server.ts reaches over the SQLite store.
use corner_tasks.Prelude.{In, ℕ, ◌<◌, ◌≡◌, ◌⊎◌, inl, inr, subst, true, false, some, [], ◌∷◌}
use corner_tasks.Core.Types.{SyncEvent}
use corner_tasks.Core.Config.{Config}
use corner_tasks.Core.Sqlite.Rows.{Db}
use corner_tasks.Server.Ws.Frames.{ServerFrame}
use corner_tasks.Server.Ws.Connection.{ReadWait, is_subscribed}
use corner_tasks.Server.Ws.Pump.Covered.{frame_events}
use corner_tasks.Server.Ws.Pump.Soundness.{Valid, Readers}
use corner_tasks.Server.Ws.System.{System, Options, Reach, start, later}
use corner_tasks.Server.Ws.Moves.Validity.{Moves-Valid}
use corner_tasks.Server.Ws.Moves.Systems.{Step-Moves, new_peer-Valid}

module _ (config : Config) (opts : Options) where
  pub Reach-Valid :
      {db : Db} {s : System} → Reach config opts db s → (j : ℕ) → Valid (s.hub.peers j)
  Reach-Valid start j = new_peer-Valid config opts false false false
  Reach-Valid (later reach step) j = elim (Step-Moves config opts step j) [
    | inl moves ↦ Moves-Valid (Reach-Valid reach j) moves
    | inr new ↦ new.1
  ]

  -- Whatever the hub has been through: every event that it has sent on a socket is one of the account that
  -- the connection's token was verified for.
  pub fan_out_isolated :
      (db : Db) (s : System) (i : ℕ) (f : ServerFrame) (w : SyncEvent)
      → Reach config opts db s
      → In f (s.hub.peers i).socket.sent
      → In w (frame_events f)
      → (s.hub.peers i).conn.account_did ≡ some w.account_did
  fan_out_isolated db s i f w reach m at = (Reach-Valid reach i).sound.own_events f w m at

  -- Whatever the hub has been through: a connection that has subscribed and has something to read is reading
  -- it, with the one read that waits, or a callback that reads it is due.
  pub nothing_stranded :
      (db : Db) (s : System) (i : ℕ)
      → Reach config opts db s
      → (s.hub.peers i).conn.pending ≡ true
      → is_subscribed (s.hub.peers i).conn.state ≡ true
      → ((call : ReadWait) × ((s.hub.peers i).reads ≡ call ∷ [])) ⊎ (0 < (s.hub.peers i).immediates)
  nothing_stranded db s i reach pending sub =
      let v = Reach-Valid reach i in
      elim (v.attended pending sub) [
        | inl pumping ↦ inl (subst (λ b. Readers b (s.hub.peers i).reads) pumping v.readers)
        | inr due ↦ inr due
      ]
