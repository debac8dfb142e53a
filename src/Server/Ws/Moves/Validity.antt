-- ===== src/Server/Ws/Moves/Validity.antt =====
-- Each move keeps a connection of backend/server/src/ws-server.ts valid.
use corner_tasks.Prelude.{inr, sym, ap, subst, ◌∷◌, ◌++◌, In}
use corner_tasks.Server.Ws.Connection.{Peer, send_frame, stop_connection, touch, end_socket}
use corner_tasks.Server.Ws.Pump.{finish_pump}
use corner_tasks.Server.Ws.Pump.Waiting.{pump-Valid}
use corner_tasks.Server.Ws.Pump.Soundness.{Sound-send_frame, Valid, empty-IsPrivate}
use corner_tasks.Server.Ws.Pump.Delivery.{read_on-Valid}
use corner_tasks.Server.Ws.Messages.{begin_push, bound_to, subscribed_at}
use corner_tasks.Server.Ws.Moves.{
  Move, says, stops, ends, hangs_up, touches, asks, verifies, drops_auth, binds, subscribes, hears,
  reads_on, fails, returns, pushes, drops_push, Moves, no_move, then_move,
}
use corner_tasks.Server.Ws.Moves.Soundness.{
  In-middle, Sound-elsewhere, stopped-Sound, unauthenticated-Sound, no_auths, fewer_auths-Sound,
  bound-Sound, subscribed-Sound, notified-Sound, fewer_reads-Sound, only_read_answered,
}

Move-Valid : {p q : Peer} → Valid p → Move p q → Valid q
unfolding stop_connection touch end_socket send_frame begin_push bound_to subscribed_at finish_pump
Move-Valid {p} v (says f e) = record {
  sound = Sound-send_frame f p (empty-IsPrivate p.conn.account_did f e) v.sound;
  readers = v.readers;
  attended = v.attended;
}
Move-Valid {p} v stops = record {
  sound = stopped-Sound v.sound;
  readers = v.readers;
  attended = λ _ h. cc h;
}
Move-Valid {p} v (ends code reason) = record {
  sound = Sound-elsewhere v.sound;
  readers = v.readers;
  attended = v.attended;
}
Move-Valid {p} v hangs_up = record {
  sound = Sound-elsewhere v.sound;
  readers = v.readers;
  attended = v.attended;
}
Move-Valid {p} v touches = record {
  sound = Sound-elsewhere v.sound;
  readers = v.readers;
  attended = v.attended;
}
Move-Valid {p} v (asks e) = record {
  sound = unauthenticated-Sound p.auths v.sound.one_auth e v.sound;
  readers = v.readers;
  attended = λ _ h. cc h;
}
Move-Valid {p} v (verifies call e) = record {
  sound =
      unauthenticated-Sound (call ∷ p.auths)
        (inr (call, ap (λ cs. call ∷ cs) (no_auths p p.auths e v.sound.waiting))) e v.sound;
  readers = v.readers;
  attended = λ _ h. cc h;
}
Move-Valid {p} v (drops_auth before after call e) = record {
  sound = fewer_auths-Sound before after call e v.sound;
  readers = v.readers;
  attended = v.attended;
}
Move-Valid {p} v (binds a token before after call e there) = record {
  sound = bound-Sound a token before after call e there v.sound;
  readers = v.readers;
  attended = λ _ h. cc h;
}
Move-Valid {p} v (subscribes ask msg honest can) =
    pump-Valid ask (record p { conn = subscribed_at msg p.conn }) honest
      (subscribed-Sound msg can v.sound) v.readers
Move-Valid {p} v (hears ask origin i honest sub) =
    pump-Valid ask _ honest (Sound-elsewhere (notified-Sound sub v.sound)) v.readers
Move-Valid {p} v (reads_on ask size before after call result honest e k) =
    let (pumping, none_left) = only_read_answered p.conn.pumping before after call v.readers e in
    read_on-Valid ask size call result (record p { reads = before ++ after }) honest
      (v.sound.own_reads call (subst (In call) (sym e) (In-middle call before after))) k
      (fewer_reads-Sound before after call e v.sound) none_left pumping
Move-Valid {p} v (fails before after call e) =
    let (pumping, none_left) = only_read_answered p.conn.pumping before after call v.readers e in
    record {
      sound = Sound-elsewhere (stopped-Sound (fewer_reads-Sound before after call e v.sound));
      readers = none_left;
      attended = λ _ h. cc h;
    }
Move-Valid {p} v (returns ask left honest e) =
    pump-Valid ask (record p { immediates = left }) honest (Sound-elsewhere v.sound) v.readers
Move-Valid {p} v (pushes push_id events response) = record {
  sound = Sound-elsewhere v.sound;
  readers = v.readers;
  attended = v.attended;
}
Move-Valid {p} v (drops_push rest) = record {
  sound = Sound-elsewhere v.sound;
  readers = v.readers;
  attended = v.attended;
}

pub Moves-Valid : {p q : Peer} → Valid p → Moves p q → Valid q
Moves-Valid v no_move = v
Moves-Valid v (then_move before move) = Move-Valid (Moves-Valid v before) move
