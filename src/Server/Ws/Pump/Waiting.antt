-- ===== src/Server/Ws/Pump/Waiting.antt =====
-- `pump` of backend/server/src/ws-server.ts: what it keeps of a connection.
use corner_tasks.Prelude.{
  ℕ, ◌≡◌, inl, inr, refl, sym, ◌∙◌, subst, Bool, true, false, not, Option, none, some, [], arith,
  Bool-cases, is_some, leb, ◌||◌,
}
use corner_tasks.Prelude.Text.{Text}
use corner_tasks.Prelude.Outcome.{Outcome}
use corner_tasks.Core.Cursor.{print_cursor}
use corner_tasks.Core.Types.{QueryEventsResult}
use corner_tasks.Server.Ws.Frames.{ConnState, closed, max_pump_rounds}
use corner_tasks.Server.Ws.Connection.{Peer, is_closed, is_subscribed}
use corner_tasks.Server.Ws.Pump.{
  go_live, rest_pump, finish_pump, begin_read, pump_loop, pump_from, pump, account_of,
}
use corner_tasks.Server.Ws.Pump.Soundness.{
  Honest, Readers, Sound, Sound-finish_pump, Sound-go_live, Sound-rest_pump, Valid,
  go_live_from-reads, is_anonymous,
}

-- A pump that rests has told the client that it is live, and comes back if there is more.
rest_pump-Valid : (p : Peer) → Sound p → p.reads ≡ [] → Valid (rest_pump (go_live p))
unfolding rest_pump go_live
rest_pump-Valid p s e = record {
  sound = Sound-rest_pump (go_live p) (Sound-go_live p s);
  readers = go_live_from-reads p.conn.state p ∙ e;
  attended = λ h k. inr (ground (arith, h));
}

-- The account that a read asks for.
account_of_named :
    (account : Option Text) → is_some account ≡ true → account ≡ some (account_of account)
account_of_named (some a) h = refl
account_of_named none h = cc h

begin_read-Valid :
    (ask : Text → Text → Outcome QueryEventsResult) (rounds : ℕ) (p : Peer)
    → Honest ask
    → Sound p
    → p.reads ≡ []
    → p.conn.pumping ≡ true
    → is_some p.conn.account_did ≡ true
    → is_anonymous p.conn.state ≡ false
    → Valid (begin_read ask rounds (account_of p.conn.account_did) p)
unfolding begin_read
begin_read-Valid ask rounds p honest s e k known past = record {
  sound = record {
    anonymous = s.anonymous;
    idle = λ h. cc;
    named = s.named;
    waiting = s.waiting;
    one_auth = s.one_auth;
    own_reads = λ call m. elim m [
      | inl new ↦ rw new (
        account_of_named p.conn.account_did known,
        λ result. honest (account_of p.conn.account_did) (print_cursor p.conn.cursor) result,
      )
      | inr old ↦ s.own_reads call old
    ];
    own_events = s.own_events;
  };
  readers = rw (k, e) (_, refl);
  attended = λ h _. cc h;
}

closed_not_subscribed :
    (state : ConnState) → is_closed state ≡ true → is_subscribed state ≡ true → ⊥
closed_not_subscribed closed e h = cc h
closed_not_subscribed _ e h = cc e

pub finish_pump-Valid :
    (p : Peer) → Sound p → p.reads ≡ [] → is_closed p.conn.state ≡ true → Valid (finish_pump p)
unfolding finish_pump
finish_pump-Valid p s e gone = record {
  sound = Sound-finish_pump p s;
  readers = e;
  attended = λ _ h. absurd (closed_not_subscribed p.conn.state gone h);
}

-- There is something to read only on a connection that has authenticated.
past_authentication :
    (p : Peer) (b : Bool)
    → Sound p
    → not p.conn.pending || b ≡ false
    → is_anonymous p.conn.state ≡ false
past_authentication p b s more = elim (Bool-cases (is_anonymous p.conn.state)) [
  | inl anonymous ↦ absurd (cc (subst (λ x. not x || b ≡ false) (s.idle anonymous) more))
  | inr past ↦ past
]

pub pump_loop-Valid :
    (ask : Text → Text → Outcome QueryEventsResult) (rounds : ℕ) (p : Peer)
    → Honest ask
    → Sound p
    → p.reads ≡ []
    → p.conn.pumping ≡ true
    → Valid (pump_loop ask rounds p)
unfolding pump_loop
pump_loop-Valid ask rounds p honest s e k = elim (Bool-cases (is_closed p.conn.state)) [
  | inl gone ↦ rw gone (finish_pump-Valid p s e gone)
  | inr there ↦ elim (Bool-cases (not p.conn.pending || leb max_pump_rounds rounds)) [
    | inl done ↦ rw (there, done) (rest_pump-Valid p s e)
    | inr more ↦
        rw (there, more)
          (let past = past_authentication p (leb max_pump_rounds rounds) s more in
            begin_read-Valid ask rounds p honest s e k (s.named past there) past)
  ]
]

Sound-pumping :
    (b : Bool) (p : Peer) → Sound p → Sound (record p { conn = record p.conn { pumping = b } })
Sound-pumping b p s = record {
  anonymous = s.anonymous;
  idle = s.idle;
  named = s.named;
  waiting = s.waiting;
  one_auth = s.one_auth;
  own_reads = s.own_reads;
  own_events = s.own_events;
}

pump_from-Valid :
    (ask : Text → Text → Outcome QueryEventsResult) (pumping : Bool) (p : Peer)
    → Honest ask
    → Sound p
    → p.conn.pumping ≡ pumping
    → Readers pumping p.reads
    → Valid (pump_from ask pumping p)
unfolding pump_from
pump_from-Valid ask true p honest s e r = record {
  sound = s;
  readers = subst (λ b. Readers b p.reads) (sym e) r;
  attended = λ _ _. inl e;
}
pump_from-Valid ask false p honest s e r =
    pump_loop-Valid ask 0 (record p { conn = record p.conn { pumping = true } }) honest
      (Sound-pumping true p s) r refl

pub pump-Valid :
    (ask : Text → Text → Outcome QueryEventsResult) (p : Peer)
    → Honest ask
    → Sound p
    → Readers p.conn.pumping p.reads
    → Valid (pump ask p)
unfolding pump
pump-Valid ask p honest s r = pump_from-Valid ask p.conn.pumping p honest s refl r
