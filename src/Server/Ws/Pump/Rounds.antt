-- ===== src/Server/Ws/Pump/Rounds.antt =====
-- `pump` of backend/server/src/ws-server.ts from its start to its end, whatever its connection is told between
-- a read and its answer.
use corner_tasks.Prelude.{
  ℕ, zero, suc, ◌+◌, ◌≤◌, ◌≡◌, ◌⊎◌, inl, inr, refl, ◌∙◌, ap, sym, subst, Bool, true, false, not,
  Option, List, [], ◌∷◌, ◌||◌, ◌==◌, leb, arith, branches,
}
use corner_tasks.Prelude.Text.{Text}
use corner_tasks.Prelude.Json.{Json}
use corner_tasks.Prelude.Outcome.{Outcome, returned, threw}
use corner_tasks.Core.Types.{QueryEventsResult}
use corner_tasks.Core.Cursor.{print_cursor}
use corner_tasks.Server.Ws.Frames.{max_pump_rounds}
use corner_tasks.Server.Ws.Connection.{
  ReadWait, Peer, Verdict, stays, torn, is_closed, is_subscribed,
}
use corner_tasks.Server.Ws.Pump.{
  go_live, rest_pump, finish_pump, begin_read, pump_loop, pump_from, pump, deliver, read_on,
  read_result, resume_pump, account_of,
}
use corner_tasks.Server.Ws.Pump.Soundness.{go_live_from-reads}
use corner_tasks.Server.Ws.Pump.Delivery.{deliver-reads, deliver-pumping}
use corner_tasks.Server.Ws.Hub.{notify_peer}
use corner_tasks.Server.Ws.Messages.{can_subscribe, subscribed_at, handle_subscribe}

-- What the connection may be told before an answer comes.
pub data Arrival : Type 0 where
  notified : Option (ℕ × List Text) → Arrival
  resubscribed : Json → Arrival

-- No read waits, and none will be begun but by a new call of `pump`.
abbrev pub AtRest : Peer → Type 0
AtRest p = (p.reads ≡ []) × (p.conn.pumping ≡ false)

-- How a pump stands after `rounds` reads: at rest, or waiting for one more.
abbrev pub Stands : ℕ → Peer → Type 0
Stands rounds p =
    AtRest p
    ⊎ ((call : ReadWait) × (p.reads ≡ call ∷ [])
        × (p.conn.pumping ≡ true)
        × (call.rounds ≡ suc rounds)
        × (call.rounds ≤ max_pump_rounds))

has_round :
    (pending : Bool) (rounds : ℕ)
    → not pending || leb max_pump_rounds rounds ≡ false
    → suc rounds ≤ max_pump_rounds
has_round true rounds h = ground (arith, h)
has_round false rounds h = cc h

module _ (ask : Text → Text → Outcome QueryEventsResult) where
  -- The read that `begin_read` makes.
  abbrev asked : ℕ → Peer → ReadWait
  asked rounds p = record {
    rounds = suc rounds;
    generation = p.conn.generation;
    suppress = p.conn.suppress;
    account_did = account_of p.conn.account_did;
    answer = ask (account_of p.conn.account_did) (print_cursor p.conn.cursor);
  }

  pump_loop-Stands :
      (rounds : ℕ) (p : Peer)
      → p.reads ≡ []
      → p.conn.pumping ≡ true
      → Stands rounds (pump_loop ask rounds p)
  unfolding pump_loop finish_pump rest_pump go_live begin_read
  pump_loop-Stands rounds p none_left k =
      branches (Stands rounds) (is_closed p.conn.state) _ _ (λ _. inl (none_left, refl))
        (λ _.
          branches (Stands rounds) (not p.conn.pending || leb max_pump_rounds rounds) _ _
            (λ _. inl (go_live_from-reads p.conn.state p ∙ none_left, refl))
            (λ more. inr (
              asked rounds p,
              ap (λ calls. asked rounds p ∷ calls) none_left,
              k,
              refl,
              has_round p.conn.pending rounds more,
            )))

  read_on-Stands :
      (size : ℕ) (call : ReadWait) (result : QueryEventsResult) (p : Peer)
      → p.reads ≡ []
      → p.conn.pumping ≡ true
      → Stands call.rounds (read_on ask size call result p)
  unfolding read_on finish_pump
  read_on-Stands size call result p none_left k =
      branches (Stands call.rounds) (is_closed p.conn.state) _ _ (λ _. inl (none_left, refl))
        (λ _.
          branches (Stands call.rounds) (p.conn.generation == call.generation) _ _
            (λ _.
              pump_loop-Stands call.rounds (deliver size call.suppress result p)
                (deliver-reads size call.account_did call.suppress result p ∙ none_left)
                (deliver-pumping size call.account_did call.suppress result p ∙ k))
            (λ _. pump_loop-Stands call.rounds p none_left k))

  unfoldable arrive : Arrival → ℕ → Peer → Peer
  unfolding notify_peer handle_subscribe
  arrive (notified origin) i p = notify_peer ask origin i p
  arrive (resubscribed msg) i p = handle_subscribe ask msg p

  -- Any number of them, one after the other
  unfoldable arrive_all : List Arrival → ℕ → Peer → Peer
  unfolding arrive
  arrive_all [] i p = p
  arrive_all (arrival ∷ arrivals) i p = arrive_all arrivals i (arrive arrival i p)

  -- A connection that is torn down asks for nothing more.
  abbrev peer_of : Verdict → Peer
  peer_of (stays p) = p
  peer_of (torn p code reason) = p

  -- The answer to the read that waits, if one does.
  unfoldable answered : ℕ → List ReadWait → Peer → Peer
  unfolding resume_pump
  answered size [] p = p
  answered size (call ∷ rest) p = peer_of (resume_pump ask size call (record p { reads = rest }))

  unfoldable turn : ℕ → ℕ → List Arrival → List ReadWait → Peer → Peer
  unfolding arrive_all answered
  turn size i arrivals [] p = p
  turn size i arrivals (call ∷ rest) p = let q = arrive_all arrivals i p in answered size q.reads q

  -- A connection that is pumping is told, and starts no second read.
  abbrev Waits : List ReadWait → Peer → Type 0
  Waits calls p = (p.reads ≡ calls) × (p.conn.pumping ≡ true)

  pump-Waits : (calls : List ReadWait) (p : Peer) → Waits calls p → Waits calls (pump ask p)
  unfolding pump pump_from
  pump-Waits calls p (e, k) = subst (λ b. Waits calls (pump_from ask b p)) (sym k) (e, k)

  arrive-Waits :
      (arrival : Arrival) (i : ℕ) (calls : List ReadWait) (p : Peer)
      → Waits calls p
      → Waits calls (arrive arrival i p)
  unfolding arrive notify_peer handle_subscribe subscribed_at
  arrive-Waits (notified origin) i calls p h =
      branches (Waits calls) (is_subscribed p.conn.state) _ p (λ _. pump-Waits calls _ h) (λ _. h)
  arrive-Waits (resubscribed msg) i calls p h =
      branches (Waits calls) (can_subscribe p.conn.state) _ p (λ _. pump-Waits calls _ h) (λ _. h)

  arrive_all-Waits :
      (arrivals : List Arrival) (i : ℕ) (calls : List ReadWait) (p : Peer)
      → Waits calls p
      → Waits calls (arrive_all arrivals i p)
  unfolding arrive_all
  arrive_all-Waits [] i calls p h = h
  arrive_all-Waits (arrival ∷ arrivals) i calls p h =
      arrive_all-Waits arrivals i calls (arrive arrival i p) (arrive-Waits arrival i calls p h)

  read_result-Stands :
      (size : ℕ) (call : ReadWait) (answer : Outcome QueryEventsResult) (p : Peer)
      → p.reads ≡ []
      → p.conn.pumping ≡ true
      → Stands call.rounds (peer_of (read_result ask size call answer p))
  unfolding read_result finish_pump
  read_result-Stands size call threw p e k = inl (e, refl)
  read_result-Stands size call (returned result) p e k = read_on-Stands size call result p e k

  answered-Stands :
      (size : ℕ) (call : ReadWait) (p : Peer)
      → Waits (call ∷ []) p
      → Stands call.rounds (answered size p.reads p)
  unfolding answered resume_pump
  answered-Stands size call p (e, k) =
      rw e (read_result-Stands size call call.answer (record p { reads = [] }) refl k)

  turn-Stands :
      (size i : ℕ) (arrivals : List Arrival) (call : ReadWait) (p : Peer)
      → Waits (call ∷ []) p
      → Stands call.rounds (turn size i arrivals p.reads p)
  unfolding turn
  turn-Stands size i arrivals call p (e, k) =
      subst (λ calls. Stands call.rounds (turn size i arrivals calls p)) (sym e)
        (answered-Stands size call (arrive_all arrivals i p)
          (arrive_all-Waits arrivals i (call ∷ []) p (e, k)))

-- The answers to the reads of a pump: `asks n` is the store, and `arrivals n` all that the connection is told,
-- in that order, before the next answer, when n more answers are to come after it.
module _ (asks : ℕ → Text → Text → Outcome QueryEventsResult) (arrivals : ℕ → List Arrival)
    (size i : ℕ) where
  unfoldable pub answers : ℕ → Peer → Peer
  unfolding turn
  answers zero p = p
  answers (suc n) p = answers n (turn (asks n) size i (arrivals n) p.reads p)

  answers-AtRest : (n : ℕ) (p : Peer) → AtRest p → AtRest (answers n p)
  unfolding answers turn
  answers-AtRest zero p h = h
  answers-AtRest (suc n) p (e, k) =
      subst (λ calls. AtRest (answers n (turn (asks n) size i (arrivals n) calls p))) (sym e)
        (answers-AtRest n p (e, k))

  answers_end :
      (n rounds : ℕ) (p : Peer)
      → max_pump_rounds ≤ rounds + n
      → Stands rounds p
      → AtRest (answers n p)
  unfolding answers
  answers_end n rounds p enough (inl rest) = answers-AtRest n p rest
  answers_end zero rounds p enough (inr (call, e, k, next, bound)) =
      absurd (omega (arith, enough, next, bound))
  answers_end (suc n) rounds p enough (inr (call, e, k, next, bound)) =
      answers_end n call.rounds (turn (asks n) size i (arrivals n) p.reads p)
        (omega (arith, enough, next)) (turn-Stands (asks n) size i (arrivals n) call p (e, k))

  pump_from-Stands : (p : Peer) → AtRest p → Stands 0 (pump (asks max_pump_rounds) p)
  unfolding pump pump_from
  pump_from-Stands p (e, k) = rw k (
      pump_loop-Stands (asks max_pump_rounds) 0
        (record p { conn = record p.conn { pumping = true } }) e refl)

  -- The pump terminates. Whatever the store answers (a failure too), and whatever notifications and
  -- subscriptions, any number of them, the connection gets before each answer: a pump that is started on a
  -- connection at rest has come to rest again after at most 64 answers.
  pub pump_rests :
      (p : Peer) → AtRest p → AtRest (answers max_pump_rounds (pump (asks max_pump_rounds) p))
  pump_rests p h =
      answers_end max_pump_rounds 0 (pump (asks max_pump_rounds) p) (omega arith)
        (pump_from-Stands p h)
