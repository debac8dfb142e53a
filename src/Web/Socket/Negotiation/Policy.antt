-- ===== src/Web/Socket/Negotiation/Policy.antt =====
-- The reconnect policy of apps/web/src/sync/NegotiatingTransport.ts, over every order of what happens.
use corner_tasks.Prelude.{
  ℕ, zero, suc, ◌+◌, ◌≤◌, ◌≡◌, refl, ◌∙◌, subst, Bool, Bool-cases, ◌==◌, ==_iff, inl, inr, true,
  ◌||◌, Option, none, some, leb, arith, branches,
}
use corner_tasks.Web.Socket.Client.{SocketClient, close_client}
use corner_tasks.Web.Socket.Negotiation.{
  idle, set_client, Negotiator, close_current, teardown_socket, cancel_reconnect, backoff_cap,
  schedule_reconnect, schedule_give_up_retry, register_failure,
}

-- The bound of a delay that is set.
abbrev pub CapIsBounded : Option ℕ → Type 0
CapIsBounded none = Unit
CapIsBounded (some cap) = (1000 ≤ cap) × (cap ≤ 30000)

pub record Bounded (n : Negotiator) : Type 0 where
  pub attempt : n.backoff_attempt ≤ 5
  pub delay : CapIsBounded n.reconnect

abbrev pub HasSocket : Negotiator → ℕ → Type 0
HasSocket n j = (n.clients j).has_socket ≡ true

-- The transport is switched off, and no client but those of `open` has a browser socket.
pub record Disabled (is_open : ℕ → Bool) (n : Negotiator) : Type 0 where
  pub off : n.ws_disabled ≡ true
  pub nobody : n.ws ≡ none
  pub within : (j : ℕ) → HasSocket n j → is_open j ≡ true

-- `m` follows `n`: what holds of `n` holds of `m`.
pub record Follows (n m : Negotiator) : Type 0 where
  pub bounded : Bounded n → Bounded m
  pub disabled : (is_open : ℕ → Bool) → Disabled is_open n → Disabled is_open m

pub Follows-refl : (n : Negotiator) → Follows n n
Follows-refl n = record { bounded = λ b. b; disabled = λ c d. d }

pub Follows-trans : {n m k : Negotiator} → Follows n m → Follows m k → Follows n k
Follows-trans f g = record {
  bounded = λ b. g.bounded (f.bounded b);
  disabled = λ c d. g.disabled c (f.disabled c d);
}

pub via : {n k : Negotiator} (m : Negotiator) → Follows n m → Follows m k → Follows n k
via m f g = Follows-trans f g

-- What policy is not about.
pub Follows-elsewhere :
    {n m : Negotiator}
    → m.backoff_attempt ≡ n.backoff_attempt
    → m.reconnect ≡ n.reconnect
    → m.ws_disabled ≡ n.ws_disabled
    → (n.ws ≡ none → m.ws ≡ none)
    → ((j : ℕ) → HasSocket m j → HasSocket n j)
    → Follows n m
Follows-elsewhere a r d w o = record {
  bounded = λ b. record { attempt = rw a b.attempt; delay = rw r b.delay };
  disabled =
      λ c e. record { off = rw d e.off; nobody = w e.nobody; within = λ j h. e.within j (o j h) };
}

-- What neither changes which client is current nor has a client get a socket.
pub Follows-same :
    {n m : Negotiator}
    → m.backoff_attempt ≡ n.backoff_attempt
    → m.reconnect ≡ n.reconnect
    → m.ws_disabled ≡ n.ws_disabled
    → m.ws ≡ n.ws
    → m.clients ≡ n.clients
    → Follows n m
Follows-same a r d w c =
    Follows-elsewhere a r d (λ e. w ∙ e) (λ j h. subst (λ f. (f j).has_socket ≡ true) c h)

-- No client is current any more.
pub Follows-leaving :
    {n m : Negotiator}
    → m.backoff_attempt ≡ n.backoff_attempt
    → m.reconnect ≡ n.reconnect
    → m.ws_disabled ≡ n.ws_disabled
    → m.ws ≡ none
    → m.clients ≡ n.clients
    → Follows n m
Follows-leaving a r d w c =
    Follows-elsewhere a r d (λ _. w) (λ j h. subst (λ f. (f j).has_socket ≡ true) c h)

kept_elsewhere :
    (k j : ℕ) (c : SocketClient) (n : Negotiator)
    → (c.has_socket ≡ true → HasSocket n k)
    → HasSocket (set_client k c n) j
    → HasSocket n j
kept_elsewhere k j c n kept h = elim (Bool-cases (k == j)) [
  | inl same ↦ subst (HasSocket n) ((==_iff k j).0 same) (kept (rw same at h))
  | inr other ↦ rw other at h
]

-- The client `k` becomes one that has a socket only if it had one.
pub set_client-Follows :
    (k : ℕ) (c : SocketClient) (n : Negotiator)
    → (c.has_socket ≡ true → HasSocket n k)
    → Follows n (set_client k c n)
set_client-Follows k c n kept =
    Follows-elsewhere refl refl refl (λ e. e) (λ j. kept_elsewhere k j c n kept)

close_current-Follows : (k : Option ℕ) (n : Negotiator) → Follows n (close_current k n)
unfolding close_current
close_current-Follows none n = Follows-refl n
close_current-Follows (some k) n =
    set_client-Follows k (close_client 1000 (n.clients k)) n (unfold close_client in λ h. cc h)

pub teardown_socket-Follows : (n : Negotiator) → Follows n (teardown_socket n)
unfolding teardown_socket
teardown_socket-Follows n =
    Follows-trans (close_current-Follows n.ws n) (Follows-leaving refl refl refl refl refl)

pub cancel_reconnect-Follows : (n : Negotiator) → Follows n (cancel_reconnect n)
unfolding cancel_reconnect
cancel_reconnect-Follows n = record {
  bounded = λ b. record { attempt = b.attempt; delay = tt };
  disabled = λ c d. record { off = d.off; nobody = d.nobody; within = d.within };
}

pub fresh-Follows :
    {n m : Negotiator}
    → m.backoff_attempt ≡ 0
    → m.reconnect ≡ n.reconnect
    → m.ws_disabled ≡ n.ws_disabled
    → m.ws ≡ n.ws
    → m.clients ≡ n.clients
    → Follows n m
fresh-Follows a r d w c = record {
  bounded = λ b. record { attempt = omega (arith, a); delay = rw r b.delay };
  disabled = λ is_open e. record {
    off = rw d e.off;
    nobody = w ∙ e.nobody;
    within = λ j h. e.within j (subst (λ f. (f j).has_socket ≡ true) c h);
  };
}

backoff_cap-IsBounded : (attempt : ℕ) → attempt ≤ 5 → CapIsBounded (some (backoff_cap attempt))
backoff_cap-IsBounded zero h = (omega arith, omega arith)
backoff_cap-IsBounded (suc zero) h = (omega arith, omega arith)
backoff_cap-IsBounded (suc (suc zero)) h = (omega arith, omega arith)
backoff_cap-IsBounded (suc (suc (suc zero))) h = (omega arith, omega arith)
backoff_cap-IsBounded (suc (suc (suc (suc zero)))) h = (omega arith, omega arith)
backoff_cap-IsBounded (suc (suc (suc (suc (suc zero))))) h = (omega arith, omega arith)
backoff_cap-IsBounded (suc (suc (suc (suc (suc (suc n)))))) h = absurd (omega arith)

pub schedule_reconnect-Follows : (n : Negotiator) → Follows n (schedule_reconnect n)
unfolding schedule_reconnect
schedule_reconnect-Follows n =
    branches (Follows n) (n.stopped || n.ws_disabled) _ _ (λ _. Follows-refl n)
      (λ e. record {
        bounded = λ b. record {
          attempt = ground arith;
          delay = backoff_cap-IsBounded n.backoff_attempt b.attempt;
        };
        disabled = λ c d. ground (arith, e, d.off);
      })

pub register_failure-Follows : (n : Negotiator) → Follows n (register_failure n)
unfolding register_failure schedule_give_up_retry
register_failure-Follows n =
    branches (Follows n) (leb 3 (n.consecutive_failures + 1)) _ _
      (λ _. Follows-leaving refl refl refl refl refl)
      (λ _.
        via
          (record n {
            consecutive_failures = n.consecutive_failures + 1;
            ws_phase = idle;
            ws = none;
          })
          (Follows-leaving refl refl refl refl refl) (schedule_reconnect-Follows _))
