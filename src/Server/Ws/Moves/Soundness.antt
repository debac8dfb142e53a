-- ===== src/Server/Ws/Moves/Soundness.antt =====
-- What each move of a connection of backend/server/src/ws-server.ts does to its soundness.
use corner_tasks.Prelude.{
  ℕ, ◌≡◌, ◌⊎◌, inl, inr, refl, sym, ap, ◌∙◌, subst, Bool, true, false, Option, none, List, [], ◌∷◌,
  ◌++◌, In,
}
use corner_tasks.Prelude.Text.{Text}
use corner_tasks.Prelude.Json.{Json}
use corner_tasks.Server.Ws.Frames.{
  ConnState, unauthenticated, authenticating, authenticated, draining, live, closed, CloseReason,
}
use corner_tasks.Server.Ws.Connection.{
  AuthWait, ReadWait, PushWait, Peer, is_closed, is_subscribed, stop_connection,
}
use corner_tasks.Server.Ws.Pump.Soundness.{is_anonymous, Sound, Readers}
use corner_tasks.Server.Ws.Messages.{bound_to, subscribed_at, can_subscribe}

pub In-without : {A : Type 0} (x y : A) (xs ys : List A) → In x (xs ++ ys) → In x (xs ++ y ∷ ys)
In-without x y [] ys m = inr m
In-without x y (z ∷ xs) ys (inl e) = inl e
In-without x y (z ∷ xs) ys (inr m) = inr (In-without x y xs ys m)

pub In-middle : {A : Type 0} (y : A) (xs ys : List A) → In y (xs ++ y ∷ ys)
In-middle y [] ys = inl refl
In-middle y (z ∷ xs) ys = inr (In-middle y xs ys)

-- The only one.
pub only_one :
    {A : Type 0} (x y : A) (before after : List A)
    → before ++ x ∷ after ≡ y ∷ []
    → before ++ after ≡ []
only_one x y [] after e = cc e
only_one x y (z ∷ []) after e = cc e
only_one x y (z ∷ w ∷ before) after e = cc e

-- The parts that validity is not about.
pub Sound-elsewhere :
    {p : Peer} {token : Option Text} {cursor generation : ℕ} {suppress : Option (List Text)}
    {auth_timer ping_timer dead_timer is_open pumping : Bool}
    {ended : List (Option (ℕ × CloseReason))} {calls : List PushWait} {immediates : ℕ}
    → Sound p
    → Sound (record {
      conn = record p.conn {
        token = token;
        cursor = cursor;
        pumping = pumping;
        suppress = suppress;
        generation = generation;
        auth_timer = auth_timer;
        ping_timer = ping_timer;
        dead_timer = dead_timer;
      };
      socket = record p.socket { is_open = is_open; ended = ended };
      auths = p.auths;
      reads = p.reads;
      pushes = calls;
      immediates = immediates;
    })
Sound-elsewhere s = record {
  anonymous = s.anonymous;
  idle = s.idle;
  named = s.named;
  waiting = s.waiting;
  one_auth = s.one_auth;
  own_reads = s.own_reads;
  own_events = s.own_events;
}

pub stopped-Sound : {p : Peer} → Sound p → Sound (record p { conn = stop_connection p.conn })
unfolding stop_connection
stopped-Sound s = record {
  anonymous = λ h. cc h;
  idle = λ h. cc h;
  named = λ _ h. cc h;
  waiting = λ _ _. inr refl;
  one_auth = s.one_auth;
  own_reads = s.own_reads;
  own_events = s.own_events;
}

-- Nothing is read and nothing is to be read before authentication.
pub unauthenticated-Sound :
    {p : Peer} (calls : List AuthWait)
    → (calls ≡ []) ⊎ ((call : AuthWait) × (calls ≡ call ∷ []))
    → p.conn.state ≡ unauthenticated
    → Sound p
    → Sound (record p { conn = record p.conn { state = authenticating }; auths = calls })
unauthenticated-Sound calls one e s = record {
  anonymous = λ _. s.anonymous (ap is_anonymous e);
  idle = λ _. s.idle (ap is_anonymous e);
  named = λ h. cc h;
  waiting = λ _ _. inl refl;
  one_auth = one;
  own_reads = s.own_reads;
  own_events = s.own_events;
}

pub no_more_auths :
    {auths : List AuthWait} (before after : List AuthWait) (call : AuthWait)
    → auths ≡ before ++ call ∷ after
    → (auths ≡ []) ⊎ ((c : AuthWait) × (auths ≡ c ∷ []))
    → before ++ after ≡ []
no_more_auths [] after call e (inl none_left) = cc (e, none_left)
no_more_auths (x ∷ before) after call e (inl none_left) = cc (e, none_left)
no_more_auths before after call e (inr (c, one)) = only_one call c before after (sym e ∙ one)

pub no_auths :
    (p : Peer) (auths : List AuthWait)
    → p.conn.state ≡ unauthenticated
    → ((call : AuthWait)
        → In call auths
        → (p.conn.state ≡ authenticating) ⊎ (p.conn.state ≡ closed))
    → auths ≡ []
no_auths p [] e waiting = refl
no_auths p (call ∷ auths) e waiting = elim (waiting call (inl refl)) [
  | inl k ↦ cc (e, k)
  | inr k ↦ cc (e, k)
]

pub fewer_auths-Sound :
    {p : Peer} (before after : List AuthWait) (call : AuthWait)
    → p.auths ≡ before ++ call ∷ after
    → Sound p
    → Sound (record p { auths = before ++ after })
fewer_auths-Sound before after call e s = record {
  anonymous = s.anonymous;
  idle = s.idle;
  named = s.named;
  waiting = λ c m. s.waiting c (subst (In c) (sym e) (In-without c call before after m));
  one_auth = inl (no_more_auths before after call e s.one_auth);
  own_reads = s.own_reads;
  own_events = s.own_events;
}

-- A connection whose token is verified has no account yet.
pub verified-nobody :
    {p : Peer} (before after : List AuthWait) (call : AuthWait)
    → p.auths ≡ before ++ call ∷ after
    → is_closed p.conn.state ≡ false
    → Sound p
    → p.conn.account_did ≡ none
verified-nobody before after call e there s =
    elim (s.waiting call (subst (In call) (sym e) (In-middle call before after))) [
      | inl k ↦ s.anonymous (ap is_anonymous k)
      | inr k ↦ cc (ap is_closed k, there)
    ]

pub bound-Sound :
    {p : Peer} (a token : Text) (before after : List AuthWait) (call : AuthWait)
    → p.auths ≡ before ++ call ∷ after
    → is_closed p.conn.state ≡ false
    → Sound p
    → Sound (record p { conn = bound_to a token p.conn; auths = before ++ after })
unfolding bound_to
bound-Sound {p} a token before after call e there s =
    let none_left = no_more_auths before after call e s.one_auth in
    let nobody = verified-nobody before after call e there s in
    record {
      anonymous = λ h. cc h;
      idle = λ h. cc h;
      named = λ _ _. refl;
      waiting = λ c m. absurd (subst (In c) none_left m);
      one_auth = inl none_left;
      own_reads = λ c m. cc (nobody, (s.own_reads c m).0);
      own_events = λ f w m at. cc (nobody, s.own_events f w m at);
    }

pub subscriber :
    (state : ConnState)
    → can_subscribe state ≡ true
    → (is_anonymous state ≡ false) × (is_closed state ≡ false)
subscriber authenticated e = (refl, refl)
subscriber live e = (refl, refl)
subscriber draining e = cc e
subscriber unauthenticated e = cc e
subscriber authenticating e = cc e
subscriber closed e = cc e

pub not_waiting :
    (p : Peer) (call : AuthWait)
    → is_anonymous p.conn.state ≡ false
    → is_closed p.conn.state ≡ false
    → Sound p
    → In call p.auths
    → ⊥
not_waiting p call past there s m = elim (s.waiting call m) [
  | inl k ↦ cc (ap is_anonymous k, past)
  | inr k ↦ cc (ap is_closed k, there)
]

pub subscribed-Sound :
    {p : Peer} (msg : Json)
    → can_subscribe p.conn.state ≡ true
    → Sound p
    → Sound (record p { conn = subscribed_at msg p.conn })
unfolding subscribed_at
subscribed-Sound {p} msg can s =
    let (past, there) = subscriber p.conn.state can in
    record {
      anonymous = λ h. cc h;
      idle = λ h. cc h;
      named = λ _ _. s.named past there;
      waiting = λ c m. absurd (not_waiting p c past there s m);
      one_auth = s.one_auth;
      own_reads = s.own_reads;
      own_events = s.own_events;
    }

pub subscribed_not_anonymous :
    (state : ConnState) → is_subscribed state ≡ true → is_anonymous state ≡ true → ⊥
subscribed_not_anonymous unauthenticated e h = cc e
subscribed_not_anonymous authenticating e h = cc e
subscribed_not_anonymous _ e h = cc h

pub notified-Sound :
    {p : Peer}
    → is_subscribed p.conn.state ≡ true
    → Sound p
    → Sound (record p { conn = record p.conn { pending = true } })
notified-Sound {p} sub s = record {
  anonymous = s.anonymous;
  idle = λ h. absurd (subscribed_not_anonymous p.conn.state sub h);
  named = s.named;
  waiting = s.waiting;
  one_auth = s.one_auth;
  own_reads = s.own_reads;
  own_events = s.own_events;
}

pub fewer_reads-Sound :
    {p : Peer} (before after : List ReadWait) (call : ReadWait)
    → p.reads ≡ before ++ call ∷ after
    → Sound p
    → Sound (record p { reads = before ++ after })
fewer_reads-Sound before after call e s = record {
  anonymous = s.anonymous;
  idle = s.idle;
  named = s.named;
  waiting = s.waiting;
  one_auth = s.one_auth;
  own_reads = λ c m. s.own_reads c (subst (In c) (sym e) (In-without c call before after m));
  own_events = s.own_events;
}

-- The read that is answered was the only one.
pub only_read_answered :
    (pumping : Bool) {reads : List ReadWait} (before after : List ReadWait) (call : ReadWait)
    → Readers pumping reads
    → reads ≡ before ++ call ∷ after
    → (pumping ≡ true) × (before ++ after ≡ [])
only_read_answered true before after call (c, one) e =
    (refl, only_one call c before after (sym e ∙ one))
only_read_answered false [] after call none_left e = cc (none_left, e)
only_read_answered false (x ∷ before) after call none_left e = cc (none_left, e)
