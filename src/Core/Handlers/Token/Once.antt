-- ===== src/Core/Handlers/Token/Once.antt =====
-- A challenge is worth one token: backend/core/src/handlers/auth/token.ts over the store of
-- backend/core/src/lib/sqlite-store.ts.
use corner_tasks.Prelude.{
  ℕ, ◌≡◌, ◌≢◌, refl, sym, ap, ◌∙◌, subst, ◌/◌, Bool, true, false, Option, none, some, arith,
  if◌then◌else◌,
}
use corner_tasks.Prelude.Text.{Text, codes, text_eq_refl}
use corner_tasks.Prelude.Json.{Json, null, get_field, as_str, as_num}
use corner_tasks.Prelude.Outcome.{Outcome, returned}
use corner_tasks.Prelude.Int.{ℤ}
use corner_tasks.Core.Jwt.{Bytes, DecodedJwt, decode_jwt}
use corner_tasks.Core.Http.{HttpEvent, HttpResult, audience_from_event}
use corner_tasks.Core.Schema.{TokenRequest, read_token_request}
use corner_tasks.Core.Config.{Config}
use corner_tasks.Core.Did.{public_key_from_did}
use corner_tasks.Core.Store.{sqlite_store, continue_returned}
use corner_tasks.Core.Sqlite.Rows.{Db}
use corner_tasks.Core.Sqlite.Methods.{consume_challenge}
use corner_tasks.Core.Sqlite.Challenges.{deadline, deadline-consume_challenge}
use corner_tasks.Core.Handlers.Push.{body_json}
use corner_tasks.Core.Handlers.Token.{
  Checked, stop, pass, check_nonce, check_lifetime, check_did_claims, check_signed, check_decoded,
  check_key, check_request, Times, redeem, token_read, token_body, token,
}

-- The shown that a decoded DID-JWT presents.
abbrev pub presented : Option DecodedJwt → Option Text
presented none = none
presented (some decoded) = as_str (get_field (codes "nonce") decoded.claims)

-- A check that ends with a response ends with an error; one that passes, with the shown presented.
record IsSound (shown : Option Text) (o : Outcome Checked) : Type 0 where
  no_success : (r : HttpResult) → o ≡ returned (stop r) → r.status ≢ 200
  same_nonce : (n : Text) → o ≡ returned (pass n) → shown ≡ some n

check_nonce-IsSound : (shown : Option Text) → IsSound shown (returned (check_nonce shown))
check_nonce-IsSound shown = record {
  no_success = λ r e. ground (arith, e);
  same_nonce = λ n e. ground (arith, e);
}

if-IsSound :
    (shown : Option Text) (b : Bool) (x y : Outcome Checked)
    → IsSound shown x
    → IsSound shown y
    → IsSound shown (if b then x else y)
if-IsSound shown true x y h k = h
if-IsSound shown false x y h k = k

check_lifetime-IsSound :
    (now : ℕ) (iat exp : Option ℤ) (shown : Option Text)
    → IsSound shown (returned (check_lifetime now iat exp shown))
unfolding check_lifetime
check_lifetime-IsSound now iat exp shown = record {
  no_success = λ r e. ground (arith, e, (check_nonce-IsSound shown).no_success r);
  same_nonce = λ n e. ground (arith, e, (check_nonce-IsSound shown).same_nonce n);
}

check_did_claims-IsSound :
    (now : ℕ) (account audience : Text) (claims : Json)
    → IsSound
        (as_str (get_field (codes "nonce") claims))
        (check_did_claims now account audience claims)
unfolding check_did_claims
check_did_claims-IsSound now account audience null = record {
  no_success = λ r e. cc e;
  same_nonce = λ n e. cc e;
}
check_did_claims-IsSound now account audience claims =
    let life =
      check_lifetime-IsSound now (as_num (get_field (codes "iat") claims))
        (as_num (get_field (codes "exp") claims)) (as_str (get_field (codes "nonce") claims)) in
    record {
      no_success = λ r e. ground (arith, e, life.no_success r);
      same_nonce = λ n e. ground (arith, e, life.same_nonce n);
    }

check_signed-IsSound :
    (config : Config) (now : ℕ) (account audience : Text) (key : Bytes) (decoded : DecodedJwt)
    → IsSound (presented (some decoded)) (check_signed config now account audience key decoded)
unfolding check_signed
check_signed-IsSound config now account audience key decoded =
    let claims = check_did_claims-IsSound now account audience decoded.claims in
    record {
      no_success = λ r e. ground (arith, e, claims.no_success r);
      same_nonce = λ n e. ground (arith, e, claims.same_nonce n);
    }

check_decoded-IsSound :
    (config : Config) (now : ℕ) (account audience : Text) (key : Bytes)
    (decoded : Option DecodedJwt)
    → IsSound (presented decoded) (check_decoded config now account audience key decoded)
unfolding check_decoded
check_decoded-IsSound config now account audience key none = record {
  no_success = λ r e. ground (arith, e);
  same_nonce = λ n e. cc e;
}
check_decoded-IsSound config now account audience key (some decoded) =
    let signed = check_signed-IsSound config now account audience key decoded in
    record {
      no_success = λ r e. ground (arith, e, signed.no_success r);
      same_nonce = λ n e. ground (arith, e, signed.same_nonce n);
    }

check_request-IsSound :
    (config : Config) (now : ℕ) (req : TokenRequest) (audience : Text)
    → IsSound
        (presented (decode_jwt config.codec req.did_jwt))
        (check_request config now req audience)
unfolding check_request
check_request-IsSound config now req audience =
    let decoded = λ (key : Bytes).
      check_decoded-IsSound config now req.account_did audience key
        (decode_jwt config.codec req.did_jwt) in
    go (public_key_from_did config.base58 req.account_did)
  where
    go :
        (key : Option Bytes)
        → IsSound
            (presented (decode_jwt config.codec req.did_jwt))
            (check_key config now req audience key)
    go none = record { no_success = λ r e. ground (arith, e); same_nonce = λ n e. cc e }
    go (some key) =
        check_decoded-IsSound config now req.account_did audience key
          (decode_jwt config.codec req.did_jwt)

module _ (iso : ℤ → Text) (config : Config) (account audience : Text) where
  -- A redemption that succeeds was of a nonce, which it leaves unusable.
  redeem_success :
      (times : Times) (jti : Text) (c : Checked) (db db' : Db) (r : HttpResult)
      → ((x : HttpResult) → c ≡ stop x → x.status ≢ 200)
      → redeem (sqlite_store iso) config times account audience jti c db ≡ (returned r, db')
      → r.status ≡ 200
      → (n : Text) × (c ≡ pass n) × (deadline account n db' ≡ none)
  unfolding redeem
  redeem_success times jti (stop x) db db' r fails e ok =
      absurd (fails x refl (ground (arith, e, ok)))
  redeem_success times jti (pass n) db db' r fails e ok = (
    n,
    refl,
    ap (λ p. deadline account n p.1) (sym e)
        ∙ deadline-consume_challenge times.consumed_at account n account n db
        ∙ rw (text_eq_refl account, text_eq_refl n) refl,
  )

  redeem_spent :
      (times : Times) (jti n : Text) (db db' : Db) (r : HttpResult)
      → deadline account n db ≡ none
      → redeem (sqlite_store iso) config times account audience jti (pass n) db ≡ (returned r, db')
      → r.status ≢ 200
  unfolding redeem consume_challenge
  redeem_spent times jti n db db' r gone e ok = ground (arith, e, gone, ok)

module _ (iso : ℤ → Text) (config : Config) (event : HttpEvent) where
  redeem_twice :
      (times times' : Times) (jti jti' : Text) (req : TokenRequest) (c c' : Checked)
      (db db' db'' : Db) (r r' : HttpResult)
      → let audience = audience_from_event event in
        let nonce = presented (decode_jwt config.codec req.did_jwt) in
        IsSound nonce (returned c)
        → IsSound nonce (returned c')
        → redeem (sqlite_store iso) config times req.account_did audience jti c db
          ≡ (returned r, db')
        → r.status ≡ 200
        → redeem (sqlite_store iso) config times' req.account_did audience jti' c' db'
          ≡ (returned r', db'')
        → r'.status ≢ 200
  unfolding redeem
  redeem_twice times times' jti jti' req c (stop x) db db' db'' r r' h h' e ok e' =
      λ ok'. h'.no_success x refl (ground (arith, e', ok'))
  redeem_twice times times' jti jti' req c (pass m) db db' db'' r r' h h' e ok e' =
      let audience = audience_from_event event in
      let (n, passed, gone) =
        redeem_success iso config req.account_did audience times jti c db db' r
          (λ x eq. h.no_success x (ap (λ y. returned y) eq)) e ok in
      let same : n ≡ m = cc (h.same_nonce n (ap (λ y. returned y) passed), h'.same_nonce m refl) in
      redeem_spent iso config req.account_did audience times' jti' m db' db'' r'
        (ap (λ k. deadline req.account_did k db') (sym same) ∙ gone) e'

  read_once :
      (times times' : Times) (jti jti' : Text) (req : Option TokenRequest) (db db' db'' : Db)
      (r r' : HttpResult)
      → token_read (sqlite_store iso) config times jti event req db ≡ (returned r, db')
      → r.status ≡ 200
      → token_read (sqlite_store iso) config times' jti' event req db' ≡ (returned r', db'')
      → r'.status ≢ 200
  unfolding token_read
  read_once times times' jti jti' none db db' db'' r r' e ok e' = λ ok'. ground (arith, e, ok)
  read_once times times' jti jti' (some req) db db' db'' r r' e ok e' =
      let audience = audience_from_event event in
      let (c, checked, rest) =
        continue_returned (check_request config (times.checked_at / 1000) req audience)
          (redeem (sqlite_store iso) config times req.account_did audience jti) db db' r e in
      let (c', checked', rest') =
        continue_returned (check_request config (times'.checked_at / 1000) req audience)
          (redeem (sqlite_store iso) config times' req.account_did audience jti') db' db'' r' e' in
      let sound = λ (now : ℕ). check_request-IsSound config now req audience in
      let nonce = presented (decode_jwt config.codec req.did_jwt) in
      redeem_twice times times' jti jti' req c c' db db' db'' r r'
        (subst (IsSound nonce) checked (sound (times.checked_at / 1000)))
        (subst (IsSound nonce) checked' (sound (times'.checked_at / 1000))) rest ok rest'

  -- Over the SQLite store: when a token request gets a token (status 200), the same request, sent again at once
  -- with the same body and at any time, does not get another.
  pub token_once :
      (times times' : Times) (jti jti' : Text) (db db' db'' : Db) (r r' : HttpResult)
      → token (sqlite_store iso) config times jti event db ≡ (returned r, db')
      → r.status ≡ 200
      → token (sqlite_store iso) config times' jti' event db' ≡ (returned r', db'')
      → r'.status ≢ 200
  unfolding token token_body
  token_once times times' jti jti' db db' db'' r r' = go (body_json event.body)
    where
      go :
          (body : Option Json)
          → token_body (sqlite_store iso) config times jti event body db ≡ (returned r, db')
          → r.status ≡ 200
          → token_body (sqlite_store iso) config times' jti' event body db' ≡ (returned r', db'')
          → r'.status ≢ 200
      go none e ok e' = λ ok'. ground (arith, e, ok)
      go (some body) e ok e' =
          read_once times times' jti jti' (read_token_request body) db db' db'' r r' e ok e'
