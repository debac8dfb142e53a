-- ===== src/Web/Sync/Calls.antt =====
-- Calls with a bearer token in apps/web/src/sync/SyncEngine.ts: who made a good reply.
use corner_tasks.Prelude.{◌≡◌, ◌≢◌, refl, ◌∙◌, Bool, true, false, if◌then◌else◌}
use corner_tasks.Prelude.Text.{Text}
use corner_tasks.Web.Wire.{Runtime}
use corner_tasks.Web.Session.{
  Reply, ok, failed, World, Identity, AuthSession, bearer, invalidated, is_auth_retryable,
}
use corner_tasks.Web.Sync.{call_with, retry, with_token}

module _ {N : Type 0} (world : World N) (runtime : Runtime) (identity : Identity) where
  -- A reply that is good was made by the call itself, with some token.
  call_with_ok :
      {A : Type 0} (call : Text → N → Reply A × N) (a : A) (t : Reply Text × AuthSession × N)
      → (call_with world runtime identity call t).0 ≡ ok a
      → (token : Text) × (n : N) × ((call token n).0 ≡ ok a)
  unfolding call_with
  call_with_ok call a (failed e, session, n) h = cc h
  call_with_ok call a (ok token, session, n) h = (token, n, h)

  again_ok :
      {A : Type 0} (b : Bool) (call : Text → N → Reply A × N) (a : A)
      (x y : Reply A × AuthSession × N)
      → x.0 ≢ ok a
      → (if b then y else x).0 ≡ ok a
      → y.0 ≡ ok a
  again_ok true call a x y bad h = h
  again_ok false call a x y bad h = absurd (bad h)

  retry_ok :
      {A : Type 0} (call : Text → N → Reply A × N) (a : A) (token : Text) (m n : N)
      (session : AuthSession) (reply : Reply A)
      → (call token m).0 ≡ reply
      → (retry world runtime identity call (reply, session, n)).0 ≡ ok a
      → (token' : Text) × (n' : N) × ((call token' n').0 ≡ ok a)
  unfolding retry
  retry_ok call a token m n session (ok b) e h = (token, m, e ∙ h)
  retry_ok call a token m n session (failed x) e h =
      let fresh = bearer world runtime identity invalidated n in
      call_with_ok call a fresh (
        again_ok (is_auth_retryable x) call a (failed x, session, n)
          (call_with world runtime identity call fresh) (λ k. cc k) h)

  pub with_token_ok :
      {A : Type 0} (call : Text → N → Reply A × N) (a : A) (t : Reply Text × AuthSession × N)
      → (with_token world runtime identity call t).0 ≡ ok a
      → (token : Text) × (n : N) × ((call token n).0 ≡ ok a)
  unfolding with_token
  with_token_ok call a (failed e, session, n) h = cc h
  with_token_ok call a (ok token, session, n) h =
      retry_ok call a token n (call token n).1 session (call token n).0 refl h
