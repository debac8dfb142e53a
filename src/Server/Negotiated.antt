-- ===== src/Server/Negotiated.antt =====
-- What a client (apps/web/src/sync/NegotiatingTransport.ts) reads in the answer of backend/server to
-- `GET /v1/meta`.
use corner_tasks.Prelude.{
  ◌≡◌, refl, subst, Bool, true, false, not, ◌||◌, Option, none, some, [], ◌∷◌, ◌++◌, if◌then◌else◌,
  is_empty, branches,
}
use corner_tasks.Prelude.Text.{Text, codes, text_eq}
use corner_tasks.Prelude.Int.{pos}
use corner_tasks.Prelude.Json.{Json, field_of}
use corner_tasks.Prelude.Outcome.{Outcome, returned, threw, ◌>>=◌}
use corner_tasks.Core.Http.{HttpEvent, audience_from_event}
use corner_tasks.Server.Meta.{
  Urls, PublicAudience, without_slash, audience_of, read_public_audience, ws_url_from_audience,
  meta_for, meta, meta_with_socket, meta_without_socket,
}
use corner_tasks.Web.Socket.Meta.{
  MetaResponse, normalize_meta, meta_of, transports_of, versions_of, strings_of, numbers_of,
  with_rest, includes,
}

-- The socket that is named, if one is served.
abbrev pub advertised : Bool → Outcome Text → Option Text
advertised false url = none
advertised true threw = none
advertised true (returned url) = some url

abbrev pub understood : Bool → Option Text → Text → MetaResponse
understood served ws_url audience = record {
  protocol_versions = pos 2 ∷ pos 3 ∷ [];
  transports = if served then codes "ws" ∷ codes "rest" ∷ [] else codes "rest" ∷ [];
  ws_url = ws_url;
  audience = some audience;
}

body_of : {x y : Json} → returned x ≡ returned y → x ≡ y
body_of e = cc e

module _ {U : Type 0} (urls : Urls U) where
  -- The text of a URL is its host and its path: it has no credentials.
  abbrev pub IsPlain : U → Type 0
  IsPlain u =
      (path : Text) × (urls.pathname u ≡ b'/' ∷ path)
      × (urls.href u ≡ codes "https://" ++ (urls.host u ++ b'/' ∷ path))

  abbrev IsReadFrom : U → PublicAudience → Type 0
  IsReadFrom u a = (a.domain_name ≡ urls.host u) × (a.stage ≡ without_slash (urls.pathname u))

  audience_of-IsReadFrom :
      (u : U) (a : PublicAudience) → audience_of urls u ≡ returned (some a) → IsReadFrom u a
  unfolding audience_of
  audience_of-IsReadFrom u a e =
      branches (λ (o : Outcome (Option PublicAudience)). o ≡ returned (some a) → IsReadFrom u a)
        (not (text_eq (urls.protocol u) (codes "https:"))) threw _ (λ _ k. cc k)
        (λ _.
          branches (λ (o : Outcome (Option PublicAudience)). o ≡ returned (some a) → IsReadFrom u a)
            (not (is_empty (urls.search u)) || not (is_empty (urls.hash u))) threw _ (λ _ k. cc k)
            (λ _ k. (cc k, cc k)))
        e

  read_public_audience-IsReadFrom :
      (raw : Text) (u : U) (a : PublicAudience)
      → urls.parse raw ≡ returned u
      → read_public_audience urls (some raw) ≡ returned (some a)
      → IsReadFrom u a
  unfolding read_public_audience
  read_public_audience-IsReadFrom raw u a parsed e =
      branches (λ (o : Outcome (Option PublicAudience)). o ≡ returned (some a) → IsReadFrom u a)
        (is_empty raw) (returned none) (urls.parse raw >>= audience_of urls) (λ _ k. cc k)
        (λ _ k. audience_of-IsReadFrom u a (rw parsed at k)) e

  -- A request's audience is the text of the deployment's URL.
  audience_reconstructed :
      (u : U) (a : PublicAudience) (event : HttpEvent)
      → IsPlain u
      → IsReadFrom u a
      → event.domain_name ≡ a.domain_name
      → event.stage ≡ a.stage
      → audience_from_event event ≡ urls.href u
  unfolding audience_from_event
  audience_reconstructed u a event (path, e, k) (host, stage) at_host at_stage =
      rw (at_host, host, at_stage, stage, e, k) refl

  without_socket_understood :
      (audience : Text) (body : Json)
      → returned (meta_without_socket audience) ≡ returned body
      → normalize_meta body ≡ understood false none audience
  unfolding normalize_meta meta_of transports_of versions_of strings_of numbers_of with_rest
      includes field_of text_eq
  without_socket_understood audience body e =
      subst (λ b. normalize_meta b ≡ understood false none audience) (body_of e) refl

  with_socket_understood :
      (audience : Text) (url : Outcome Text) (body : Json)
      → (url >>= (λ ws_url. returned (meta_with_socket audience ws_url))) ≡ returned body
      → normalize_meta body ≡ understood true (advertised true url) audience
  unfolding normalize_meta meta_of transports_of versions_of strings_of numbers_of with_rest
      includes field_of text_eq
  with_socket_understood audience threw body e = cc e
  with_socket_understood audience (returned ws_url) body e =
      subst (λ b. normalize_meta b ≡ understood true (some ws_url) audience) (body_of e) refl

  answer_understood :
      (served : Bool) (audience : Text) (body : Json)
      → meta_for urls served audience ≡ returned body
      → normalize_meta body
        ≡ understood served (advertised served (ws_url_from_audience urls audience)) audience
  unfolding meta_for
  answer_understood false audience body e = without_socket_understood audience body e
  answer_understood true audience body e =
      with_socket_understood audience (ws_url_from_audience urls audience) body e

  -- A client reads in the answer of a server what the server's configuration says. Where PUBLIC_URL parses to
  -- a URL without credentials and is accepted, and requests are built with what was read from it: the client
  -- reads the versions 2 and 3, the audience is the text of that URL, a socket is among the transports just
  -- where one is served, and its URL is then the one made from that same audience.
  pub negotiation_agrees :
      (raw : Text) (u : U) (a : PublicAudience) (served : Bool) (event : HttpEvent) (body : Json)
      → urls.parse raw ≡ returned u
      → IsPlain u
      → read_public_audience urls (some raw) ≡ returned (some a)
      → event.domain_name ≡ a.domain_name
      → event.stage ≡ a.stage
      → meta urls served event ≡ returned body
      → normalize_meta body
        ≡ understood served
            (advertised served (ws_url_from_audience urls (urls.href u)))
            (urls.href u)
  unfolding meta
  negotiation_agrees raw u a served event body parsed plain accepted at_host at_stage answer =
      subst
        (λ audience.
          normalize_meta body
          ≡ understood served (advertised served (ws_url_from_audience urls audience)) audience)
        (audience_reconstructed u a event plain
          (read_public_audience-IsReadFrom raw u a parsed accepted) at_host at_stage)
        (answer_understood served (audience_from_event event) body answer)
