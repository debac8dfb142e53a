-- ===== src/Server/Meta.antt =====
-- backend/server/src/handlers/meta.ts with lib/ws-config.ts and lib/audience.ts: what a deployment says of
-- itself. The `URL` of the runtime is an argument.
use corner_tasks.Prelude.{
  Bool, true, false, not, ◌&&◌, ◌||◌, Option, none, some, [], ◌∷◌, ◌++◌, ◌==◌, if◌then◌else◌,
  or_else, is_empty,
}
use corner_tasks.Prelude.Text.{Text, codes, text_eq, to_lower}
use corner_tasks.Prelude.Int.{pos}
use corner_tasks.Prelude.Json.{Json, num, str, arr, obj, nil, cons, field, end}
use corner_tasks.Prelude.Outcome.{Outcome, returned, threw, ◌>>=◌}
use corner_tasks.Core.Http.{HttpEvent, audience_from_event}

-- The class `URL`
pub record Urls (U : Type 0) : Type 0 where
  pub parse : Text → Outcome U
  pub resolve : Text → Text → Outcome U
  pub protocol : U → Text
  pub set_protocol : Text → U → U
  pub host : U → Text
  pub pathname : U → Text
  pub search : U → Text
  pub hash : U → Text
  pub href : U → Text

pub record PublicAudience : Type 0 where
  pub domain_name : Text
  pub stage : Text
  pub audience : Text

-- `replace(/^\//, '')`
abbrev pub without_slash : Text → Text
without_slash [] = []
without_slash (c ∷ s) = if c == b'/' then s else c ∷ s

-- `audience.endsWith('/') ? audience : audience + '/'`
unfoldable pub ends_in_slash : Text → Bool
ends_in_slash [] = false
ends_in_slash (c ∷ []) = c == b'/'
ends_in_slash (c ∷ d ∷ s) = ends_in_slash (d ∷ s)

unfoldable pub with_slash : Text → Text
unfolding ends_in_slash
with_slash s = if ends_in_slash s then s else s ++ b'/' ∷ []

-- `wsEnabled`, of `CT_WS`
unfoldable pub ws_enabled : Option Text → Bool
ws_enabled ct_ws = not (text_eq (to_lower (or_else ct_ws (codes "on"))) (codes "off"))

-- What `createServerStack` tells `setWsServed`: the hub is attached.
unfoldable pub ws_served : Bool → Option Text → Bool
unfolding ws_enabled
ws_served suppressed ct_ws = not suppressed && ws_enabled ct_ws

abbrev pub ws_path : Text
ws_path = codes "/v1/sync/ws"

module _ {U : Type 0} (urls : Urls U) where
  abbrev pub socket_protocol : U → Text
  socket_protocol u =
      if text_eq (urls.protocol u) (codes "http:") then codes "ws:" else codes "wss:"

  unfoldable pub ws_url_from_audience : Text → Outcome Text
  unfolding with_slash
  ws_url_from_audience audience =
      urls.resolve (without_slash ws_path) (with_slash audience)
      >>= (λ u. returned (urls.href (urls.set_protocol (socket_protocol u) u)))

  -- A deployment's URL, once it has been parsed.
  unfoldable pub audience_of : U → Outcome (Option PublicAudience)
  audience_of u =
      if not (text_eq (urls.protocol u) (codes "https:"))
      then threw
      else if not (is_empty (urls.search u)) || not (is_empty (urls.hash u))
      then threw
      else returned (
          some (record {
            domain_name = urls.host u;
            stage = without_slash (urls.pathname u);
            audience = urls.href u;
          }))

  -- `readPublicAudience`, of `PUBLIC_URL`
  unfoldable pub read_public_audience : Option Text → Outcome (Option PublicAudience)
  unfolding audience_of
  read_public_audience none = returned none
  read_public_audience (some raw) =
      if is_empty raw then returned none else urls.parse raw >>= audience_of

abbrev pub required_for : Text → Option PublicAudience → Outcome (Option PublicAudience)
required_for store_kind (some a) = returned (some a)
required_for store_kind none = if text_eq store_kind (codes "sqlite") then threw else returned none

module _ {U : Type 0} (urls : Urls U) where
  unfoldable pub require_public_audience_for_store :
      Option Text → Option Text → Outcome (Option PublicAudience)
  unfolding read_public_audience
  require_public_audience_for_store ct_store public_url =
      read_public_audience urls public_url >>= required_for (or_else ct_store (codes "sqlite"))

abbrev pub protocol_versions : Json
protocol_versions = arr (cons (num (pos 2)) (cons (num (pos 3)) nil))

abbrev pub meta_without_socket : Text → Json
meta_without_socket audience = obj (
    field (codes "protocolVersions") protocol_versions (
      field (codes "transports") (arr (cons (str (codes "rest")) nil))
        (field (codes "audience") (str audience) end)))

abbrev pub meta_with_socket : Text → Text → Json
meta_with_socket audience ws_url = obj (
    field (codes "protocolVersions") protocol_versions (
      field (codes "transports") (arr (cons (str (codes "ws")) (cons (str (codes "rest")) nil)))
        (field (codes "wsUrl") (str ws_url) (field (codes "audience") (str audience) end))))

module _ {U : Type 0} (urls : Urls U) where
  unfoldable pub meta_for : Bool → Text → Outcome Json
  unfolding ws_url_from_audience
  meta_for false audience = returned (meta_without_socket audience)
  meta_for true audience =
      ws_url_from_audience urls audience >>= (λ ws_url. returned (meta_with_socket audience ws_url))

  -- The body of the handler of `GET /v1/meta`, where `served` is `isWsServed()`.
  unfoldable pub meta : Bool → HttpEvent → Outcome Json
  unfolding meta_for audience_from_event
  meta served event = meta_for served (audience_from_event event)
