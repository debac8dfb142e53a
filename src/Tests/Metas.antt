-- ===== src/Tests/Metas.antt =====
-- The theorem about `GET /v1/meta`, at a deployment with a socket.
use corner_tasks.Prelude.{◌≡◌, refl, true, some, [], ◌++◌}
use corner_tasks.Prelude.Text.{Text, codes, text_eq}
use corner_tasks.Prelude.Outcome.{returned}
use corner_tasks.Core.Http.{HttpEvent, empty, audience_from_event}
use corner_tasks.Server.Meta.{
  Urls, PublicAudience, read_public_audience, meta, ws_url_from_audience, with_slash,
  meta_with_socket,
}
use corner_tasks.Server.Negotiated.{understood, advertised, negotiation_agrees}
use corner_tasks.Web.Socket.Meta.{normalize_meta}

-- URLs of one host, by their protocol and path
abbrev urls : Urls (Text × Text)
urls = record {
  parse = λ s. returned (codes "https:", codes "/dev");
  resolve = λ path base. returned (codes "https:", codes "/dev/" ++ path);
  protocol = λ u. u.0;
  set_protocol = λ protocol u. (protocol, u.1);
  host = λ u. codes "api";
  pathname = λ u. u.1;
  search = λ u. [];
  hash = λ u. [];
  href = λ u. u.0 ++ (codes "//api" ++ u.1);
}

abbrev public_audience : PublicAudience
public_audience = record {
  domain_name = codes "api";
  stage = codes "dev";
  audience = codes "https://api/dev";
}

abbrev request : HttpEvent
request = record {
  headers = [];
  query = [];
  body = empty;
  domain_name = codes "api";
  stage = codes "dev";
  method = codes "GET";
  path = codes "/v1/meta";
}

accepted :
    read_public_audience urls (some (codes "https://api/dev")) ≡ returned (some public_audience)
unfolding read_public_audience text_eq
accepted = refl

answer :
    meta urls true request
    ≡ returned (meta_with_socket (codes "https://api/dev") (codes "wss://api/dev/v1/sync/ws"))
unfolding meta text_eq with_slash audience_from_event
answer = refl

negotiation_agrees_example :
    normalize_meta (meta_with_socket (codes "https://api/dev") (codes "wss://api/dev/v1/sync/ws"))
    ≡ understood true
        (advertised true (ws_url_from_audience urls (codes "https://api/dev")))
        (codes "https://api/dev")
negotiation_agrees_example =
    negotiation_agrees urls (codes "https://api/dev") (codes "https:", codes "/dev") public_audience
      true request (meta_with_socket (codes "https://api/dev") (codes "wss://api/dev/v1/sync/ws"))
      refl (codes "dev", refl, refl) accepted refl refl answer
