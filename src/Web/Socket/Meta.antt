-- ===== src/Web/Socket/Meta.antt =====
-- The reading of `GET /v1/meta` in apps/web/src/sync/NegotiatingTransport.ts.
use corner_tasks.Prelude.{
  ◌≡◌, refl, sym, Bool, true, false, Option, none, some, List, [], ◌∷◌, ◌++◌, if◌then◌else◌, In,
  inl, inr, branches,
}
use corner_tasks.Prelude.Text.{Text, codes, text_eq, text_eq_iff}
use corner_tasks.Prelude.Int.{ℤ, pos}
use corner_tasks.Prelude.Json.{Json, num, str, arr, obj, Items, nil, cons, get_field, as_str}
use corner_tasks.Core.Handlers.Push.Report.{In-append_right}

pub record MetaResponse : Type 0 where
  pub protocol_versions : List ℤ
  pub transports : List Text
  pub ws_url : Option Text
  pub audience : Option Text

abbrev pub rest_name : Text
rest_name = codes "rest"

abbrev pub rest_only_meta : MetaResponse
rest_only_meta = record {
  protocol_versions = pos 2 ∷ [];
  transports = rest_name ∷ [];
  ws_url = none;
  audience = none;
}

-- The texts and the numbers among the items.
unfoldable pub strings_of : Items → List Text
strings_of nil = []
strings_of (cons (str s) items) = s ∷ strings_of items
strings_of (cons _ items) = strings_of items

unfoldable pub numbers_of : Items → List ℤ
numbers_of nil = []
numbers_of (cons (num n) items) = n ∷ numbers_of items
numbers_of (cons _ items) = numbers_of items

-- `includes`
unfoldable pub includes : Text → List Text → Bool
includes t [] = false
includes t (s ∷ ss) = let others = includes t ss in if text_eq s t then true else others

unfoldable pub with_rest : List Text → List Text
unfolding includes
with_rest ts = if includes rest_name ts then ts else ts ++ rest_name ∷ []

unfoldable pub transports_of : Option Json → List Text
unfolding strings_of with_rest
transports_of (some (arr items)) = with_rest (strings_of items)
transports_of _ = rest_name ∷ []

unfoldable pub versions_of : Option Json → List ℤ
unfolding numbers_of
versions_of (some (arr items)) = numbers_of items
versions_of _ = pos 2 ∷ []

unfoldable pub meta_of : Json → MetaResponse
unfolding transports_of versions_of
meta_of body = record {
  protocol_versions = versions_of (get_field (codes "protocolVersions") body);
  transports = transports_of (get_field (codes "transports") body);
  ws_url = as_str (get_field (codes "wsUrl") body);
  audience = as_str (get_field (codes "audience") body);
}

-- `normalizeMeta`; arrays are objects.
unfoldable pub normalize_meta : Json → MetaResponse
unfolding meta_of
normalize_meta (obj fields) = meta_of (obj fields)
normalize_meta (arr items) = meta_of (arr items)
normalize_meta _ = rest_only_meta

includes-In : (t : Text) (ts : List Text) → includes t ts ≡ true → In t ts
unfolding includes
includes-In t [] e = cc e
includes-In t (s ∷ ss) e =
    branches (λ b. b ≡ true → In t (s ∷ ss)) (text_eq s t) true (includes t ss)
      (λ k _. inl (sym ((text_eq_iff s t).0 k))) (λ _ k. inr (includes-In t ss k)) e

with_rest-In : (ts : List Text) → In rest_name (with_rest ts)
unfolding with_rest
with_rest-In ts =
    branches (λ us. In rest_name us) (includes rest_name ts) ts (ts ++ rest_name ∷ [])
      (includes-In rest_name ts) (λ _. In-append_right rest_name ts (rest_name ∷ []) (inl refl))

transports_of-In : (field : Option Json) → In rest_name (transports_of field)
unfolding transports_of
transports_of-In (some (arr items)) = with_rest-In (strings_of items)
transports_of-In _ = inl refl

-- Whatever a backend answers, the transports that a client reads in it have REST among them.
pub normalize_meta-rest : (body : Json) → In rest_name (normalize_meta body).transports
unfolding normalize_meta meta_of
normalize_meta-rest (obj fields) = transports_of-In (get_field (codes "transports") (obj fields))
normalize_meta-rest (arr items) = transports_of-In (get_field (codes "transports") (arr items))
normalize_meta-rest _ = inl refl
