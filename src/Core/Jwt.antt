-- ===== src/Core/Jwt.antt =====
-- backend/core/src/lib/jwt.ts over what it takes from elsewhere: base64url, UTF-8 and JSON of the
-- runtime, Ed25519 and HMAC-SHA-256 of its packages.
use Prim.Native.Nat.{bit_or, bit_xor}
use corner_tasks.Prelude.{
  ℕ, Bool, false, Option, none, some, List, [], ◌∷◌, ◌++◌, ◌==◌, if◌then◌else◌, length,
}
use corner_tasks.Prelude.Text.{Text, codes, text_eq, split}
use corner_tasks.Prelude.Outcome.{Outcome, returned}
use corner_tasks.Prelude.Json.{Json, str, obj, Fields, end, field, get_field, as_str}

abbrev pub Bytes : Type 0
Bytes = List ℕ

pub record Codec : Type 0 where
  -- `Buffer.from(b).toString('base64url')` and back
  pub base64url_encode : Bytes → Text
  pub base64url_decode : Text → Bytes
  pub utf8_encode : Text → Bytes
  -- `JSON.parse` of the bytes' text, `none` where it throws; the bytes of `JSON.stringify`
  pub json_parse : Bytes → Option Json
  pub json_bytes : Json → Bytes
  -- signature, message, public key; throws on an input of the wrong form
  pub ed_verify : Bytes → Bytes → Bytes → Outcome Bool
  -- message, private key
  pub ed_sign : Bytes → Bytes → Bytes
  -- key, message
  pub hmac_sha256 : Bytes → Bytes → Bytes

pub data JwtAlg : Type 0 where
  ed_dsa hs256 : JwtAlg

-- A header that `decodeJwt` lets pass, or that the server signs: `typ` is `JWT`.
pub record JwtHeader : Type 0 where
  pub alg : JwtAlg
  pub kid : Option Text

-- `claims` is any JSON value: `decodeJwt` looks only at the header.
pub record DecodedJwt : Type 0 where
  pub header : JwtHeader
  pub claims : Json
  pub signing_input : Text
  pub signature : Bytes

abbrev pub alg_name : JwtAlg → Text
alg_name ed_dsa = codes "EdDSA"
alg_name hs256 = codes "HS256"

-- `header.alg`, where it is one of the two names
unfoldable pub alg_of : Option Text → Option JwtAlg
alg_of none = none
alg_of (some s) =
    if text_eq s (codes "EdDSA")
    then some ed_dsa
    else if text_eq s (codes "HS256")
    then some hs256
    else none

abbrev pub text_is : Option Text → Text → Bool
text_is none t = false
text_is (some s) t = text_eq s t

-- The check of the header; `!header` is `null` here, every other value has no such fields.
unfoldable pub read_header : Json → Option JwtHeader
unfolding alg_of
read_header header =
    if text_is (as_str (get_field (codes "typ") header)) (codes "JWT")
    then elim (alg_of (as_str (get_field (codes "alg") header))) [
      | none ↦ none
      | some alg ↦ some (record { alg = alg; kid = as_str (get_field (codes "kid") header) })
    ]
    else none

-- The loop of `verifyHs256`, which compares in constant time.
unfoldable pub diff_of : ℕ → Bytes → Bytes → ℕ
diff_of diff (x ∷ xs) (y ∷ ys) = diff_of (bit_or diff (bit_xor x y)) xs ys
diff_of diff _ _ = diff

abbrev pub kid_field : Option Text → Fields
kid_field none = end
kid_field (some kid) = field (codes "kid") (str kid) end

-- `JSON.stringify(header)`: an absent `kid` is left out
abbrev pub header_json : JwtHeader → Json
header_json header = obj (
    field (codes "alg") (str (alg_name header.alg))
      (field (codes "typ") (str (codes "JWT")) (kid_field header.kid)))

module _ (c : Codec) where
  open c use {
    base64url_encode, base64url_decode, utf8_encode, json_parse, json_bytes, ed_verify, ed_sign,
    hmac_sha256,
  }

  decode_parts : Text → Text → Text → Option Json → Option Json → Option DecodedJwt
  decode_parts h p s (some header) (some claims) = elim (read_header header) [
    | none ↦ none
    | some checked ↦ some (record {
      header = checked;
      claims = claims;
      signing_input = h ++ b'.' ∷ p;
      signature = base64url_decode s;
    })
  ]
  decode_parts h p s _ _ = none

  decode_split : List Text → Option DecodedJwt
  unfolding decode_parts
  decode_split (h ∷ p ∷ s ∷ []) =
      decode_parts h p s (json_parse (base64url_decode h)) (json_parse (base64url_decode p))
  decode_split _ = none

  -- `decodeJwt`: `none` where it throws `invalid_did_jwt`
  unfoldable pub decode_jwt : Text → Option DecodedJwt
  unfolding decode_split
  decode_jwt token = decode_split (split b'.' token)

  unfoldable pub verify_ed_dsa : DecodedJwt → Bytes → Outcome Bool
  verify_ed_dsa decoded public_key = elim decoded.header.alg [
    | ed_dsa ↦ ed_verify decoded.signature (utf8_encode decoded.signing_input) public_key
    | hs256 ↦ returned false
  ]

  unfoldable pub verify_hs256 : DecodedJwt → Bytes → Bool
  unfolding diff_of
  verify_hs256 decoded secret = elim decoded.header.alg [
    | ed_dsa ↦ false
    | hs256 ↦
        let expected = hmac_sha256 secret (utf8_encode decoded.signing_input) in
        if length expected == length decoded.signature
        then diff_of 0 expected decoded.signature == 0
        else false
  ]

  abbrev pub signing_input_of : JwtHeader → Json → Text
  signing_input_of header claims =
      base64url_encode (json_bytes (header_json header))
      ++ b'.' ∷ base64url_encode (json_bytes claims)

  unfoldable pub sign_ed_dsa : JwtHeader → Json → Bytes → Text
  sign_ed_dsa header claims private_key =
      let signing_input = signing_input_of header claims in
      signing_input ++ b'.' ∷ base64url_encode (ed_sign (utf8_encode signing_input) private_key)

  unfoldable pub sign_hs256 : JwtHeader → Json → Bytes → Text
  sign_hs256 header claims secret =
      let signing_input = signing_input_of header claims in
      signing_input ++ b'.' ∷ base64url_encode (hmac_sha256 secret (utf8_encode signing_input))
