-- ===== src/Web/Wire.antt =====
-- apps/web/src/sync/syncEvent.ts, with apps/web/src/crypto/box.ts and `makeDidJwt` of
-- apps/web/src/crypto/identity.ts. What the browser and the packages do is a record of functions.
use corner_tasks.Prelude.{
  ℕ, ◌+◌, ◌%◌, Option, none, some, List, [], ◌∷◌, ◌++◌, map, ◌==◌, if◌then◌else◌, length,
}
use corner_tasks.Prelude.Text.{Text, codes}
use corner_tasks.Prelude.Int.{ℤ, pos, negsuc}
use corner_tasks.Prelude.Json.{Json, get_field, as_str, as_num}
use corner_tasks.Prelude.Outcome.{Outcome, returned, threw, ◌>>=◌}
use corner_tasks.Core.Types.{Op, upsert, delete, SyncEvent}
use corner_tasks.Core.Cursor.{print_cursor}

abbrev pub Bytes : Type 0
Bytes = List ℕ

-- `btoa` and `atob` are taken with the conversion between bytes and binary strings.
pub record Runtime : Type 0 where
  pub btoa : Bytes → Text
  pub atob : Text → Outcome Bytes
  pub utf8_encode : Text → Bytes
  pub utf8_decode : Bytes → Text
  pub json_string : Text → Text
  pub json_parse : Text → Outcome Json
  pub event_stringify : SyncEvent → Text
  pub event_parse : Text → Option SyncEvent
  pub to_iso : ℕ → Text
  pub date_parse : Text → Option ℕ
  -- key, iv, additional data, and what is sealed or opened
  pub aes_encrypt : Bytes → Bytes → Bytes → Bytes → Outcome Bytes
  pub aes_decrypt : Bytes → Bytes → Bytes → Bytes → Outcome Bytes
  pub ed_sign : Bytes → Bytes → Bytes

-- s.replaceAll(from, to)
abbrev pub replace_all : ℕ → ℕ → Text → Text
replace_all from to = map (λ c. if c == from then to else c)

-- s.replace(/=+$/, '')
unfoldable pub strip_padding : Text → Text
strip_padding [] = []
strip_padding (c ∷ s) = elim (strip_padding s) [
  | [] ↦ if c == b'=' then [] else c ∷ []
  | d ∷ r ↦ c ∷ d ∷ r
]

-- '='.repeat(n)
abbrev pub padding : ℕ → Text
padding n =
    if n == 0 then [] else if n == 2 then codes "==" else if n == 3 then codes "=" else codes "==="

pub record EventPlaintext : Type 0 where
  pub title : Text
  pub created_at : ℕ
  pub completed_at : Option ℕ
  pub due_date : Option ℕ
  pub order : ℤ

-- `String(n)`
abbrev pub show_ℤ : ℤ → Text
show_ℤ (pos n) = print_cursor n
show_ℤ (negsuc n) = b'-' ∷ print_cursor (n + 1)

pub record SealResult : Type 0 where
  pub ciphertext : Bytes
  pub iv : Bytes

pub record MakeEventArgs : Type 0 where
  pub op : Op
  pub account_did : Text
  pub device_id : Text
  pub event_id : Text
  pub task_id : Text
  pub updated_at : ℕ
  pub plaintext : Option EventPlaintext
  pub encryption_key : Bytes

-- `${accountDid}|${taskId}|${eventId}`
abbrev pub aad_text : Text → Text → Text → Text
aad_text account task event = account ++ b'|' ∷ task ++ b'|' ∷ event

-- `null` where a check before has failed
abbrev and_then : {A B : Type 0} → Option A → (A → Option B) → Option B
and_then none f = none
and_then (some a) f = f a

module _ (runtime : Runtime) where
  unfoldable pub b64url_encode : Bytes → Text
  unfolding strip_padding
  b64url_encode bytes =
      strip_padding (replace_all b'/' b'_' (replace_all b'+' b'-' (runtime.btoa bytes)))

  unfoldable pub b64url_decode : Text → Outcome Bytes
  b64url_decode s =
      runtime.atob (replace_all b'_' b'/' (replace_all b'-' b'+' s) ++ padding (length s % 4))

  abbrev pub iso_format : ℕ → Text
  iso_format d = runtime.to_iso d

  abbrev pub iso_parse : Text → Option ℕ
  iso_parse s = runtime.date_parse s

  abbrev pub time_or_null : Option ℕ → Text
  time_or_null none = codes "null"
  time_or_null (some d) = runtime.json_string (iso_format d)

  unfoldable pub encode_plaintext : EventPlaintext → Bytes
  encode_plaintext pt = runtime.utf8_encode (
      codes "{\"title\":"
      ++ runtime.json_string pt.title
      ++ codes ",\"createdAt\":"
      ++ runtime.json_string (iso_format pt.created_at)
      ++ codes ",\"completedAt\":"
      ++ time_or_null pt.completed_at
      ++ codes ",\"dueDate\":"
      ++ time_or_null pt.due_date
      ++ codes ",\"order\":"
      ++ show_ℤ pt.order
      ++ codes "}")

  abbrev pub parse_time : Option Text → Option ℕ
  parse_time none = none
  parse_time (some s) = iso_parse s

  abbrev pub read_order : Option ℤ → ℤ
  read_order none = pos 0
  read_order (some n) = n

  unfoldable pub read_plaintext : Json → Option EventPlaintext
  read_plaintext o = and_then (as_str (get_field (codes "title") o)) λ title.
      and_then (as_str (get_field (codes "createdAt") o)) λ created_text.
        and_then (iso_parse created_text) λ created_at. some (record {
          title = title;
          created_at = created_at;
          completed_at = parse_time (as_str (get_field (codes "completedAt") o));
          due_date = parse_time (as_str (get_field (codes "dueDate") o));
          order = read_order (as_num (get_field (codes "order") o));
        })

  unfoldable pub decode_plaintext : Bytes → Option EventPlaintext
  unfolding read_plaintext
  decode_plaintext bytes = elim (runtime.json_parse (runtime.utf8_decode bytes)) [
    | threw ↦ none
    | returned o ↦ read_plaintext o
  ]

  abbrev pub event_aad : Text → Text → Text → Bytes
  event_aad account task event = runtime.utf8_encode (aad_text account task event)

  -- `iv` is the nonce given, or 12 bytes drawn.
  unfoldable pub seal : Bytes → Bytes → Bytes → Bytes → Outcome SealResult
  seal plaintext key aad iv =
      if length iv == 12
      then (do
        ciphertext ← runtime.aes_encrypt key iv aad plaintext
        returned (record { ciphertext = ciphertext; iv = iv }))
      else threw

  unfoldable pub open_box : Bytes → Bytes → Bytes → Bytes → Outcome Bytes
  open_box ciphertext iv key aad =
      if length iv == 12 then runtime.aes_decrypt key iv aad ciphertext else threw

  abbrev pub plaintext_bytes : Op → Option EventPlaintext → Bytes
  plaintext_bytes delete _ = runtime.utf8_encode (codes "{}")
  plaintext_bytes upsert (some pt) = encode_plaintext pt
  plaintext_bytes upsert none = runtime.utf8_encode (codes "{}")

  unfoldable pub make_event : MakeEventArgs → Bytes → Outcome SyncEvent
  unfolding seal b64url_encode encode_plaintext
  make_event args iv = do
    sealed ←
        seal (plaintext_bytes args.op args.plaintext) args.encryption_key
          (event_aad args.account_did args.task_id args.event_id) iv
    returned (record {
      account_did = args.account_did;
      device_id = args.device_id;
      event_id = args.event_id;
      task_id = args.task_id;
      updated_at = iso_format args.updated_at;
      op = args.op;
      ciphertext = b64url_encode sealed.ciphertext;
      nonce = b64url_encode sealed.iv;
    })

  unfoldable pub open_event : SyncEvent → Bytes → Outcome (Option EventPlaintext)
  unfolding open_box b64url_decode decode_plaintext
  open_event event key = do
    ct ← b64url_decode event.ciphertext
    iv ← b64url_decode event.nonce
    pt ← open_box ct iv key (event_aad event.account_did event.task_id event.event_id)
    returned (elim event.op [ delete ↦ none | upsert ↦ decode_plaintext pt ])

  -- The DID-JWT of an identity.
  unfoldable pub make_did_jwt : Text → Text → Bytes → Text → Text → ℕ → Text
  unfolding b64url_encode
  make_did_jwt account method_id private_key audience challenge iat =
      let quote = λ (t : Text). b'"' ∷ t ++ b'"' ∷ [] in
      let header =
        codes "{\"alg\":\"EdDSA\",\"typ\":\"JWT\",\"kid\":"
        ++ quote (account ++ b'#' ∷ method_id)
        ++ codes "}" in
      let payload =
        codes "{\"iss\":"
        ++ quote account
        ++ codes ",\"sub\":"
        ++ quote account
        ++ codes ",\"aud\":"
        ++ quote audience
        ++ codes ",\"nonce\":"
        ++ quote challenge
        ++ codes ",\"iat\":"
        ++ print_cursor iat
        ++ codes ",\"exp\":"
        ++ print_cursor (iat + 300)
        ++ codes "}" in
      let signing_input =
        b64url_encode (runtime.utf8_encode header)
        ++ b'.' ∷ b64url_encode (runtime.utf8_encode payload) in
      signing_input
      ++ b'.' ∷ b64url_encode (runtime.ed_sign (runtime.utf8_encode signing_input) private_key)
