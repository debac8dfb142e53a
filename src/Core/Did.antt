-- ===== src/Core/Did.antt =====
-- backend/core/src/lib/did.ts, over the base58 of its package (`none` where decoding throws).
-- apps/web/src/crypto/did.ts is the same text.
use corner_tasks.Prelude.{
  ◌≡◌, refl, true, ◌&&◌, Option, none, some, [], ◌∷◌, ◌++◌, arith, ◌==◌, if◌then◌else◌, length,
  Bool-cases, inl, inr, subst,
}
use corner_tasks.Prelude.Text.{Text, codes, starts_with, text_drop}
use corner_tasks.Core.Jwt.{Bytes}

pub record Base58 : Type 0 where
  pub decode : Text → Option Bytes
  pub encode : Bytes → Text

abbrev pub did_key_z : Text
did_key_z = codes "did:key:z"

abbrev pub did_key : Text
did_key = codes "did:key:"

-- The bytes after the multicodec prefix.
key_of : Bytes → Option Bytes
key_of (m ∷ n ∷ key) =
    if length key == 32 then (if (m == 0xed) && (n == 0x01) then some key else none) else none
key_of _ = none

-- `none` where the source throws `InvalidDidError`.
unfoldable pub public_key_from_did : Base58 → Text → Option Bytes
unfolding key_of
public_key_from_did b did =
    if starts_with did_key_z did
    then elim (b.decode (text_drop 9 did)) [ none ↦ none | some decoded ↦ key_of decoded ]
    else none

unfoldable pub did_from_public_key : Base58 → Bytes → Option Text
did_from_public_key b pub_key =
    if length pub_key == 32 then some (did_key_z ++ b.encode (0xed ∷ 0x01 ∷ pub_key)) else none

unfoldable pub method_specific_id : Text → Option Text
method_specific_id did = if starts_with did_key did then some (text_drop 8 did) else none

starts_with-append : (p s : Text) → starts_with p (p ++ s) ≡ true
unfolding starts_with
starts_with-append [] [] = refl
starts_with-append [] (c ∷ s) = refl
starts_with-append (c ∷ p) s = ground (arith, starts_with-append p s)

-- Where base58 reads back the bytes that it wrote for a key, and the key has a `did:key`, that gives the
-- key again.
pub public_key_from_did-did_from_public_key :
    (b : Base58) (key : Bytes) (did : Text)
    → b.decode (b.encode (0xed ∷ 0x01 ∷ key)) ≡ some (0xed ∷ 0x01 ∷ key)
    → did_from_public_key b key ≡ some did
    → public_key_from_did b did ≡ some key
unfolding did_from_public_key public_key_from_did text_drop
public_key_from_did-did_from_public_key b key did inverse e = elim (Bool-cases (length key == 32)) [
  | inl long ↦
      let written : did_key_z ++ b.encode (0xed ∷ 0x01 ∷ key) ≡ did = cc (rw long at e) in
      subst (λ d. public_key_from_did b d ≡ some key) written
        (rw (starts_with-append did_key_z (b.encode (0xed ∷ 0x01 ∷ key)), inverse, long) refl)
  | inr short ↦ cc (rw short at e)
]
