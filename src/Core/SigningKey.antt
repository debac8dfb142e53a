-- ===== src/Core/SigningKey.antt =====
-- The loader of backend/core/src/lib/signing-key.ts. The process environment, the files and the decoding
-- of base64 are arguments; what is thrown is not looked at.
use corner_tasks.Prelude.{
  ℕ, ◌≡◌, refl, ap, ◌∙◌, Bool-cases, inl, inr, Bool, true, false, ◌||◌, Option, none, some, [], ◌∷◌,
  ◌==◌, if◌then◌else◌, or_else,
}
use corner_tasks.Prelude.Text.{Text, codes, text_eq, trim}
use corner_tasks.Prelude.Outcome.{Outcome, returned, threw}
use corner_tasks.Core.Jwt.{Bytes}
use corner_tasks.Core.Schema.{between}

pub record Process : Type 0 where
  pub env : Text → Option Text
  -- `none` where the file cannot be read
  pub read_file : Text → Option Text
  pub from_base64 : Text → Bytes

-- `alg` is whatever text the environment has.
pub record LoadedKey : Type 0 where
  pub alg : Text
  pub kid : Text
  pub private_key : Bytes
  pub public_key : Bytes

abbrev is_base64_unit : ℕ → Bool
is_base64_unit c =
    between b'A' b'Z' c || between b'a' b'z' c || between b'0' b'9' c || (c == b'+') || (c == b'/')

-- What may stand after the first `=`: nothing, or one more.
abbrev pub is_padding : Text → Bool
is_padding [] = true
is_padding (c ∷ []) = c == b'='
is_padding (c ∷ d ∷ s) = false

-- `validateBase64`: /^[A-Za-z0-9+/]*={0,2}$/
unfoldable pub is_base64 : Text → Bool
is_base64 [] = true
is_base64 (c ∷ s) =
    let more = is_base64 s in
    if is_base64_unit c then more else if c == b'=' then is_padding s else false

module _ (p : Process) where
  abbrev pub key_alg : Text
  key_alg = or_else (p.env (codes "JWT_ALG")) (codes "EdDSA")

  abbrev pub key_kid : Text
  key_kid = or_else (p.env (codes "JWT_KID")) (codes "ct-signing-key")

  -- A value of the environment that must be there, and not be empty.
  unfoldable pub required : Option Text → Outcome Text
  required none = threw
  required (some []) = threw
  required (some (c ∷ s)) = returned (c ∷ s)

  unfoldable pub trimmed : Option Text → Outcome Text
  trimmed none = threw
  trimmed (some content) = returned (trim content)

  -- The content of the file that a variable names.
  unfoldable pub file_at : Outcome Text → Outcome Text
  unfolding trimmed
  file_at threw = threw
  file_at (returned path) = trimmed (p.read_file path)

  -- `loadFromEnv`, with the values of its variables. A secret is both keys.
  unfoldable pub env_secret : Outcome Text → Outcome LoadedKey
  unfolding is_base64
  env_secret threw = threw
  env_secret (returned secret) =
      if is_base64 secret
      then returned (record {
        alg = key_alg;
        kid = key_kid;
        private_key = p.from_base64 secret;
        public_key = p.from_base64 secret;
      })
      else threw

  unfoldable pub env_pair : Outcome Text → Outcome Text → Outcome LoadedKey
  unfolding is_base64
  env_pair (returned priv) (returned publ) =
      if is_base64 priv
      then (if is_base64 publ
          then returned (record {
            alg = key_alg;
            kid = key_kid;
            private_key = p.from_base64 priv;
            public_key = p.from_base64 publ;
          })
          else threw)
      else threw
  env_pair threw publ = threw
  env_pair (returned priv) threw = threw

  unfoldable pub load_from_env : Outcome LoadedKey
  unfolding required env_secret env_pair
  load_from_env =
      if text_eq key_alg (codes "HS256")
      then env_secret (required (p.env (codes "JWT_SECRET")))
      else env_pair (required (p.env (codes "JWT_PRIVATE_KEY")))
          (required (p.env (codes "JWT_PUBLIC_KEY")))

  -- `loadFromFile`, with the contents of its files. A secret is both keys.
  unfoldable pub file_secret : Outcome Text → Outcome LoadedKey
  unfolding is_base64
  file_secret threw = threw
  file_secret (returned secret) =
      if is_base64 secret
      then returned (record {
        alg = key_alg;
        kid = key_kid;
        private_key = p.from_base64 secret;
        public_key = p.from_base64 secret;
      })
      else threw

  unfoldable pub file_pair : Outcome Text → Outcome Text → Outcome LoadedKey
  unfolding is_base64
  file_pair (returned priv) (returned publ) =
      if is_base64 priv
      then (if is_base64 publ
          then returned (record {
            alg = key_alg;
            kid = key_kid;
            private_key = p.from_base64 priv;
            public_key = p.from_base64 publ;
          })
          else threw)
      else threw
  file_pair threw publ = threw
  file_pair (returned priv) threw = threw

  unfoldable pub load_from_file : Outcome LoadedKey
  unfolding required file_at file_secret file_pair
  load_from_file =
      if text_eq key_alg (codes "HS256")
      then file_secret (file_at (required (p.env (codes "JWT_SECRET_FILE"))))
      else file_pair (file_at (required (p.env (codes "JWT_PRIVATE_KEY_FILE"))))
          (file_at (required (p.env (codes "JWT_PUBLIC_KEY_FILE"))))

  -- `getSigningKey` where no key is cached
  unfoldable pub load_signing_key : Outcome LoadedKey
  unfolding load_from_env load_from_file
  load_signing_key =
      if text_eq (or_else (p.env (codes "CT_KEY_SOURCE")) []) (codes "env")
      then load_from_env
      else if text_eq (or_else (p.env (codes "CT_KEY_SOURCE")) []) (codes "file")
      then load_from_file
      else threw

-- The file that a variable of `q` names has what a variable of `p` has, up to white space at its ends, and
-- is not blank.
abbrev pub Holds : Process → Process → Text → Text → Type 0
Holds p q name file_name =
    (c : ℕ) × (s : Text) × (d : ℕ) × (path content : Text) × (p.env name ≡ some (c ∷ s))
    × (q.env file_name ≡ some (d ∷ path))
    × (q.read_file (d ∷ path) ≡ some content)
    × (trim content ≡ c ∷ s)

abbrev pub IsHs256 : Process → Bool → Type 0
IsHs256 p b = text_eq (key_alg p) (codes "HS256") ≡ b

-- The variables and the files of the algorithm that is chosen
pub record SameMaterial (p q : Process) : Type 0 where
  pub alg : q.env (codes "JWT_ALG") ≡ p.env (codes "JWT_ALG")
  pub kid : q.env (codes "JWT_KID") ≡ p.env (codes "JWT_KID")
  pub decoding : q.from_base64 ≡ p.from_base64
  pub secret : IsHs256 p true → Holds p q (codes "JWT_SECRET") (codes "JWT_SECRET_FILE")
  pub private_key :
      IsHs256 p false → Holds p q (codes "JWT_PRIVATE_KEY") (codes "JWT_PRIVATE_KEY_FILE")
  pub public_key :
      IsHs256 p false → Holds p q (codes "JWT_PUBLIC_KEY") (codes "JWT_PUBLIC_KEY_FILE")

-- What the file loader reads is what the other one has.
Holds-read :
    (p q : Process) (name file_name : Text)
    → Holds p q name file_name
    → file_at q (required q (q.env file_name)) ≡ required p (p.env name)
unfolding required file_at trimmed
Holds-read p q name file_name (c, s, d, path, content, there, named, read, same) =
    rw (there, named, read, same) refl

module _ (p q : Process) (m : SameMaterial p q) where
  key_alg-same : key_alg q ≡ key_alg p
  key_alg-same = ap (λ alg. or_else alg (codes "EdDSA")) m.alg

  file_secret-env_secret : (o : Outcome Text) → file_secret q o ≡ env_secret p o
  unfolding file_secret env_secret
  file_secret-env_secret threw = refl
  file_secret-env_secret (returned secret) = rw (m.alg, m.kid, m.decoding) refl

  file_pair-env_pair : (o r : Outcome Text) → file_pair q o r ≡ env_pair p o r
  unfolding file_pair env_pair
  file_pair-env_pair threw r = refl
  file_pair-env_pair (returned priv) threw = refl
  file_pair-env_pair (returned priv) (returned publ) = rw (m.alg, m.kid, m.decoding) refl

  same_secret :
      IsHs256 p true
      → file_secret q (file_at q (required q (q.env (codes "JWT_SECRET_FILE"))))
        ≡ env_secret p (required p (p.env (codes "JWT_SECRET")))
  same_secret e =
      ap (file_secret q)
        (Holds-read p q (codes "JWT_SECRET") (codes "JWT_SECRET_FILE") (m.secret e))
      ∙ file_secret-env_secret (required p (p.env (codes "JWT_SECRET")))

  same_pair :
      IsHs256 p false
      → file_pair q
          (file_at q (required q (q.env (codes "JWT_PRIVATE_KEY_FILE"))))
          (file_at q (required q (q.env (codes "JWT_PUBLIC_KEY_FILE"))))
        ≡ env_pair p
            (required p (p.env (codes "JWT_PRIVATE_KEY")))
            (required p (p.env (codes "JWT_PUBLIC_KEY")))
  same_pair e =
      ap (λ o. file_pair q o (file_at q (required q (q.env (codes "JWT_PUBLIC_KEY_FILE")))))
        (Holds-read p q (codes "JWT_PRIVATE_KEY") (codes "JWT_PRIVATE_KEY_FILE") (m.private_key e))
      ∙ ap (file_pair q (required p (p.env (codes "JWT_PRIVATE_KEY"))))
          (Holds-read p q (codes "JWT_PUBLIC_KEY") (codes "JWT_PUBLIC_KEY_FILE") (m.public_key e))
      ∙ file_pair-env_pair (required p (p.env (codes "JWT_PRIVATE_KEY")))
          (required p (p.env (codes "JWT_PUBLIC_KEY")))

-- The two loaders agree. Where the algorithm, the key id and the decoding are the same, and the files that are
-- read for the algorithm have, up to white space at their ends, what the variables have, which is not empty:
-- both give the same key, or neither gives one.
pub sources_agree : (p q : Process) → SameMaterial p q → load_from_file q ≡ load_from_env p
unfolding load_from_file load_from_env
sources_agree p q m = elim (Bool-cases (text_eq (key_alg p) (codes "HS256"))) [
  | inl e ↦ rw (key_alg-same p q m, e) (same_secret p q m e)
  | inr e ↦ rw (key_alg-same p q m, e) (same_pair p q m e)
]
