-- ===== src/Web/Account.antt =====
-- apps/web/src/crypto/AccountManager.ts: the account of a device and the phrase that is kept for it. The
-- BIP-39 package, the derivation of an identity and the encryption of the stored phrase are arguments.
use corner_tasks.Prelude.{
  ℕ, ◌≡◌, refl, Bool, true, false, not, Option, none, some, List, [], ◌∷◌, ◌++◌, is_empty,
  if◌then◌else◌, filter, branches,
}
use corner_tasks.Prelude.Text.{Text, to_lower, is_space}
use corner_tasks.Prelude.Outcome.{Outcome, returned, threw}

-- `raw.split(/\s+/)`, but for its empty parts
abbrev onto_word : ℕ → List Text → List Text
onto_word c [] = (c ∷ []) ∷ []
onto_word c (word ∷ words) = (c ∷ word) ∷ words

unfoldable pub parts_of : Text → List Text
parts_of [] = [] ∷ []
parts_of (c ∷ s) = let parts = parts_of s in if is_space c then [] ∷ parts else onto_word c parts

unfoldable pub words_of : Text → List Text
unfolding parts_of filter
words_of s = filter (λ w. not (is_empty w)) (parts_of s)

-- `join(' ')`
unfoldable pub join_words : List Text → Text
join_words [] = []
join_words (w ∷ []) = w
join_words (w ∷ v ∷ words) = w ++ b' ' ∷ join_words (v ∷ words)

-- `normaliseMnemonic`
unfoldable pub normalise_mnemonic : Text → Text
unfolding words_of join_words
normalise_mnemonic raw = join_words (words_of (to_lower raw))

pub record Phrases (I : Type 0) : Type 0 where
  pub validate : Text → Bool
  pub identity_of : Text → I
  pub did_of : I → Text

pub record AccountState (I : Type 0) : Type 0 where
  pub did : Option Text
  pub mnemonic : Option Text
  pub identity : Option I

-- The manager, and the phrase that its store holds.
pub record AccountManager (I : Type 0) : Type 0 where
  pub state : AccountState I
  pub stored : Option Text

module _ {I : Type 0} (phrases : Phrases I) where
  abbrev pub no_account : AccountState I
  no_account = record { did = none; mnemonic = none; identity = none }

  -- `applyMnemonic`
  unfoldable pub account_from : Text → AccountState I
  account_from m = record {
    did = some (phrases.did_of (phrases.identity_of m));
    mnemonic = some m;
    identity = some (phrases.identity_of m);
  }

  -- What `loadIfPresent` makes of the stored phrase, over the state that was.
  unfoldable pub loaded : Option Text → AccountState I → AccountState I
  unfolding account_from
  loaded none s = s
  loaded (some m) s = if is_empty m then s else if phrases.validate m then account_from m else s

  unfoldable pub load_if_present : AccountManager I → AccountManager I
  unfolding loaded
  load_if_present a = record a { state = loaded a.stored a.state }

  unfoldable pub open_account : Option Text → AccountManager I
  unfolding load_if_present
  open_account stored = load_if_present (record { state = no_account; stored = stored })

  -- `generateNew`, with the phrase that is generated
  unfoldable pub generate_new : Text → AccountManager I → AccountManager I
  generate_new m a = record { state = account_from m; stored = some m }

  unfoldable pub import_mnemonic : Text → AccountManager I → Outcome Text × AccountManager I
  import_mnemonic raw a =
      if phrases.validate (normalise_mnemonic raw)
      then (
        returned (normalise_mnemonic raw),
        record {
          state = account_from (normalise_mnemonic raw);
          stored = some (normalise_mnemonic raw);
        },
      )
      else (threw, a)

  unfoldable pub forget_account : AccountManager I → AccountManager I
  forget_account a = record { state = no_account; stored = none }

  pub data AccountStep (a : AccountManager I) : AccountManager I → Type 0 where
    generates :
        (m : Text)
        → is_empty m ≡ false
        → phrases.validate m ≡ true
        → AccountStep a (generate_new m a)
    imports :
        (raw : Text)
        → is_empty (normalise_mnemonic raw) ≡ false
        → AccountStep a (import_mnemonic raw a).1
    forgets : AccountStep a (forget_account a)

  pub data AccountSteps (a : AccountManager I) : AccountManager I → Type 0 where
    none_yet : AccountSteps a a
    step_on : {b c : AccountManager I} → AccountSteps a b → AccountStep b c → AccountSteps a c

  abbrev Restorable : AccountManager I → Type 0
  Restorable a = open_account a.stored ≡ a

  opened-Restorable : (stored : Option Text) → Restorable (open_account stored)
  unfolding open_account load_if_present
  opened-Restorable stored = refl

  kept-Restorable :
      (m : Text)
      → is_empty m ≡ false
      → phrases.validate m ≡ true
      → Restorable (record { state = account_from m; stored = some m })
  unfolding open_account load_if_present loaded
  kept-Restorable m e v = rw (e, v) refl

  AccountStep-Restorable : {a b : AccountManager I} → Restorable a → AccountStep a b → Restorable b
  unfolding generate_new import_mnemonic forget_account open_account load_if_present loaded
  AccountStep-Restorable h (generates m e v) = kept-Restorable m e v
  AccountStep-Restorable {a} h (imports raw e) =
      branches (λ (r : Outcome Text × AccountManager I). Restorable r.1)
        (phrases.validate (normalise_mnemonic raw))
        (
          returned (normalise_mnemonic raw),
          record {
            state = account_from (normalise_mnemonic raw);
            stored = some (normalise_mnemonic raw);
          },
        )
        (threw, a) (λ v. kept-Restorable (normalise_mnemonic raw) e v) (λ _. h)
  AccountStep-Restorable h forgets = refl

  AccountSteps-Restorable :
      {a b : AccountManager I} → Restorable a → AccountSteps a b → Restorable b
  AccountSteps-Restorable h none_yet = h
  AccountSteps-Restorable h (step_on before step) =
      AccountStep-Restorable (AccountSteps-Restorable h before) step

  -- Whatever a device has done since it was opened (generated valid phrases, imported phrases that are good or
  -- not but not blank, forgotten its account): a page that is opened anew on what is stored has the same
  -- account, identity and phrase.
  pub reopening_restores :
      (stored : Option Text) (a : AccountManager I)
      → AccountSteps (open_account stored) a
      → open_account a.stored ≡ a
  reopening_restores stored a steps = AccountSteps-Restorable (opened-Restorable stored) steps
