-- ===== src/Tests/Accounts.antt =====
-- The theorems about keys and accounts, at small inputs.
use corner_tasks.Prelude.{◌≡◌, refl, not, Option, none, some, ◌++◌, is_empty, if◌then◌else◌}
use corner_tasks.Prelude.Text.{Text, text_eq, codes, trim, to_lower}
use corner_tasks.Core.SigningKey.{
  Process, SameMaterial, load_from_env, load_from_file, required, trimmed, file_at, sources_agree,
}
use corner_tasks.Web.Account.{
  Phrases, AccountManager, AccountSteps, none_yet, step_on, generates, imports, forgets,
  open_account, generate_new, import_mnemonic, forget_account, normalise_mnemonic,
  reopening_restores,
}

abbrev variable : Text → Option Text
variable name =
    if text_eq name (codes "JWT_SECRET")
    then some (codes "c2Vj")
    else if text_eq name (codes "JWT_PRIVATE_KEY")
    then some (codes "cHJp")
    else if text_eq name (codes "JWT_PUBLIC_KEY")
    then some (codes "cHVi")
    else none

abbrev path : Text → Option Text
path name =
    if text_eq name (codes "JWT_SECRET_FILE")
    then some (codes "/s")
    else if text_eq name (codes "JWT_PRIVATE_KEY_FILE")
    then some (codes "/k")
    else if text_eq name (codes "JWT_PUBLIC_KEY_FILE")
    then some (codes "/p")
    else none

abbrev content : Text → Option Text
content name =
    if text_eq name (codes "/s")
    then some (codes " c2Vj ")
    else if text_eq name (codes "/k")
    then some (codes "cHJp ")
    else if text_eq name (codes "/p")
    then some (codes " cHVi")
    else none

abbrev by_variables : Process
by_variables = record { env = variable; read_file = λ _. none; from_base64 = λ s. s }

abbrev by_files : Process
by_files = record { env = path; read_file = content; from_base64 = λ s. s }

by_files-SameMaterial : SameMaterial by_variables by_files
unfolding required trimmed file_at text_eq trim
by_files-SameMaterial = record {
  alg = refl;
  kid = refl;
  decoding = refl;
  secret = λ e. cc e;
  private_key = λ _. (b'c', codes "HJp", b'/', codes "k", codes "cHJp ", refl, refl, refl, refl);
  public_key = λ _. (b'c', codes "HVi", b'/', codes "p", codes " cHVi", refl, refl, refl, refl);
}

sources_agree_example : load_from_file by_files ≡ load_from_env by_variables
sources_agree_example = sources_agree by_variables by_files by_files-SameMaterial

abbrev phrases : Phrases Text
phrases = record {
  validate = λ m. not (is_empty m);
  identity_of = λ m. m;
  did_of = λ i. codes "did:" ++ i;
}

abbrev imported : AccountManager Text
imported =
    (import_mnemonic phrases (codes " Zoo  abandon ") (
      forget_account phrases
        (generate_new phrases (codes "abandon zoo") (open_account phrases none)))).1

imported-AccountSteps : AccountSteps phrases (open_account phrases none) imported
unfolding normalise_mnemonic to_lower
imported-AccountSteps =
    step_on (step_on (step_on none_yet (generates (codes "abandon zoo") refl refl)) forgets)
      (imports (codes " Zoo  abandon ") refl)

reopening_restores_example : open_account phrases imported.stored ≡ imported
reopening_restores_example = reopening_restores phrases none imported imported-AccountSteps
