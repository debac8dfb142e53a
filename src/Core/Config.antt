-- ===== src/Core/Config.antt =====
-- What the handlers of backend/core/src/handlers take from their surroundings.
use corner_tasks.Prelude.{ℕ}
use corner_tasks.Prelude.Text.{Text}
use corner_tasks.Prelude.Int.{ℤ}
use corner_tasks.Core.Jwt.{Codec}
use corner_tasks.Core.Did.{Base58}
use corner_tasks.Core.Schema.{Formats}
use corner_tasks.Core.Auth.{SigningKey}

pub record Config : Type 0 where
  pub codec : Codec
  pub base58 : Base58
  pub formats : Formats
  pub signing : SigningKey
  -- `new Date(ms).toISOString()`
  pub iso : ℤ → Text
  -- `ACCESS_TOKEN_TTL_S`
  pub access_token_ttl_s : ℕ
