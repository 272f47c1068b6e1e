-- ===== src/Handlers/State.antt =====
-- src/app.rs: `ApplicationState`, what the endpoints share, less the store of sessions and codes,
-- which they change and which is passed on.
use pocket_oid.Base.{List, [], ◌∷◌, Option, none, some, if◌then◌else◌, ◌==◌}
use pocket_oid.Config.{
  SigningAlgorithm, algorithm_eq, ProviderSettings, Client, TrustedProviderConfig,
}
use pocket_oid.HashMap.{HashMap}
use pocket_oid.Json.{Value}
use pocket_oid.Text.{Text}
use pocket_oid.Users.{UserStore}

-- `KeyMaterial` of src/crypto.rs; the key is kept as the text that it is loaded from.
pub record KeyMaterial : Type 0 where
  pub kid : Text
  pub encoding_key : Text
  pub algorithm : SigningAlgorithm

pub record AppState : Type 0 where
  pub provider : ProviderSettings
  pub clients : HashMap Client
  pub users : UserStore
  pub trusted_providers : HashMap TrustedProviderConfig
  pub token_template : Value
  pub signing_keys : List (SigningAlgorithm × KeyMaterial)

unfoldable pub key_for :
    SigningAlgorithm → List (SigningAlgorithm × KeyMaterial) → Option KeyMaterial
key_for algorithm [] = none
key_for algorithm ((a, key) ∷ keys) =
    let rest = key_for algorithm keys in if a == algorithm then some key else rest
