-- ===== src/Config.antt =====
-- src/config.rs: the configuration's types, and the errors that loading it reports.
pub mod Clients
pub mod Providers
pub mod Settings
pub mod Load
use pocket_oid.Base.{ℕ, ◌≡◌, refl, ◌↔◌, Bool, true, false, List, Option, Eq}
use pocket_oid.HashMap.{HashMap}
use pocket_oid.Json.{Value}
use pocket_oid.Text.{Text}

pub data SigningAlgorithm : Type 0 where
  rs256 es256 ps256 : SigningAlgorithm

abbrev pub algorithm_beq : SigningAlgorithm → SigningAlgorithm → Bool
algorithm_beq rs256 rs256 = true
algorithm_beq es256 es256 = true
algorithm_beq ps256 ps256 = true
algorithm_beq _ _ = false

pub algorithm_beq_iff : (a b : SigningAlgorithm) → (algorithm_beq a b ≡ true) ↔ (a ≡ b)
algorithm_beq_iff rs256 rs256 = ((λ _. refl), (λ _. refl))
algorithm_beq_iff es256 es256 = ((λ _. refl), (λ _. refl))
algorithm_beq_iff ps256 ps256 = ((λ _. refl), (λ _. refl))
algorithm_beq_iff _ _ = ((λ h. cc), (λ h. cc))

instance abbrev pub algorithm_eq : Eq SigningAlgorithm
algorithm_eq = record { beq = algorithm_beq; beq_iff = algorithm_beq_iff }

pub record ProviderSettings : Type 0 where
  pub name : Text
  pub issuer : Text
  pub token_ttl_seconds : ℕ
  pub listen : Text
  pub log_dir : Option Text
  pub signing_algorithm : SigningAlgorithm
  pub signing_key_paths : List (SigningAlgorithm × Text)
  pub login_background_color : Option Text

pub data ClientAuthMode : Type 0 where
  local re_auth : ClientAuthMode

pub data ReAuthConsent : Type 0 where
  local skip : ReAuthConsent

pub data ConsentMode : Type 0 where
  always skip : ConsentMode

pub record ReAuthClientConfig : Type 0 where
  pub provider_id : Text
  pub upstream_scopes : List Text
  pub consent : ReAuthConsent

pub record ClientConfig : Type 0 where
  pub client_id : Text
  pub client_secret : Text
  pub signing_algorithm : Option SigningAlgorithm
  pub audience : Option Text
  pub scopes : List Text
  pub metadata : HashMap Value
  pub enabled : Bool
  pub token_ttl_seconds : Option ℕ
  pub redirect_uris : List Text
  pub response_types : List Text
  pub require_pkce : Bool
  pub consent_mode : ConsentMode
  pub auth_mode : ClientAuthMode
  pub re_auth : Option ReAuthClientConfig

-- The three sets are sorted lists, as `BTreeSet` collects them.
pub record Client : Type 0 where
  pub client_id : Text
  pub client_secret : Text
  pub signing_algorithm : Option SigningAlgorithm
  pub audience : Option Text
  pub allowed_scopes : List Text
  pub metadata : HashMap Value
  pub token_ttl_seconds : Option ℕ
  pub redirect_uris : List Text
  pub response_types : List Text
  pub require_pkce : Bool
  pub consent_mode : ConsentMode
  pub auth_mode : ClientAuthMode
  pub re_auth : Option ReAuthClientConfig

-- The provider's `type` and its endpoint's authentication method have one value each.
pub record TrustedProviderConfig : Type 0 where
  pub provider_id : Text
  pub issuer : Text
  pub client_id : Text
  pub client_secret : Text
  pub redirect_uri : Text
  pub require_pkce : Bool
  pub allowed_signing_algorithms : List SigningAlgorithm

-- The messages of `AppError::Config`, with the values that they are formatted from.
pub data ConfigError : Type 0 where
  duplicate_client_id : Text → ConfigError
  blank_provider_id : ConfigError
  provider_id_with_colon : Text → ConfigError
  duplicate_provider_id : Text → ConfigError
  no_signing_algorithms : Text → ConfigError
  invalid_url relative_url : Text → ConfigError
  blank_provider_client_id : Text → ConfigError
  empty_provider_client_secret : Text → ConfigError
  local_client_with_re_auth : Text → ConfigError
  client_without_re_auth : Text → ConfigError
  unknown_provider : Text → Text → ConfigError
  upstream_scopes_without_openid : Text → ConfigError
  empty_log_dir : ConfigError
  empty_key_path : SigningAlgorithm → ConfigError
  invalid_background_color : ConfigError
  missing_key_path : SigningAlgorithm → ConfigError
  no_active_clients template_not_object : ConfigError
  unreadable : Text → ConfigError
  empty_user_id empty_username no_users : ConfigError
  duplicate_user_id duplicate_username : Text → ConfigError
  two_credentials no_credential : Text → ConfigError
  invalid_hash incomplete_hash wrong_hash_version invalid_costs weak_hash : Text → ConfigError
  unknown_hash invalid_digest : Text → ConfigError
  empty_sqlite_user_id empty_sqlite_username no_enabled_users : ConfigError

pub data Result {κ} (T : Type κ) : Type κ where
  err : ConfigError → Result T
  ok : T → Result T

-- The `?` operator, with and without a value to pass on.
infixl 5 ◌>>=◌
abbrev pub ◌>>=◌ {κ μ} : {T : Type κ} {U : Type μ} → Result T → (T → Result U) → Result U
err cause >>= next = err cause
ok value >>= next = next value

infixl 5 ◌>>◌
abbrev pub ◌>>◌ {κ} : {U : Type κ} → Result (Unit {0}) → Result U → Result U
checked >> next = checked >>= λ _. next
