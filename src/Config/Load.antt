-- ===== src/Config/Load.antt =====
-- src/config.rs and src/users.rs: the loading of the configuration. What reading a file and checking
-- it against its schema gives is an argument for each file, as are the opening of a database of users
-- and the hash of the dummy password.
use pocket_oid.Base.{Bool, true, false, List, Option, if◌then◌else◌, is_empty}
use pocket_oid.Config.{
  Client, ClientConfig, ProviderSettings, TrustedProviderConfig, Result, ok, err, ◌>>=◌, ◌>>◌,
  no_active_clients, template_not_object,
}
use pocket_oid.Config.Clients.{build_clients}
use pocket_oid.Config.Providers.{build_trusted_providers, validate_reauth_clients}
use pocket_oid.Config.Settings.{validate_provider_settings}
use pocket_oid.HashMap.{HashMap}
use pocket_oid.Json.{Value, object}
use pocket_oid.Outside.{HashParser, ParsedUrl}
use pocket_oid.Text.{Text}
use pocket_oid.Users.{PasswordCredential, UserStoreBackend, UserStore}
use pocket_oid.Users.Credentials.{UserConfig}
use pocket_oid.Users.File.{load_file}

pub data UsersConfig : Type 0 where
  file : List UserConfig → UsersConfig
  sqlite : Text → UsersConfig

-- The five files; the trusted providers' one, if it is not there, counts as an empty list.
pub record Files : Type 0 where
  pub provider : Result ProviderSettings
  pub clients : Result (List ClientConfig)
  pub trusted_providers : Result (List TrustedProviderConfig)
  pub users : Result UsersConfig
  pub token_template : Result Value

pub record LoadedConfig : Type 0 where
  pub registered_clients : List ClientConfig
  pub provider : ProviderSettings
  pub clients : HashMap Client
  pub users : UserStore
  pub trusted_providers : HashMap TrustedProviderConfig
  pub token_template : Value

-- `Value::is_object`.
abbrev pub is_object : Value → Bool
is_object (object members) = true
is_object _ = false

-- `is_empty` of a map.
abbrev pub has_none {ℓ} : {V : Type ℓ} → HashMap V → Bool
has_none m = is_empty m

unfoldable pub load_clients : Files → Result (List ClientConfig × HashMap Client)
load_clients files = files.clients >>= λ configs. build_clients configs >>= λ clients.
    if has_none clients then err no_active_clients else ok (configs, clients)

unfoldable pub load_template : Files → Result Value
load_template files = files.token_template >>= λ template.
    if is_object template then ok template else err template_not_object

module _ (parse_url : Text → Option ParsedUrl) where
  unfoldable pub load_providers : Files → HashMap Client → Result (HashMap TrustedProviderConfig)
  load_providers files clients = files.trusted_providers >>= λ configs.
      build_trusted_providers parse_url configs >>= λ providers.
      validate_reauth_clients providers clients >> ok providers

module _ (parser : HashParser) (create_dummy_credential : Result PasswordCredential)
    (open_sqlite : Text → Result UserStoreBackend) where
  unfoldable pub load_backend : UsersConfig → Result UserStoreBackend
  load_backend (file users) = load_file parser users
  load_backend (sqlite path) = open_sqlite path

  -- `UserStore::load`.
  unfoldable pub load_users : UsersConfig → Result UserStore
  unfolding load_backend
  load_users config = create_dummy_credential >>= λ dummy.
      load_backend config >>= λ backend. ok (record { backend = backend; dummy_credential = dummy })

  unfoldable pub load_from_directory : (Text → Option ParsedUrl) → Files → Result LoadedConfig
  unfolding load_users load_clients load_providers load_template
  load_from_directory parse_url files = files.provider >>= λ provider.
      validate_provider_settings provider
      >> (load_clients files >>= λ (loaded : List ClientConfig × HashMap Client).
          load_providers parse_url files loaded.1 >>= λ providers. files.users >>= λ config.
          load_users config >>= λ users. load_template files >>= λ template. ok (record {
            registered_clients = loaded.0;
            provider = provider;
            clients = loaded.1;
            users = users;
            trusted_providers = providers;
            token_template = template;
          }))
