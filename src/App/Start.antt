-- ===== src/App/Start.antt =====
-- src/app.rs and src/handlers.rs: `AppState::initialize`, and the endpoints that answer what it stores.
use pocket_oid.AdminConsole.{AdminConsole, AdminStore, load}
use pocket_oid.AdminConsole.Summary.{ClientSummary, summarize}
use pocket_oid.App.{DiscoveryDocument, new_document, collect_scopes, load_signing_keys}
use pocket_oid.AuthStore.{AuthStore, empty_store}
use pocket_oid.Base.{ℕ, Bool, List, Option, none, some, if◌then◌else◌, is_empty, map}
use pocket_oid.Config.{SigningAlgorithm, Result, ok, err}
use pocket_oid.Config.Load.{LoadedConfig}
use pocket_oid.Handlers.State.{AppState, KeyMaterial}
use pocket_oid.Text.{text_eq}

-- `ApplicationState`, in the parts that the handlers of this library take.
pub record Application : Type 0 where
  pub state : AppState
  pub admin_console : AdminConsole
  pub summaries : List ClientSummary
  pub discovery : DiscoveryDocument
  pub auth_store : AuthStore

abbrev pub state_of : LoadedConfig → List (SigningAlgorithm × KeyMaterial) → AppState
state_of config signing_keys = record {
  provider = config.provider;
  clients = config.clients;
  users = config.users;
  trusted_providers = config.trusted_providers;
  token_template = config.token_template;
  signing_keys = signing_keys;
}

-- From the configuration: the keys' files, whether the HTTP client of `UpstreamClient::new` can be
-- made, and the store of the console, if there is one; `none` for an error.
unfoldable pub start_with :
    (LoadedConfig → SigningAlgorithm → Option KeyMaterial)
    → Bool
    → Option (Option AdminStore)
    → LoadedConfig
    → Option Application
start_with load_key makes_client admins config =
    elim (load_signing_keys (load_key config) config.provider config.clients) [
      | none ↦ none
      | some signing_keys ↦ elim (if makes_client then admins else none) [
        | none ↦ none
        | some store ↦ some (record {
          state = state_of config signing_keys;
          admin_console = load store;
          summaries = map summarize config.registered_clients;
          discovery = new_document config.provider (collect_scopes config.clients) signing_keys;
          auth_store = empty_store;
        })
      ]
    ]

unfoldable pub initialize :
    (LoadedConfig → SigningAlgorithm → Option KeyMaterial)
    → Bool
    → Option (Option AdminStore)
    → Result LoadedConfig
    → Option Application
unfolding start_with
initialize load_key makes_client admins (err cause) = none
initialize load_key makes_client admins (ok config) = start_with load_key makes_client admins config

-- The endpoints.
unfoldable pub openid_configuration : Application → DiscoveryDocument
openid_configuration app = app.discovery

unfoldable pub healthz : ℕ
healthz = 200

unfoldable pub readyz : AppState → ℕ
readyz state = if is_empty state.clients then 503 else 200
