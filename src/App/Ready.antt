-- ===== src/App/Ready.antt =====
-- src/app.rs and src/config.rs: what a server that starts can rely on.
use pocket_oid.AdminConsole.{AdminStore}
use pocket_oid.App.{load_signing_keys}
use pocket_oid.App.Keys.{algorithm_of, load_signing_keys-All}
use pocket_oid.App.Start.{Application, start_with, initialize, readyz, state_of}
use pocket_oid.Base.{
  ◌≡◌, refl, sym, subst, Bool, true, false, List, Option, some, arith, is_empty, is_some, All,
  Option-cases, inl, inr,
}
use pocket_oid.Config.{
  SigningAlgorithm, Client, ClientConfig, TrustedProviderConfig, Result, ok, err, ◌>>=◌,
}
use pocket_oid.Config.Clients.{
  build_clients, find_enabled, client_of, option_map, get-build_clients,
}
use pocket_oid.Config.Load.{
  LoadedConfig, Files, is_object, load_clients, load_providers, load_template, load_users,
  load_from_directory,
}
use pocket_oid.Config.Providers.{IsRoutable, validate_reauth_clients, validate_reauth_clients_iff}
use pocket_oid.Config.Settings.{validate_provider_settings}
use pocket_oid.Handlers.State.{KeyMaterial, key_for, AppState}
use pocket_oid.HashMap.{HashMap, get, values}
use pocket_oid.Json.{Value}
use pocket_oid.Outside.{HashParser, ParsedUrl}
use pocket_oid.Text.{Text}
use pocket_oid.Users.{PasswordCredential, UserStoreBackend}
use pocket_oid.Users.File.{Result-cases}

-- What the loading has made of the files of the clients, of the providers and of the template.
record IsLoaded (files : Files) (config : LoadedConfig) : Type 0 where
  read : files.clients ≡ ok config.registered_clients
  built : build_clients config.registered_clients ≡ ok config.clients
  some_client : is_empty config.clients ≡ false
  routable : validate_reauth_clients config.trusted_providers config.clients ≡ ok tt
  template : is_object config.token_template ≡ true

load_clients-IsOk :
    (files : Files) (configs : List ClientConfig) (clients : HashMap Client)
    → load_clients files ≡ ok (configs, clients)
    → (files.clients ≡ ok configs)
      × (build_clients configs ≡ ok clients)
      × (is_empty clients ≡ false)
unfolding load_clients
load_clients-IsOk files configs clients h = elim (Result-cases files.clients) [
  | inl (cause, e) ↦ absurd (ground (arith, e, h))
  | inr (read, e) ↦ elim (Result-cases (build_clients read)) [
    | inl (cause, f) ↦ absurd (ground (arith, e, f, h))
    | inr (built, f) ↦ (ground (arith, e, f, h), ground (arith, e, f, h), ground (arith, e, f, h))
  ]
]

load_providers-IsOk :
    (parse_url : Text → Option ParsedUrl) (files : Files) (clients : HashMap Client)
    (providers : HashMap TrustedProviderConfig)
    → load_providers parse_url files clients ≡ ok providers
    → validate_reauth_clients providers clients ≡ ok tt
unfolding load_providers
load_providers-IsOk parse_url files clients providers h = ground arith

load_template-IsOk :
    (files : Files) (template : Value)
    → load_template files ≡ ok template
    → is_object template ≡ true
unfolding load_template
load_template-IsOk files template h = ground arith

start_with-IsOk :
    (load_key : LoadedConfig → SigningAlgorithm → Option KeyMaterial) (makes_client : Bool)
    (admins : Option (Option AdminStore)) (config : LoadedConfig) (app : Application)
    → start_with load_key makes_client admins config ≡ some app
    → (keys : List (SigningAlgorithm × KeyMaterial)) × (load_signing_keys
          (load_key config)
          config.provider
          config.clients
        ≡ some keys)
      × (app.state ≡ state_of config keys)
unfolding start_with
start_with-IsOk load_key makes_client admins config app h =
    elim (Option-cases (load_signing_keys (load_key config) config.provider config.clients)) [
      | inl e ↦ absurd (ground (arith, e, h))
      | inr (keys, e) ↦ (keys, e, ground (arith, e, h))
    ]

initialize-IsOk :
    (load_key : LoadedConfig → SigningAlgorithm → Option KeyMaterial) (makes_client : Bool)
    (admins : Option (Option AdminStore)) (loaded : Result LoadedConfig) (app : Application)
    → initialize load_key makes_client admins loaded ≡ some app
    → (config : LoadedConfig) × (loaded ≡ ok config)
      × (start_with load_key makes_client admins config ≡ some app)
unfolding initialize
initialize-IsOk load_key makes_client admins (err cause) app h = absurd (ground arith)
initialize-IsOk load_key makes_client admins (ok config) app h = (config, refl, h)

-- What holds of the state of a server that has started.
abbrev pub IsReady : List ClientConfig → AppState → Type 0
IsReady configs state =
    (readyz state ≡ 200)
    × ((k : Text) → get k state.clients ≡ option_map client_of (find_enabled k configs))
    × All (IsRoutable state.trusted_providers) (values state.clients)
    × All (λ c. is_some (key_for (algorithm_of state.provider c) state.signing_keys) ≡ true)
        (values state.clients)
    × (is_object state.token_template ≡ true)

loaded-IsReady :
    (load_key : LoadedConfig → SigningAlgorithm → Option KeyMaterial) (files : Files)
    (config : LoadedConfig) (keys : List (SigningAlgorithm × KeyMaterial))
    → IsLoaded files config
    → load_signing_keys (load_key config) config.provider config.clients ≡ some keys
    → IsReady config.registered_clients (state_of config keys)
unfolding readyz
loaded-IsReady load_key files config keys h signed = (
  ground (arith, h.some_client),
  (λ k. get-build_clients k config.registered_clients config.clients h.built),
  (validate_reauth_clients_iff config.trusted_providers config.clients).0 h.routable,
  load_signing_keys-All (load_key config) config.provider config.clients keys signed,
  h.template,
)

-- A chain that succeeds succeeds at each link.
bind-IsOk :
    {T U : Type 0} (r : Result T) (f : T → Result U) (u : U)
    → r >>= f ≡ ok u
    → (t : T) × (r ≡ ok t) × (f t ≡ ok u)
bind-IsOk (err cause) f u h = absurd (ground arith)
bind-IsOk (ok t) f u h = (t, refl, h)

module _ (parse_url : Text → Option ParsedUrl) (parser : HashParser)
    (create_dummy_credential : Result PasswordCredential)
    (open_sqlite : Text → Result UserStoreBackend) where
  load_from_directory-IsLoaded :
      (files : Files) (config : LoadedConfig)
      → load_from_directory parser create_dummy_credential open_sqlite parse_url files ≡ ok config
      → IsLoaded files config
  unfolding load_from_directory
  load_from_directory-IsLoaded files config h =
      let (provider, _, checked) = bind-IsOk files.provider _ config h in
      let (_, _, from_clients) = bind-IsOk (validate_provider_settings provider) _ config checked in
      let ((configs, clients), loaded, from_providers) =
        bind-IsOk (load_clients files) _ config from_clients in
      let (providers, trusted, from_users) =
        bind-IsOk (load_providers parse_url files clients) _ config from_providers in
      let (users_config, _, from_store) = bind-IsOk files.users _ config from_users in
      let (users, _, from_template) =
        bind-IsOk (load_users parser create_dummy_credential open_sqlite users_config) _ config
          from_store in
      let (template, object, made) = bind-IsOk (load_template files) _ config from_template in
      let (read, built, some_client) = load_clients-IsOk files configs clients loaded in
      let routable = load_providers-IsOk parse_url files clients providers trusted in
      let is_template = load_template-IsOk files template object in
      ground (arith, made, read, built, some_client, routable, is_template)

  -- A server that starts has at least one client, so that it reports itself ready; each identifier
  -- is answered with the enabled entry of the clients' file that has it; each client is local, or
  -- goes to a trusted provider whom it asks for the scope `openid`; there is a key for the
  -- algorithm of each client's tokens; and the template is an object.
  pub initialize-IsReady :
      (load_key : LoadedConfig → SigningAlgorithm → Option KeyMaterial) (makes_client : Bool)
      (admins : Option (Option AdminStore)) (files : Files) (app : Application)
      → initialize load_key makes_client admins
          (load_from_directory parser create_dummy_credential open_sqlite parse_url files)
        ≡ some app
      → (configs : List ClientConfig) × (files.clients ≡ ok configs) × IsReady configs app.state
  initialize-IsReady load_key makes_client admins files app h =
      let (config, loaded, started) = initialize-IsOk load_key makes_client admins _ app h in
      let (keys, signed, made) = start_with-IsOk load_key makes_client admins config app started in
      let facts = load_from_directory-IsLoaded files config loaded in
      (
        config.registered_clients,
        facts.read,
        subst (λ state. IsReady config.registered_clients state) (sym made)
            (loaded-IsReady load_key files config keys facts signed),
      )
