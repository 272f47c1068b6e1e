-- ===== src/App.antt =====
-- src/app.rs: the loading of the signing keys, the discovery document and the scopes it lists.
pub mod Keys
pub mod Scopes
pub mod Start
pub mod Ready
use pocket_oid.Base.{
  ℕ, ◌≡◌, Bool, true, false, List, [], ◌∷◌, ◌++◌, Option, none, some, if◌then◌else◌, ◌==◌, contains,
  keep,
}
use pocket_oid.BTreeSet.{insert}
use pocket_oid.Config.{
  SigningAlgorithm, rs256, es256, ps256, algorithm_eq, Client, ProviderSettings,
}
use pocket_oid.Handlers.State.{KeyMaterial}
use pocket_oid.HashMap.{HashMap, values}
use pocket_oid.Text.{Text, text_eq, codes, trim_end_slash}
use pocket_oid.Upstream.Client.{algorithm_name}

-- `filter_map(|client| client.signing_algorithm)`.
unfoldable pub client_algorithms : List Client → List SigningAlgorithm
client_algorithms [] = []
client_algorithms (c ∷ cs) =
    let rest = client_algorithms cs in elim c.signing_algorithm [ none ↦ rest | some a ↦ a ∷ rest ]

-- The set of the algorithms, in its order.
unfoldable pub used_algorithms : ProviderSettings → List Client → List SigningAlgorithm
used_algorithms provider clients =
    keep (λ a. contains (provider.signing_algorithm ∷ client_algorithms clients) a)
      (rs256 ∷ es256 ∷ ps256 ∷ [])

-- `load_signing_key` at the configured path; `none` for an error.
module _ (load_signing_key : SigningAlgorithm → Option KeyMaterial) where
  -- The loop, from the key identifiers that are taken.
  unfoldable pub load_keys :
      List SigningAlgorithm → List Text → Option (List (SigningAlgorithm × KeyMaterial))
  load_keys [] key_ids = some []
  load_keys (algorithm ∷ algorithms) key_ids = elim (load_signing_key algorithm) [
    | none ↦ none
    | some key ↦ elim (contains key_ids key.kid) [
      | true ↦ none
      | false ↦ elim (load_keys algorithms (key.kid ∷ key_ids)) [
        | none ↦ none
        | some keys ↦ some ((algorithm, key) ∷ keys)
      ]
    ]
  ]

  unfoldable pub load_signing_keys :
      ProviderSettings → HashMap Client → Option (List (SigningAlgorithm × KeyMaterial))
  load_signing_keys provider clients = load_keys (used_algorithms provider (values clients)) []

unfoldable pub insert_scopes : List Text → List Text → List Text
insert_scopes [] set = set
insert_scopes (scope ∷ scopes) set = insert_scopes scopes (insert scope set)

unfoldable pub collect_from : List Client → List Text → List Text
collect_from [] set = set
collect_from (c ∷ cs) set = collect_from cs (insert_scopes c.allowed_scopes set)

unfoldable pub collect_scopes : HashMap Client → List Text
collect_scopes clients = collect_from (values clients) []

pub record DiscoveryDocument : Type 0 where
  pub issuer : Text
  pub authorization_endpoint : Text
  pub token_endpoint : Text
  pub jwks_uri : Text
  pub grant_types_supported : List Text
  pub response_types_supported : List Text
  pub subject_types_supported : List Text
  pub token_endpoint_auth_methods_supported : List Text
  pub id_token_signing_alg_values_supported : List Text
  pub scopes_supported : List Text

unfoldable pub key_names : List (SigningAlgorithm × KeyMaterial) → List Text
key_names [] = []
key_names ((algorithm, key) ∷ keys) = algorithm_name algorithm ∷ key_names keys

-- `DiscoveryDocument::new`.
unfoldable pub new_document :
    ProviderSettings → List Text → List (SigningAlgorithm × KeyMaterial) → DiscoveryDocument
new_document provider scopes_supported signing_keys =
    let issuer = trim_end_slash provider.issuer in
    record {
      issuer = issuer;
      authorization_endpoint = issuer ++ codes "/authorize";
      token_endpoint = issuer ++ codes "/oauth/token";
      jwks_uri = issuer ++ codes "/jwks.json";
      grant_types_supported = codes "client_credentials" ∷ codes "authorization_code" ∷ [];
      response_types_supported = codes "code" ∷ codes "token" ∷ [];
      subject_types_supported = codes "public" ∷ [];
      token_endpoint_auth_methods_supported = codes "client_secret_post" ∷ [];
      id_token_signing_alg_values_supported = key_names signing_keys;
      scopes_supported = scopes_supported;
    }
