-- ===== src/Upstream.antt =====
-- src/upstream.rs: the client of a trusted provider.
pub mod Client
use pocket_oid.Base.{Bool, List, Option}
use pocket_oid.Config.{TrustedProviderConfig}
use pocket_oid.Text.{Text}

pub record DiscoveredOidcProvider : Type 0 where
  pub issuer : Text
  pub authorization_endpoint : Text
  pub token_endpoint : Text
  pub jwks_uri : Text

pub record ValidatedUpstreamIdentity : Type 0 where
  pub subject : Text
  pub issuer : Text

pub record UpstreamAuthorizationRequest : Type 0 where
  pub provider : TrustedProviderConfig
  pub metadata : DiscoveredOidcProvider
  pub upstream_scopes : List Text
  pub state : Text
  pub nonce : Text
  pub pkce_verifier : Option Text
  pub prompt_login : Bool

-- What the endpoints ask of the client. An error's cause is only logged, so it is `none`.
pub record UpstreamClient : Type 0 where
  pub discover : TrustedProviderConfig → Option DiscoveredOidcProvider
  pub build_authorization_url : UpstreamAuthorizationRequest → Option Text
  pub exchange_code :
      TrustedProviderConfig → DiscoveredOidcProvider → Text → Option Text → Option Text
  pub validate_id_token :
      DiscoveredOidcProvider
      → TrustedProviderConfig
      → Text
      → Text
      → Option ValidatedUpstreamIdentity
