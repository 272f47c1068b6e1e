-- ===== src/AdminConsole/Summary.antt =====
-- src/admin_console/mod.rs: what the console shows of a client.
use pocket_oid.Base.{ℕ, Bool, List, [], Option, none, some}
use pocket_oid.Config.{ClientConfig, ClientAuthMode, ConsentMode, ReAuthConsent, ReAuthClientConfig}
use pocket_oid.Config.Clients.{option_map}
use pocket_oid.Text.{Text, codes}
use pocket_oid.Upstream.Client.{algorithm_name}

pub record ClientSummary : Type 0 where
  pub id : Text
  pub enabled : Bool
  pub mode : Text
  pub scopes : List Text
  pub audience : Option Text
  pub redirects : List Text
  pub pkce : Bool
  pub consent : Text
  pub trusted : Option Text
  pub upstream_scopes : List Text
  pub algorithm : Option Text
  pub lifetime : Option ℕ

abbrev upstream_consent : Option ReAuthClientConfig → Text
upstream_consent none = codes "Show local consent"
upstream_consent (some r) = elim r.consent [
  | ReAuthConsent.skip ↦ codes "Skip local consent"
  | ReAuthConsent.local ↦ codes "Show local consent"
]

abbrev local_consent : ConsentMode → Text
local_consent ConsentMode.skip = codes "Skip consent"
local_consent ConsentMode.always = codes "Always show consent"

abbrev scopes_of : Option ReAuthClientConfig → List Text
scopes_of none = []
scopes_of (some r) = r.upstream_scopes

-- `From<&ClientConfig>`.
unfoldable pub summarize : ClientConfig → ClientSummary
summarize c = record {
  id = c.client_id;
  enabled = c.enabled;
  mode = elim c.auth_mode [
    | ClientAuthMode.re_auth ↦ codes "Upstream"
    | ClientAuthMode.local ↦ codes "Local"
  ];
  scopes = c.scopes;
  audience = c.audience;
  redirects = c.redirect_uris;
  pkce = c.require_pkce;
  consent = elim c.auth_mode [
    | ClientAuthMode.re_auth ↦ upstream_consent c.re_auth
    | ClientAuthMode.local ↦ local_consent c.consent_mode
  ];
  trusted = elim c.auth_mode [
    | ClientAuthMode.re_auth ↦ option_map (λ (r : ReAuthClientConfig). r.provider_id) c.re_auth
    | ClientAuthMode.local ↦ none
  ];
  upstream_scopes = elim c.auth_mode [
    | ClientAuthMode.re_auth ↦ scopes_of c.re_auth
    | ClientAuthMode.local ↦ []
  ];
  algorithm = option_map algorithm_name c.signing_algorithm;
  lifetime = c.token_ttl_seconds;
}
