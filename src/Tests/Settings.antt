-- ===== src/Tests/Settings.antt =====
-- The configuration's checks at one configuration.
use pocket_oid.Base.{◌≡◌, refl, true, false, [], ◌∷◌, Option, none, some}
use pocket_oid.Config.{ClientConfig, ClientAuthMode, ConsentMode, ok}
use pocket_oid.Config.Clients.{client_of, build_clients}
use pocket_oid.Config.Providers.{
  build_trusted_providers, build_trusted_providers-IsRegistered, IsRegistered,
  validate_trusted_provider,
}
use pocket_oid.HashMap.{get, insert, Entries, IsUnique}
use pocket_oid.Outside.{ParsedUrl}
use pocket_oid.Tests.Data.{trusted}
use pocket_oid.Text.{Text, codes, trim_start, trim_end, is_whitespace}

abbrev client_config : ClientConfig
client_config = record {
  client_id = codes "a";
  client_secret = codes "s";
  signing_algorithm = none;
  audience = none;
  scopes = codes "x" ∷ [];
  metadata = [];
  enabled = true;
  token_ttl_seconds = none;
  redirect_uris = codes "u" ∷ [];
  response_types = codes "code" ∷ [];
  require_pkce = false;
  consent_mode = ConsentMode.skip;
  auth_mode = ClientAuthMode.local;
  re_auth = none;
}

built : build_clients (client_config ∷ []) ≡ ok ((codes "a", client_of client_config) ∷ [])
unfolding build_clients get insert
built = refl

abbrev parse_url : Text → Option ParsedUrl
parse_url t = some (record { scheme = codes "https"; host = some t; fragment = none })

trusted_built : build_trusted_providers parse_url (trusted ∷ []) ≡ ok ((codes "p", trusted) ∷ [])
unfolding build_trusted_providers trim_end trim_start is_whitespace get validate_trusted_provider
    insert
trusted_built = refl

build_trusted_providers-IsRegistered_example :
    Entries (IsRegistered parse_url) ((codes "p", trusted) ∷ [])
    × IsUnique ((codes "p", trusted) ∷ [])
build_trusted_providers-IsRegistered_example =
    build_trusted_providers-IsRegistered parse_url (trusted ∷ []) ((codes "p", trusted) ∷ [])
      trusted_built
