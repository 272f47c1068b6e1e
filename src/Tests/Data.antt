-- ===== src/Tests/Data.antt =====
-- The crates' parts by concrete functions, and the records that the tests share.
use pocket_oid.Base.{
  ℕ, ◌+◌, ◌*◌, ◌-◌, ◌≤◌, ◌≡◌, ◌≢◌, Bool, true, false, [], ◌∷◌, Option, none, some, arith, leb,
  if◌then◌else◌,
}
use pocket_oid.Base.Int.{ℤ, pos, negsuc}
use pocket_oid.AuthStore.{
  AuthContext, AuthorizationCodeRecord, AuthStore, DownstreamAuthorizationRequest,
  PendingReauthTransaction, PendingReauthConsent, Session,
}
use pocket_oid.Config.{
  Client, ClientAuthMode, ConsentMode, ProviderSettings, ReAuthConsent, rs256,
  TrustedProviderConfig,
}
use pocket_oid.Handlers.State.{AppState}
use pocket_oid.Handlers.Token.{Crates}
use pocket_oid.Json.{string, number, object, Members, end, member}
use pocket_oid.Outside.{Crypto, Chrono, nanos}
use pocket_oid.Text.{Text, codes, text_beq, text_beq_iff}
use pocket_oid.Upstream.{DiscoveredOidcProvider, UpstreamClient}
use pocket_oid.Users.{UserStoreBackend, argon2id}

abbrev pub crypto : Crypto
crypto = record { ct_eq = text_beq; ct_eq_iff = text_beq_iff; digest = λ b. b; base64url = λ b. b }

abbrev pub seconds_in_range : ℤ → Bool
seconds_in_range (pos s) = leb s 9_223_372_036_854_775
seconds_in_range (negsuc s) = leb s 9_223_372_036_854_774

abbrev pub add_duration : ℕ → ℤ → Option ℕ
add_duration t (pos s) = some (t + s * nanos)
add_duration t (negsuc s) = if leb ((s + 1) * nanos) t then some (t - (s + 1) * nanos) else none

pub in_range_pos : (s : ℕ) → s ≤ 9_223_372_036_854_775 → seconds_in_range (pos s) ≡ true
in_range_pos s h = ground arith

pub add_duration_pos : (t s u : ℕ) → add_duration t (pos s) ≡ some u → u ≡ t + s * nanos
add_duration_pos t s u h = cc

abbrev pub chrono : Chrono
chrono = record {
  in_range = seconds_in_range;
  in_range_pos = in_range_pos;
  checked_add = add_duration;
  checked_add_pos = add_duration_pos;
  timestamp = λ t. pos t;
}

abbrev pub print_digit : ℤ → Text
print_digit (pos n) = codes "1"
print_digit (negsuc n) = codes "-1"

abbrev pub crates : Crates
crates = record {
  crypto = crypto;
  chrono = chrono;
  encode = λ key claims. some (codes "signed");
  print_number = print_digit;
}

abbrev pub client : Client
client = record {
  client_id = codes "a";
  client_secret = codes "s";
  signing_algorithm = none;
  audience = none;
  allowed_scopes = codes "x" ∷ [];
  metadata = [];
  token_ttl_seconds = none;
  redirect_uris = codes "u" ∷ [];
  response_types = codes "code" ∷ [];
  require_pkce = false;
  consent_mode = ConsentMode.skip;
  auth_mode = ClientAuthMode.local;
  re_auth = none;
}

-- A template with the required claims.
abbrev pub claims_template : Members
claims_template = member (codes "iss") (string (codes "i")) (
    member (codes "sub") (string (codes "${subject}")) (
      member (codes "aud") (string (codes "a")) (
        member (codes "iat") (number (pos 1))
          (member (codes "exp") (number (pos 2)) (member (codes "jti") (string (codes "j")) end)))))

abbrev pub provider : ProviderSettings
provider = record {
  name = codes "P";
  issuer = codes "i";
  token_ttl_seconds = 60;
  listen = codes "l";
  log_dir = none;
  signing_algorithm = rs256;
  signing_key_paths = [];
  login_background_color = none;
}

abbrev pub trusted : TrustedProviderConfig
trusted = record {
  provider_id = codes "p";
  issuer = codes "i";
  client_id = codes "c";
  client_secret = codes "s";
  redirect_uri = codes "r";
  require_pkce = false;
  allowed_signing_algorithms = rs256 ∷ [];
}

abbrev pub state : AppState
state = record {
  provider = provider;
  clients = (codes "a", client) ∷ [];
  users = record { backend = UserStoreBackend.file []; dummy_credential = argon2id (codes "d") };
  trusted_providers = (codes "p", trusted) ∷ [];
  token_template = object claims_template;
  signing_keys =
      (rs256, record { kid = codes "k"; encoding_key = codes "e"; algorithm = rs256 }) ∷ [];
}

abbrev pub downstream : DownstreamAuthorizationRequest
downstream = record {
  client_id = codes "a";
  redirect_uri = codes "u";
  scope = none;
  state = none;
  nonce = none;
  code_challenge = none;
  code_challenge_method = none;
}

abbrev pub code_entry : AuthorizationCodeRecord
code_entry = record {
  code = codes "z";
  client_id = codes "a";
  user_id = codes "m";
  redirect_uri = codes "u";
  scope = none;
  nonce = none;
  expires_at = 9;
  code_challenge = none;
  code_challenge_method = none;
  auth_context = AuthContext.local;
}

abbrev pub session : Session
session = record {
  session_id = codes "q";
  user_id = codes "m";
  username = codes "m";
  auth_time = 0;
  expires_at = 9;
}

abbrev pub discovered : DiscoveredOidcProvider
discovered = record {
  issuer = codes "i";
  authorization_endpoint = codes "e";
  token_endpoint = codes "t";
  jwks_uri = codes "j";
}

abbrev pub transaction : PendingReauthTransaction
transaction = record {
  downstream = downstream;
  provider_id = codes "p";
  consent = ReAuthConsent.skip;
  upstream_state = codes "t";
  upstream_nonce = codes "n";
  pkce_verifier = none;
  provider_metadata = discovered;
  created_at = 0;
  expires_at = 9;
}

abbrev pub local_consent : PendingReauthConsent
local_consent = record {
  transaction_id = codes "w";
  downstream = downstream;
  user_id = codes "p:o";
  auth_context = AuthContext.re_auth (codes "p") (codes "i");
  expires_at = 9;
}

-- A store with one entry in each map.
abbrev pub store : AuthStore
store = record {
  sessions = (codes "q", session) ∷ [];
  auth_codes = (codes "z", code_entry) ∷ [];
  pending_reauth = (codes "t", transaction) ∷ [];
  pending_reauth_consents = (codes "w", local_consent) ∷ [];
}

abbrev pub upstream : UpstreamClient
upstream = record {
  discover = λ provider. some discovered;
  build_authorization_url = λ request. some (codes "e");
  exchange_code = λ provider metadata code verifier. some (codes "id");
  validate_id_token = λ metadata provider id_token expected.
      some (record { subject = codes "o"; issuer = codes "i" });
}

-- Texts that the comparison tells apart.
pub differ : (s t : Text) → text_beq s t ≡ false → s ≢ t
differ s t apart e = ground (arith, text_beq_iff s t)
