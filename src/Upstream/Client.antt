-- ===== src/Upstream/Client.antt =====
-- src/upstream.rs: the methods of `UpstreamClient`. The HTTP exchanges, the parsing of addresses
-- and the verification of a signed token are arguments.
pub mod Keys
pub mod Identity
use pocket_oid.Base.{
  ℕ, ◌+◌, ◌-◌, ◌≡◌, Bool, true, false, not, ◌&&◌, List, [], ◌∷◌, ◌++◌, Option, none, some, nat_beq,
  ltb, leb, if◌then◌else◌, ◌==◌, is_empty, is_none, is_some, any, contains,
}
use pocket_oid.Base.Int.{ℤ, pos, negsuc}
use pocket_oid.Config.{SigningAlgorithm, rs256, es256, ps256, algorithm_beq, TrustedProviderConfig}
use pocket_oid.Handlers.Pkce.{constant_time_eq}
use pocket_oid.Json.{Value, null, bool, number, string, array, object, Members, end, member}
use pocket_oid.Outside.{Crypto, ParsedUrl}
use pocket_oid.Text.{Text, text_eq, codes, join, trim_end_slash}
use pocket_oid.Text.Bytes.{as_bytes}
use pocket_oid.Upstream.{
  DiscoveredOidcProvider, ValidatedUpstreamIdentity, UpstreamAuthorizationRequest, UpstreamClient,
}

pub record RemoteJwk : Type 0 where
  pub kty : Option Text
  pub key_use : Option Text
  pub alg : Option Text
  pub kid : Option Text
  pub n : Option Text
  pub e : Option Text
  pub crv : Option Text
  pub x : Option Text
  pub y : Option Text
  pub key_ops : Option (List Text)

pub data DecodingKey : Type 0 where
  rsa : Text → Text → DecodingKey
  ec : Text → Text → DecodingKey

-- A token's header: its algorithm, if it is one of the three that the program knows.
pub record Header : Type 0 where
  pub alg : Option SigningAlgorithm
  pub kid : Option Text

-- The crates and the network. Each function answers `none` for an error, among them a status
-- that is no success and a body that is no such JSON.
pub record Network : Type 0 where
  pub crypto : Crypto
  pub parse_url : Text → Option ParsedUrl
  -- `Url::parse`, then `query_pairs_mut` and `append_pair` for each pair.
  pub append_pairs : Text → List (Text × Text) → Option Text
  pub get_discovery : Text → Option DiscoveredOidcProvider
  pub post_token : Text → List (Text × Text) → Option (Option Text)
  pub get_jwks : Text → Option (List RemoteJwk)
  pub decode_header : Text → Option Header
  -- The length of what `URL_SAFE_NO_PAD.decode` makes of a text.
  pub decoded_len : Text → Option ℕ
  pub from_rsa_components : Text → Text → Option DecodingKey
  pub from_ec_components : Text → Text → Option DecodingKey
  -- `jsonwebtoken::decode` with the algorithm, the issuer and the audience that it must have.
  pub decode : Text → DecodingKey → SigningAlgorithm → Text → Text → Option Value

-- `x + skew` of a time in seconds, and `x > y`.
abbrev pub add_seconds : ℤ → ℕ → ℤ
add_seconds (pos a) k = pos (a + k)
add_seconds (negsuc a) k = if leb k a then negsuc (a - k) else pos (k - (a + 1))

abbrev pub is_after : ℤ → ℤ → Bool
is_after (pos a) (pos b) = ltb b a
is_after (pos a) (negsuc b) = true
is_after (negsuc a) (pos b) = false
is_after (negsuc a) (negsuc b) = ltb a b

abbrev pub clock_skew_seconds : ℕ
clock_skew_seconds = 60

-- `Option::filter`, `context` and `bail!`.
abbrev pub guard {ℓ} : {A : Type ℓ} → Bool → Option A → Option A
guard true o = o
guard false o = none

infixl 5 ◌>>=◌
abbrev pub ◌>>=◌ {κ μ} : {T : Type κ} {U : Type μ} → Option T → (T → Option U) → Option U
none >>= next = none
some value >>= next = next value

abbrev pub algorithm_name : SigningAlgorithm → Text
algorithm_name rs256 = codes "RS256"
algorithm_name es256 = codes "ES256"
algorithm_name ps256 = codes "PS256"

abbrev pub is_this : Text → Option Text → Bool
is_this t none = false
is_this t (some u) = u == t

abbrev pub is_this_or_none : Text → Option Text → Bool
is_this_or_none t none = true
is_this_or_none t (some u) = u == t

abbrev pub may_verify : Option (List Text) → Bool
may_verify none = true
may_verify (some ops) = contains ops (codes "verify")

-- The claims of a token.
unfoldable pub find_member : Text → Members → Option Value
find_member key end = none
find_member key (member k value members) =
    let later = find_member key members in if k == key then some value else later

abbrev pub get_claim : Text → Value → Option Value
get_claim key (object members) = find_member key members
get_claim key (array items) = none
get_claim key (string text) = none
get_claim key (number n) = none
get_claim key (bool b) = none
get_claim key null = none

abbrev pub as_str : Value → Option Text
as_str (string text) = some text
as_str (object members) = none
as_str (array items) = none
as_str (number n) = none
as_str (bool b) = none
as_str null = none

abbrev pub as_i64 : Value → Option ℤ
as_i64 (number n) = some n
as_i64 (object members) = none
as_i64 (array items) = none
as_i64 (string text) = none
as_i64 (bool b) = none
as_i64 null = none

-- `keys.into_iter().find(|key| key.kid == Some(kid))`.
unfoldable pub find_key : Text → List RemoteJwk → Option RemoteJwk
find_key kid [] = none
find_key kid (key ∷ keys) =
    let later = find_key kid keys in if is_this kid key.kid then some key else later

abbrev optional_pair : Text → Option Text → List (Text × Text)
optional_pair key none = []
optional_pair key (some value) = (key, value) ∷ []

-- `any` of the provider's algorithms.
abbrev pub is_allowed : SigningAlgorithm → List SigningAlgorithm → Bool
is_allowed alg allowed = any (λ a. algorithm_beq a alg) allowed

module _ (net : Network) where
  abbrev pub is_coordinate : Text → Bool
  is_coordinate c = elim (net.decoded_len c) [ none ↦ false | some n ↦ nat_beq n 32 ]

  -- For the algorithm's kind of key.
  unfoldable pub key_of : RemoteJwk → SigningAlgorithm → Option DecodingKey
  key_of jwk es256 = guard (is_this (codes "EC") jwk.kty && is_this (codes "P-256") jwk.crv) (do
    x ← jwk.x
    y ← jwk.y
    guard (is_coordinate x && is_coordinate y) (net.from_ec_components x y))
  key_of jwk rs256 =
      guard (is_this (codes "RSA") jwk.kty)
        (do modulus ← jwk.n; exponent ← jwk.e; net.from_rsa_components modulus exponent)
  key_of jwk ps256 =
      guard (is_this (codes "RSA") jwk.kty)
        (do modulus ← jwk.n; exponent ← jwk.e; net.from_rsa_components modulus exponent)

  unfoldable pub decoding_key : RemoteJwk → SigningAlgorithm → Option DecodingKey
  decoding_key jwk algorithm = guard (is_this_or_none (codes "sig") jwk.key_use) (
      guard (is_this_or_none (algorithm_name algorithm) jwk.alg)
        (guard (may_verify jwk.key_ops) (key_of jwk algorithm)))

  unfoldable pub validate_endpoint : Text → Bool
  validate_endpoint value = elim (net.parse_url value) [
    | none ↦ false
    | some url ↦ is_some url.host && is_none url.fragment
  ]

  unfoldable pub discovery_url : Text → Option Text
  discovery_url issuer =
      guard (validate_endpoint issuer)
        (some (trim_end_slash issuer ++ codes "/.well-known/openid-configuration"))

  unfoldable pub discover : TrustedProviderConfig → Option DiscoveredOidcProvider
  discover provider = do
    url ← discovery_url provider.issuer
    document ← net.get_discovery url
    guard (document.issuer == provider.issuer) (
        guard (validate_endpoint document.authorization_endpoint) (
          guard (validate_endpoint document.token_endpoint)
            (guard (validate_endpoint document.jwks_uri) (some document))))

  abbrev pkce_challenge : Text → Text
  pkce_challenge verifier = net.crypto.base64url (net.crypto.digest (as_bytes verifier))

  abbrev challenge_pairs : Option Text → List (Text × Text)
  challenge_pairs none = []
  challenge_pairs (some verifier) =
      (codes "code_challenge", pkce_challenge verifier)
      ∷ (codes "code_challenge_method", codes "S256")
      ∷ []

  abbrev prompt_pairs : Bool → List (Text × Text)
  prompt_pairs true = (codes "prompt", codes "login") ∷ []
  prompt_pairs false = []

  unfoldable pub build_authorization_url : UpstreamAuthorizationRequest → Option Text
  build_authorization_url request = net.append_pairs request.metadata.authorization_endpoint (
      (codes "response_type", codes "code")
      ∷ (codes "client_id", request.provider.client_id)
      ∷ (codes "redirect_uri", request.provider.redirect_uri)
      ∷ (codes "scope", join (b' ' ∷ []) request.upstream_scopes)
      ∷ (codes "state", request.state)
      ∷ (codes "nonce", request.nonce)
      ∷ (challenge_pairs request.pkce_verifier ++ prompt_pairs request.prompt_login))

  unfoldable pub exchange_code :
      TrustedProviderConfig → DiscoveredOidcProvider → Text → Option Text → Option Text
  exchange_code provider metadata code pkce_verifier = do
    id_token ← net.post_token metadata.token_endpoint (
        (codes "grant_type", codes "authorization_code")
        ∷ (codes "code", code)
        ∷ (codes "redirect_uri", provider.redirect_uri)
        ∷ (codes "client_id", provider.client_id)
        ∷ (codes "client_secret", provider.client_secret)
        ∷ optional_pair (codes "code_verifier") pkce_verifier)
    token ← id_token
    guard (not (is_empty token)) (some token)

  -- The checks that the program makes itself once the token is decoded.
  unfoldable pub check_claims : ℤ → Text → Text → Value → Option ValidatedUpstreamIdentity
  check_claims now issuer expected_nonce claims = do
    iat ← get_claim (codes "iat") claims
    issued_at ← as_i64 iat
    guard (not (is_after issued_at (add_seconds now clock_skew_seconds))) (do
      nonce_claim ← get_claim (codes "nonce") claims
      nonce ← as_str nonce_claim
      guard (constant_time_eq net.crypto nonce expected_nonce) (do
        sub ← get_claim (codes "sub") claims
        subject ← as_str sub
        guard (not (is_empty subject)) (some (record { subject = subject; issuer = issuer }))))

  unfoldable pub validate_id_token :
      ℤ
      → DiscoveredOidcProvider
      → TrustedProviderConfig
      → Text
      → Text
      → Option ValidatedUpstreamIdentity
  validate_id_token now metadata provider id_token expected_nonce = do
    header ← net.decode_header id_token
    alg ← header.alg
    guard (is_allowed alg provider.allowed_signing_algorithms) (do
      kid ← header.kid
      keys ← net.get_jwks metadata.jwks_uri
      jwk ← find_key kid keys
      key ← decoding_key jwk alg
      claims ← net.decode id_token key alg metadata.issuer provider.client_id
      check_claims now metadata.issuer expected_nonce claims)

-- The client as the endpoints use it.
abbrev pub upstream_client : Network → ℤ → UpstreamClient
upstream_client net now = record {
  discover = discover net;
  build_authorization_url = build_authorization_url net;
  exchange_code = exchange_code net;
  validate_id_token = validate_id_token net now;
}
