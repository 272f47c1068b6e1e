-- ===== src/Handlers/Token.antt =====
-- src/handlers.rs: `token_endpoint` and what it calls to issue the tokens.
pub mod Redemption
pub mod Exchange
pub mod Chains
pub mod Issuing
use pocket_oid.Base.{
  ℕ, ◌≡◌, ◌++◌, Bool, true, false, List, [], ◌∷◌, Option, none, some, if◌then◌else◌, ◌==◌, nat_beq,
  nat_eq,
}
use pocket_oid.Base.Int.{ℤ, as_i64}
use pocket_oid.AuthStore.{AuthStore, AuthorizationCodeRecord, consume_authorization_code}
use pocket_oid.Config.{Client, SigningAlgorithm}
use pocket_oid.Handlers.Messages.{
  client_id_required, client_secret_required, code_required, redirect_uri_required, code_invalid,
  code_client_mismatch, redirect_uri_mismatch,
}
use pocket_oid.Handlers.Pkce.{authenticate_client, verify_pkce}
use pocket_oid.Handlers.Scopes.{validate_scopes, scope_includes_openid}
use pocket_oid.Handlers.State.{AppState, KeyMaterial, key_for}
use pocket_oid.Http.{
  ApiError, invalid_grant, invalid_request, unsupported_grant_type, internal, ApiResult, ok, err,
  panic, diverge, ◌>>=◌, ◌>>◌, required,
}
use pocket_oid.Json.{Value, string, number, object, Members, end, member}
use pocket_oid.Outside.{Crypto, Chrono}
use pocket_oid.Template.{TokenContext, Rendered, render}
use pocket_oid.Text.{Text, text_eq, codes}

pub record TokenRequest : Type 0 where
  pub grant_type : Text
  pub client_id : Option Text
  pub client_secret : Option Text
  pub scope : Option Text
  pub code : Option Text
  pub redirect_uri : Option Text
  pub code_verifier : Option Text

pub record TokenResponse : Type 0 where
  pub access_token : Text
  pub token_type : Text
  pub expires_in : ℕ
  pub id_token : Option Text
  pub scope : Option Text

-- What a token request draws: the time of the code's use, that of the issue, and a fresh `jti`.
pub record TokenDraws : Type 0 where
  pub now : ℕ
  pub issued_at : ℕ
  pub uuid : Text

-- The crates that the endpoint calls. `encode` is `jsonwebtoken::encode`; `print_number` is the
-- decimal notation of a number.
pub record Crates : Type 0 where
  pub crypto : Crypto
  pub chrono : Chrono
  pub encode : KeyMaterial → Value → Option Text
  pub print_number : ℤ → Text

-- `unwrap_or`.
abbrev pub unwrap_or {ℓ} : {A : Type ℓ} → Option A → A → A
unwrap_or none a = a
unwrap_or (some b) a = b

-- An optional member of a serialized record: it is left out if it is `None`.
abbrev pub optional_member : Text → Option Text → Members
optional_member key none = end
optional_member key (some value) = member key (string value) end

-- `map_err`: a template error is an internal one.
abbrev pub from_rendered : Rendered Value → ApiResult Value
from_rendered (Rendered.ok claims) = ok claims
from_rendered (Rendered.err e) = err internal
from_rendered Rendered.running = diverge

module _ (crates : Crates) (fuel : ℕ) (state : AppState) where
  unfoldable pub sign_token : Client → Value → ApiResult Text
  sign_token client claims = do
    key ←
        required
          (key_for (unwrap_or client.signing_algorithm state.provider.signing_algorithm)
            state.signing_keys)
          internal
    required (crates.encode key claims) internal

  abbrev id_token_claims : Client → Text → Option Text → ℕ → ℕ → Value
  id_token_claims client subject nonce issued_at expires_at = object (
      member (codes "iss") (string state.provider.issuer) (
        member (codes "sub") (string subject) (
          member (codes "aud") (string client.client_id) (
            member (codes "iat") (number (crates.chrono.timestamp issued_at)) (
              member (codes "exp") (number (crates.chrono.timestamp expires_at))
                (optional_member (codes "nonce") nonce))))))

  unfoldable pub build_id_token : Client → Text → Option Text → ℕ → ℕ → ApiResult Text
  build_id_token client subject nonce issued_at expires_at =
      sign_token client (id_token_claims client subject nonce issued_at expires_at)

  -- `if include_id_token`.
  abbrev maybe_id_token : Bool → Client → Text → Option Text → ℕ → ℕ → ApiResult (Option Text)
  maybe_id_token true client subject given issued_at expires_at = do
    id_token ← build_id_token client subject given issued_at expires_at
    ok (some id_token)
  maybe_id_token false client subject given issued_at expires_at = ok none

  -- `issued_at.checked_add_signed(Duration::seconds(ttl as i64))`.
  abbrev add_ttl : ℕ → ℕ → ApiResult ℕ
  add_ttl issued_at ttl =
      if crates.chrono.in_range (as_i64 ttl)
      then required (crates.chrono.checked_add issued_at (as_i64 ttl)) internal
      else panic

  abbrev context_of : TokenDraws → Client → Option Text → Text → ℕ → TokenContext
  context_of draws client scope_text subject expires_at = record {
    client = client;
    scope = scope_text;
    subject = subject;
    issued_at = crates.chrono.timestamp draws.issued_at;
    expires_at = crates.chrono.timestamp expires_at;
    audience = client.audience;
    uuid = draws.uuid;
  }

  abbrev positive : ℕ → ApiResult (Unit {0})
  positive ttl = if nat_beq ttl 0 then err internal else ok tt

  unfoldable pub issue_token :
      TokenDraws → Client → Option Text → Text → Option Text → Bool → ApiResult TokenResponse
  issue_token draws client scope_text subject nonce include_id_token =
      let ttl = unwrap_or client.token_ttl_seconds state.provider.token_ttl_seconds in
      do
        positive ttl
        expires_at ← add_ttl draws.issued_at ttl
        claims ← from_rendered (
            render crates.print_number fuel state.token_template
              (context_of draws client scope_text subject expires_at))
        access_token ← sign_token client claims
        id_token ← maybe_id_token include_id_token client subject nonce draws.issued_at expires_at
        ok (record {
          access_token = access_token;
          token_type = codes "Bearer";
          expires_in = ttl;
          id_token = id_token;
          scope = scope_text;
        })

  abbrev demand : Bool → ApiError → ApiResult (Unit {0})
  demand b e = if b then ok tt else err e

  -- What follows the redemption of a code: `none` if there was no such code.
  unfoldable pub redeem :
      TokenDraws
      → TokenRequest
      → Client
      → Text
      → Option AuthorizationCodeRecord
      → ApiResult TokenResponse
  redeem draws request client redirect_uri taken = do
    record_ ← required taken (invalid_grant code_invalid)
    demand (record_.client_id == client.client_id) (invalid_grant code_client_mismatch)
    demand (record_.redirect_uri == redirect_uri) (invalid_grant redirect_uri_mismatch)
    verify_pkce crates.crypto client record_.code_challenge record_.code_challenge_method
        request.code_verifier
    issue_token draws client record_.scope record_.user_id record_.nonce
        (scope_includes_openid record_.scope)

  unfoldable pub client_credentials : TokenDraws → TokenRequest → Client → ApiResult TokenResponse
  client_credentials draws request client = do
    scope_text ← validate_scopes request.scope client
    issue_token draws client scope_text client.client_id none false

  -- The two parameters that must be there before the code is used.
  unfoldable pub authorization_code :
      TokenDraws → TokenRequest → Client → AuthStore → AuthStore × ApiResult TokenResponse
  authorization_code draws request client store = elim request.code [
    | none ↦ (store, err (invalid_request code_required))
    | some code ↦ elim request.redirect_uri [
      | none ↦ (store, err (invalid_request redirect_uri_required))
      | some redirect_uri ↦
          let (after, taken) = consume_authorization_code draws.now code store in
          (after, redeem draws request client redirect_uri taken)
    ]
  ]

  unfoldable pub dispatch :
      TokenDraws → TokenRequest → Client → AuthStore → AuthStore × ApiResult TokenResponse
  dispatch draws request client store =
      if request.grant_type == codes "client_credentials"
      then (store, client_credentials draws request client)
      else if request.grant_type == codes "authorization_code"
      then authorization_code draws request client store
      else (store, err unsupported_grant_type)

  -- The client that the request authenticates as.
  unfoldable pub requesting_client : TokenRequest → ApiResult Client
  requesting_client request = do
    client_id ← required request.client_id (invalid_request client_id_required)
    client_secret ← required request.client_secret (invalid_request client_secret_required)
    authenticate_client crates.crypto state.clients client_id client_secret

  unfoldable pub token_endpoint :
      TokenDraws → TokenRequest → AuthStore → AuthStore × ApiResult TokenResponse
  token_endpoint draws request store = elim (requesting_client request) [
    | ok client ↦ dispatch draws request client store
    | err e ↦ (store, err e)
    | panic ↦ (store, panic)
    | diverge ↦ (store, diverge)
  ]
