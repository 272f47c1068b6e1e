-- ===== src/Handlers/Authorize.antt =====
-- src/handlers.rs: `authorize`, `begin_reauth`, `login` and `consent`. The times and the random
-- identifiers that a handler draws are its arguments, in the order in which it draws them.
pub mod Issuing
pub mod Redirects
use pocket_oid.Base.{
  ℕ, ◌≡◌, ◌++◌, Bool, true, false, List, [], ◌∷◌, Option, none, some, if◌then◌else◌, ◌==◌,
}
use pocket_oid.Base.Int.{pos}
use pocket_oid.AuthStore.{
  AuthContext, AuthStore, Session, NewPendingReauthTransaction, get_session, create_session,
  create_pending_reauth,
}
use pocket_oid.Config.{
  Client, ClientAuthMode, ConsentMode, ReAuthClientConfig, TrustedProviderConfig,
}
use pocket_oid.Handlers.Issue.{downstream_of, issue_authorization_code_redirect}
use pocket_oid.Handlers.Messages.{
  server_error, temporarily_unavailable, access_denied, invalid_credentials,
}
use pocket_oid.Handlers.State.{AppState}
use pocket_oid.Handlers.Validation.{Validated, valid, refused, validate_authorize_request}
use pocket_oid.HashMap.{HashMap, get}
use pocket_oid.Http.{
  Page, login_page, consent_page, Response, redirect_to, page, status_only,
  authorization_error_redirect, into_response, internal,
}
use pocket_oid.Outside.{Chrono}
use pocket_oid.Template.{text_or_empty}
use pocket_oid.Text.{Text, text_eq, codes, split, split_once, trim}
use pocket_oid.Upstream.{DiscoveredOidcProvider, UpstreamClient, UpstreamAuthorizationRequest}
use pocket_oid.Uri.{
  AuthorizeRequest, build_authorize_return, parse_authorize_return, requests_fresh_authentication,
  authorize_return_after_login,
}
use pocket_oid.Users.{User, PasswordCredential, authenticate_blocking}

-- What a request draws: `Utc::now()` at each use of the store, and fresh identifiers.
pub record Draws : Type 0 where
  pub now : ℕ
  pub later : ℕ
  pub uuid : Text

-- The three texts of `begin_reauth`; the verifier is drawn only if the provider requires it.
pub record Tokens : Type 0 where
  pub upstream_state : Text
  pub upstream_nonce : Text
  pub verifier : Text

unfoldable pub find_session_id : List Text → Option Text
find_session_id [] = none
find_session_id (entry ∷ entries) =
    let rest = find_session_id entries in
    elim (split_once b'=' (trim entry)) [
      | none ↦ rest
      | some (key, value) ↦ if trim key == codes "session_id" then some (trim value) else rest
    ]

-- Of the `Cookie` header, if there is one that is text.
unfoldable pub extract_session_id : Option Text → Option Text
extract_session_id none = none
extract_session_id (some cookies) = find_session_id (split b';' cookies)

abbrev pub find_session : ℕ → Option Text → AuthStore → AuthStore × Option Session
find_session now none store = (store, none)
find_session now (some session_id) store = get_session now session_id store

abbrev pub unless_fresh : Option Text → Option Session → Option Session
unless_fresh prompt none = none
unless_fresh prompt (some session) =
    if requests_fresh_authentication prompt then none else some session

abbrev pub then_some : Bool → Text → Option Text
then_some true t = some t
then_some false t = none

abbrev pub upstream_request :
    Tokens
    → AuthorizeRequest
    → ReAuthClientConfig
    → TrustedProviderConfig
    → DiscoveredOidcProvider
    → UpstreamAuthorizationRequest
upstream_request tokens request re_auth provider metadata = record {
  provider = provider;
  metadata = metadata;
  upstream_scopes = re_auth.upstream_scopes;
  state = tokens.upstream_state;
  nonce = tokens.upstream_nonce;
  pkce_verifier = then_some provider.require_pkce tokens.verifier;
  prompt_login = requests_fresh_authentication request.prompt;
}

abbrev pub new_pending :
    Tokens
    → AuthorizeRequest
    → Option Text
    → ReAuthClientConfig
    → TrustedProviderConfig
    → DiscoveredOidcProvider
    → NewPendingReauthTransaction
new_pending tokens request scope re_auth provider metadata = record {
  downstream = downstream_of request scope;
  provider_id = provider.provider_id;
  consent = re_auth.consent;
  upstream_state = tokens.upstream_state;
  upstream_nonce = tokens.upstream_nonce;
  pkce_verifier = then_some provider.require_pkce tokens.verifier;
  provider_metadata = metadata;
}

abbrev pub started : AuthorizeRequest → Text → Option (Unit {0}) → Response
started request url none =
    authorization_error_redirect request.redirect_uri server_error request.state
started request url (some _) = redirect_to url

module _ (chrono : Chrono) (upstream : UpstreamClient) where
  -- From the found provider on.
  unfoldable pub start_reauth :
      ℕ
      → Tokens
      → AuthorizeRequest
      → Option Text
      → ReAuthClientConfig
      → TrustedProviderConfig
      → AuthStore
      → AuthStore × Response
  start_reauth now tokens request scope re_auth provider store = elim (upstream.discover provider) [
    | none ↦ (
      store,
      authorization_error_redirect request.redirect_uri temporarily_unavailable request.state,
    )
    | some metadata ↦
        elim (upstream.build_authorization_url
          (upstream_request tokens request re_auth provider metadata)) [
            | none ↦ (
              store,
              authorization_error_redirect request.redirect_uri server_error request.state,
            )
            | some url ↦
                let (after, made) =
                  create_pending_reauth chrono now
                    (new_pending tokens request scope re_auth provider metadata) (pos 300) store in
                (after, started request url made)
          ]
  ]

module _ (chrono : Chrono) (upstream : UpstreamClient) (state : AppState) where
  unfoldable pub begin_reauth :
      ℕ → Tokens → AuthorizeRequest → Client → Option Text → AuthStore → AuthStore × Response
  begin_reauth now tokens request client scope store = elim client.re_auth [
    | none ↦ (store, authorization_error_redirect request.redirect_uri server_error request.state)
    | some re_auth ↦ elim (get re_auth.provider_id state.trusted_providers) [
      | none ↦ (store, authorization_error_redirect request.redirect_uri server_error request.state)
      | some provider ↦ start_reauth chrono upstream now tokens request scope re_auth provider store
    ]
  ]

module _ (chrono : Chrono) (state : AppState) where
  -- For a client that authenticates here.
  unfoldable pub authorize_local :
      Draws
      → Option Text
      → AuthorizeRequest
      → Client
      → Option Text
      → AuthStore
      → AuthStore × Response
  authorize_local draws cookie request client scope store =
      let (after, session) = find_session draws.now (extract_session_id cookie) store in
      let return_to = build_authorize_return request in
      elim (unless_fresh request.prompt session) [
        | none ↦
            let login =
              login_page state.provider.name return_to none state.provider.login_background_color in
            (after, page login)
        | some found ↦ elim client.consent_mode [
          | ConsentMode.always ↦ (
            after,
            page (consent_page return_to request.client_id (text_or_empty scope) found.username),
          )
          | ConsentMode.skip ↦
              issue_authorization_code_redirect chrono draws.later draws.uuid request found.user_id
                scope AuthContext.local after
        ]
      ]

  abbrev cookie_text : Text → Text
  cookie_text session_id =
      codes "session_id=" ++ (session_id ++ codes "; HttpOnly; SameSite=Lax; Path=/; Max-Age=3600")

  -- `HeaderValue::from_str` decides if the cookie is set.
  abbrev logged_in : (Text → Bool) → Text → Session → Response
  logged_in is_header_value return_to session =
      record (redirect_to (authorize_return_after_login return_to)) {
        set_cookie =
            then_some (is_header_value (cookie_text session.session_id))
              (cookie_text session.session_id);
      }

  unfoldable pub login :
      (Text → Bool)
      → (PasswordCredential → Text → Bool)
      → Draws
      → Text
      → Text
      → Text
      → AuthStore
      → AuthStore × Response
  login is_header_value verify_password draws username password return_to store =
      elim (authenticate_blocking verify_password state.users username password) [
        | none ↦ (store, into_response internal)
        | some none ↦
            let refusal =
              login_page state.provider.name return_to (some invalid_credentials)
                state.provider.login_background_color in
            (store, page refusal)
        | some (some user) ↦
            let (after, session) =
              create_session chrono draws.now draws.uuid user.id user.username (pos 3600) store in
            elim session [
              | none ↦ (after, status_only 500)
              | some session ↦ (after, logged_in is_header_value return_to session)
            ]
      ]

  -- For the session that the form's sender has.
  unfoldable pub decide : Draws → Text → Text → Session → AuthStore → AuthStore × Response
  decide draws decision return_to session store =
      let request = parse_authorize_return return_to in
      elim (validate_authorize_request state request) [
        | refused response ↦ (store, response)
        | valid client scope ↦
            if decision == codes "approve"
            then issue_authorization_code_redirect chrono draws.later draws.uuid request
                session.user_id scope AuthContext.local store
            else (
              store,
              authorization_error_redirect request.redirect_uri access_denied request.state,
            )
      ]

  unfoldable pub consent : Draws → Option Text → Text → Text → AuthStore → AuthStore × Response
  consent draws cookie decision return_to store =
      let (after, session) = find_session draws.now (extract_session_id cookie) store in
      elim session [
        | none ↦ (after, redirect_to (codes "/authorize"))
        | some session ↦ decide draws decision return_to session after
      ]

module _ (chrono : Chrono) (upstream : UpstreamClient) (state : AppState) where
  unfoldable pub authorize :
      Draws → Tokens → Option Text → AuthorizeRequest → AuthStore → AuthStore × Response
  authorize draws tokens cookie request store = elim (validate_authorize_request state request) [
    | refused response ↦ (store, response)
    | valid client scope ↦ elim client.auth_mode [
      | ClientAuthMode.re_auth ↦
          begin_reauth chrono upstream state draws.now tokens request client scope store
      | ClientAuthMode.local ↦ authorize_local chrono state draws cookie request client scope store
    ]
  ]
