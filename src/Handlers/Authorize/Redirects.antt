-- ===== src/Handlers/Authorize/Redirects.antt =====
-- src/handlers.rs: where `authorize` sends the browser.
use pocket_oid.Base.{
  ℕ, ◌≡◌, refl, inl, inr, Bool, true, false, is_some, [], ◌∷◌, ◌++◌, Option, none, some, arith,
  Option-cases, contains,
}
use pocket_oid.Base.Int.{pos}
use pocket_oid.AuthStore.{AuthContext, AuthStore, create_pending_reauth, issue_authorization_code}
use pocket_oid.Config.{Client, ReAuthClientConfig, TrustedProviderConfig}
use pocket_oid.Handlers.Authorize.{
  Draws, Tokens, extract_session_id, find_session, unless_fresh, then_some, upstream_request,
  new_pending, start_reauth, begin_reauth, authorize_local, authorize,
}
use pocket_oid.Handlers.Authorize.Issuing.{Validated-cases, auth_mode-cases, consent_mode-cases}
use pocket_oid.Handlers.Issue.{
  downstream_of, new_code, issue_authorization_code_redirect,
  issue_authorization_code_redirect_for_downstream,
}
use pocket_oid.Handlers.State.{AppState}
use pocket_oid.Handlers.Validation.{
  validate_authorize_request, validate_authorize_request_iff, refused-IsRegisteredRedirect,
}
use pocket_oid.HashMap.{get}
use pocket_oid.Http.{Response, authorization_error_redirect, state_param}
use pocket_oid.Outside.{Chrono}
use pocket_oid.Text.{Text, text_eq, codes, join}
use pocket_oid.Upstream.{UpstreamClient, UpstreamAuthorizationRequest}
use pocket_oid.Uri.{AuthorizeRequest, param}

-- The client of the request is registered, and the redirect address is one of the client's.
pub record HasOwnUri (state : AppState) (request : AuthorizeRequest) : Type 0 where
  pub client : Client
  pub registered : get request.client_id state.clients ≡ some client
  pub own_uri : contains client.redirect_uris request.redirect_uri ≡ true

-- The request is for the provider of a registered client: with the metadata that the provider
-- publishes, the scopes of the client, the drawn texts, and a verifier exactly if the provider
-- requires one.
pub record IsOwnProvider (upstream : UpstreamClient) (state : AppState) (tokens : Tokens)
    (request : AuthorizeRequest) (asked : UpstreamAuthorizationRequest) : Type 0 where
  pub client : Client
  pub re_auth : ReAuthClientConfig
  pub registered : get request.client_id state.clients ≡ some client
  pub re_authenticates : client.re_auth ≡ some re_auth
  pub trusted : get re_auth.provider_id state.trusted_providers ≡ some asked.provider
  pub discovered : upstream.discover asked.provider ≡ some asked.metadata
  pub scopes : asked.upstream_scopes ≡ re_auth.upstream_scopes
  pub drawn_state : asked.state ≡ tokens.upstream_state
  pub drawn_nonce : asked.nonce ≡ tokens.upstream_nonce
  pub verifies : is_some asked.pkce_verifier ≡ asked.provider.require_pkce

-- A response stays here, or goes to the client's own address with parameters, or to the address
-- that the upstream client builds for the client's provider.
pub data IsSafe (upstream : UpstreamClient) (state : AppState) (tokens : Tokens)
    (request : AuthorizeRequest) (response : Response) : Type 0 where
  stays : response.location ≡ none → IsSafe upstream state tokens request response
  to_client :
      HasOwnUri state request
      → (params : Text) → response.location ≡ some (request.redirect_uri ++ (b'?' ∷ params))
      → IsSafe upstream state tokens request response
  to_provider :
      (asked : UpstreamAuthorizationRequest) (url : Text)
      → IsOwnProvider upstream state tokens request asked
      → upstream.build_authorization_url asked ≡ some url
      → response.location ≡ some url
      → IsSafe upstream state tokens request response

then_some-is_some : (b : Bool) (t : Text) → is_some (then_some b t) ≡ b
then_some-is_some true t = refl
then_some-is_some false t = refl

module _ (chrono : Chrono) (upstream : UpstreamClient) (state : AppState) (tokens : Tokens)
    (request : AuthorizeRequest) where
  error-IsSafe :
      (error : Text)
      → HasOwnUri state request
      → IsSafe upstream state tokens request
          (authorization_error_redirect request.redirect_uri error request.state)
  unfolding authorization_error_redirect
  error-IsSafe error own =
      to_client own (join (b'&' ∷ []) (param (codes "error") error ∷ state_param request.state))
        refl

  code-IsSafe :
      (now : ℕ) (uuid user_id : Text) (scope : Option Text) (auth_context : AuthContext)
      (store : AuthStore)
      → HasOwnUri state request
      → IsSafe upstream state tokens request
          (issue_authorization_code_redirect chrono now uuid request user_id scope auth_context
            store).1
  unfolding issue_authorization_code_redirect issue_authorization_code_redirect_for_downstream
  code-IsSafe now uuid user_id scope auth_context store own =
      elim (Option-cases
        (issue_authorization_code chrono now uuid
          (new_code (downstream_of request scope) user_id auth_context) (pos 120) store).1) [
            | inl e ↦ stays (ground (arith, e))
            | inr (code, e) ↦
                to_client own
                  (join (b'&' ∷ []) (param (codes "code") code ∷ state_param request.state))
                  (ground (arith, e))
          ]

  start_cases :
      (now : ℕ) (client : Client) (scope : Option Text) (re_auth : ReAuthClientConfig)
      (provider : TrustedProviderConfig) (store : AuthStore)
      → HasOwnUri state request
      → get request.client_id state.clients ≡ some client
      → client.re_auth ≡ some re_auth
      → get re_auth.provider_id state.trusted_providers ≡ some provider
      → IsSafe upstream state tokens request
          (start_reauth chrono upstream now tokens request scope re_auth provider store).1
  unfolding start_reauth
  start_cases now client scope re_auth provider store own registered re_authenticates trusted =
      elim (Option-cases (upstream.discover provider)) [
        | inl e ↦ rw (e, start_reauth) (error-IsSafe _ own)
        | inr (metadata, e) ↦
            elim (Option-cases (
              upstream.build_authorization_url
                (upstream_request tokens request re_auth provider metadata))) [
                  | inl f ↦ rw (e, start_reauth, f) (error-IsSafe _ own)
                  | inr (url, f) ↦
                      elim (Option-cases
                        (create_pending_reauth chrono now
                          (new_pending tokens request scope re_auth provider metadata) (pos 300)
                          store).1) [
                            | inl g ↦ rw (e, start_reauth, f, g) (error-IsSafe _ own)
                            | inr (made, g) ↦
                                rw (e, start_reauth, f, g)
                                  (to_provider
                                    (upstream_request tokens request re_auth provider metadata) url
                                    (record {
                                      client = client;
                                      re_auth = re_auth;
                                      registered = registered;
                                      re_authenticates = re_authenticates;
                                      trusted = trusted;
                                      discovered = e;
                                      scopes = refl;
                                      drawn_state = refl;
                                      drawn_nonce = refl;
                                      verifies =
                                          then_some-is_some provider.require_pkce tokens.verifier;
                                    })
                                    f refl)
                          ]
                ]
      ]

  begin_reauth-IsSafe :
      (now : ℕ) (client : Client) (scope : Option Text) (store : AuthStore)
      → HasOwnUri state request
      → get request.client_id state.clients ≡ some client
      → IsSafe upstream state tokens request
          (begin_reauth chrono upstream state now tokens request client scope store).1
  unfolding begin_reauth
  begin_reauth-IsSafe now client scope store own registered = elim (Option-cases client.re_auth) [
    | inl e ↦ rw (e, begin_reauth) (error-IsSafe _ own)
    | inr (re_auth, e) ↦ elim (Option-cases (get re_auth.provider_id state.trusted_providers)) [
      | inl f ↦ rw (e, f, begin_reauth) (error-IsSafe _ own)
      | inr (provider, f) ↦
          rw (e, f, begin_reauth)
            (start_cases now client scope re_auth provider store own registered e f)
    ]
  ]

  local-IsSafe :
      (draws : Draws) (cookie : Option Text) (client : Client) (scope : Option Text)
      (store : AuthStore)
      → HasOwnUri state request
      → IsSafe upstream state tokens request
          (authorize_local chrono state draws cookie request client scope store).1
  unfolding authorize_local
  local-IsSafe draws cookie client scope store own =
      elim (Option-cases (
        unless_fresh request.prompt (find_session draws.now (extract_session_id cookie) store).1)) [
          | inl e ↦ rw (e, authorize_local) (stays refl)
          | inr (session, e) ↦ elim (consent_mode-cases client.consent_mode) [
            | inr f ↦ rw (e, f, authorize_local) (stays refl)
            | inl f ↦
                rw (e, f, authorize_local)
                  (code-IsSafe draws.later draws.uuid session.user_id scope AuthContext.local _ own)
          ]
        ]

  -- `authorize` is no open redirector: whatever the request, its answer stays here, goes to an
  -- address that is registered for the request's client, or to the address that the upstream client
  -- builds for the trusted provider of that client, from the metadata discovered for that provider,
  -- the client's scopes and the drawn state and nonce, with a verifier exactly if the provider
  -- requires one.
  pub authorize-IsSafe :
      (draws : Draws) (cookie : Option Text) (store : AuthStore)
      → IsSafe upstream state tokens request
          (authorize chrono upstream state draws tokens cookie request store).1
  unfolding authorize
  authorize-IsSafe draws cookie store =
      elim (Validated-cases (validate_authorize_request state request)) [
        | inl (response, e) ↦ elim (Option-cases response.location) [
          | inl f ↦ rw (e, authorize) (stays f)
          | inr (uri, f) ↦
              let r = refused-IsRegisteredRedirect state request response uri e f in
              rw (e, authorize, r.carries)
                (error-IsSafe r.error
                  (record { client = r.client; registered = r.registered; own_uri = r.own_uri }))
        ]
        | inr (client, scope, e) ↦
            let v = (validate_authorize_request_iff state request client scope).0 e in
            let own : HasOwnUri state request = record {
              client = client;
              registered = v.registered;
              own_uri = v.own_uri;
            } in
            elim (auth_mode-cases client.auth_mode) [
              | inr f ↦
                  rw (e, authorize, f)
                    (begin_reauth-IsSafe draws.now client scope store own v.registered)
              | inl f ↦ rw (e, authorize, f) (local-IsSafe draws cookie client scope store own)
            ]
      ]
