-- ===== src/Handlers/Token/Exchange.antt =====
-- src/handlers.rs: from the redirect with a code to the answer of the token endpoint.
use pocket_oid.Base.{ℕ, ◌+◌, ◌*◌, ◌<◌, ◌≡◌, ◌≢◌, refl, sym, List, some, arith, All}
use pocket_oid.Base.Int.{pos}
use pocket_oid.AuthStore.{
  AuthContext, AuthStore, DownstreamAuthorizationRequest, code_record, consume_authorization_code,
  issue_authorization_code,
}
use pocket_oid.AuthStore.Calls.{Call, Spares}
use pocket_oid.AuthStore.Invariant.{IsWellFormed}
use pocket_oid.AuthStore.Runs.{run, issue-consume}
use pocket_oid.Config.{Client}
use pocket_oid.Handlers.Issue.{
  new_code, code_redirect, issue_authorization_code_redirect_for_downstream,
}
use pocket_oid.Handlers.Pkce.{
  constant_time_eq_iff, authenticate_client, authenticate_client_iff, verify_pkce_iff, IsProved,
}
use pocket_oid.Handlers.Scopes.{scope_includes_openid}
use pocket_oid.Handlers.State.{AppState}
use pocket_oid.Handlers.Token.{
  TokenRequest, TokenDraws, Crates, issue_token, redeem, authorization_code, requesting_client,
  token_endpoint,
}
use pocket_oid.Handlers.Token.Redemption.{dispatch_code}
use pocket_oid.HashMap.{get}
use pocket_oid.Http.{invalid_client, ok, err}
use pocket_oid.Outside.{Chrono, nanos}
use pocket_oid.Text.{Text, text_eq, text_beq_iff, codes}

-- The time for which a code lives: 120 seconds.
abbrev pub code_expiry : ℕ → ℕ
code_expiry now = now + 120 * nanos

issued_code :
    (chrono : Chrono) (now : ℕ) (uuid : Text) (downstream : DownstreamAuthorizationRequest)
    (user_id : Text) (auth_context : AuthContext) (store : AuthStore)
    → (issue_authorization_code_redirect_for_downstream chrono now uuid downstream user_id
        auth_context store).1
      ≡ code_redirect downstream uuid
    → (issue_authorization_code chrono now uuid
        (new_code downstream user_id auth_context)
        (pos 120)
        store).1
      ≡ some uuid
unfolding issue_authorization_code_redirect_for_downstream issue_authorization_code
issued_code chrono now uuid downstream user_id auth_context store h = ground arith

module _ (crates : Crates) (fuel : ℕ) (state : AppState) where
  -- A request for the tokens of a code: it has the client's own credentials, the code, and the
  -- redirect address and the proof that go with the code's request.
  pub record IsExchange (request : TokenRequest) (client : Client) (code : Text)
      (downstream : DownstreamAuthorizationRequest) : Type 0 where
    pub grant : request.grant_type ≡ codes "authorization_code"
    pub identified : request.client_id ≡ some downstream.client_id
    pub authenticated : request.client_secret ≡ some client.client_secret
    pub registered : get downstream.client_id state.clients ≡ some client
    pub own_id : client.client_id ≡ downstream.client_id
    pub presented : request.code ≡ some code
    pub redirected : request.redirect_uri ≡ some downstream.redirect_uri
    pub proved :
        IsProved crates.crypto client downstream.code_challenge downstream.code_challenge_method
          request.code_verifier

  module _ (draws : TokenDraws) (request : TokenRequest) (client : Client) (code : Text)
      (downstream : DownstreamAuthorizationRequest) where
    requesting :
        IsExchange request client code downstream
        → requesting_client crates fuel state request ≡ ok client
    unfolding requesting_client
    requesting x =
        rw (x.identified, x.authenticated, requesting_client)
          ((authenticate_client_iff crates.crypto state.clients downstream.client_id
              client.client_secret client).1
            (x.registered, refl))

    redeemed :
        (user_id : Text) (auth_context : AuthContext) (at : ℕ)
        → IsExchange request client code downstream
        → redeem crates fuel state draws request client downstream.redirect_uri
            (some (code_record code (new_code downstream user_id auth_context) at))
          ≡ issue_token crates fuel state draws client downstream.scope user_id downstream.nonce
              (scope_includes_openid downstream.scope)
    unfolding redeem
    redeemed user_id auth_context at x =
        let pkce =
          (verify_pkce_iff crates.crypto client downstream.code_challenge
              downstream.code_challenge_method request.code_verifier).1
            x.proved in
        let own = (text_beq_iff downstream.client_id client.client_id).1 (sym x.own_id) in
        let uri = (text_beq_iff downstream.redirect_uri downstream.redirect_uri).1 refl in
        rw (own, uri, pkce, redeem) refl

    exchanged :
        (store : AuthStore)
        → IsExchange request client code downstream
        → (token_endpoint crates fuel state draws request store).1
          ≡ redeem crates fuel state draws request client downstream.redirect_uri
              (consume_authorization_code draws.now code store).1
    unfolding token_endpoint authorization_code
    exchanged store x =
        let a = requesting x in
        let b = dispatch_code crates fuel state draws request client store x.grant in
        let c = x.presented in let d = x.redirected in ground arith

    -- From the redirect to the tokens: if the program has sent a code to the client, and before 120
    -- seconds are over the client asks with its credentials, the same redirect address and its
    -- proof, then the endpoint answers what `issue_token` makes for the user, the scope and the
    -- nonce that the code was sent for, whatever else happened to the store in between, as long as
    -- that was before the expiry and did not redeem or issue the same code.
    pub redirect-token_endpoint :
        (now : ℕ) (user_id : Text) (auth_context : AuthContext) (store : AuthStore) (cs : List Call)
        → IsWellFormed store
        → (issue_authorization_code_redirect_for_downstream crates.chrono now code downstream
            user_id auth_context store).1
          ≡ code_redirect downstream code
        → All (Spares code (code_expiry now)) cs
        → draws.now < code_expiry now
        → IsExchange request client code downstream
        → (token_endpoint crates fuel state draws request (
            run crates.chrono cs
              (issue_authorization_code_redirect_for_downstream crates.chrono now code downstream
                user_id auth_context store).0)).1
          ≡ issue_token crates fuel state draws client downstream.scope user_id downstream.nonce
              (scope_includes_openid downstream.scope)
    unfolding issue_authorization_code_redirect_for_downstream
    redirect-token_endpoint now user_id auth_context store cs w sent spared early x =
        let issued =
          issued_code crates.chrono now code downstream user_id auth_context store sent in
        let live =
          issue-consume crates.chrono now 120 draws.now code code
            (new_code downstream user_id auth_context) cs store w issued spared early in
        rw (exchanged _ x, live, redeemed user_id auth_context (code_expiry now) x) refl

  -- A request with a wrong secret for its client is refused and changes nothing: it uses up no code.
  pub token_endpoint-unauthenticated :
      (draws : TokenDraws) (request : TokenRequest) (store : AuthStore) (client_id secret : Text)
      (client : Client)
      → request.client_id ≡ some client_id
      → request.client_secret ≡ some secret
      → get client_id state.clients ≡ some client
      → client.client_secret ≢ secret
      → token_endpoint crates fuel state draws request store ≡ (store, err invalid_client)
  unfolding token_endpoint requesting_client authenticate_client
  token_endpoint-unauthenticated draws request store client_id secret client e f g wrong =
      let no = constant_time_eq_iff crates.crypto client.client_secret secret in ground arith
