-- ===== src/Handlers/Token/Redemption.antt =====
-- src/handlers.rs: what a token that is issued for an authorization code presupposes.
use pocket_oid.Base.{
  ℕ, ◌<◌, ◌≡◌, ◌≢◌, refl, Bool, List, Option, none, some, arith, All, is_some, Option-cases, inl,
  inr, nat_eq, ◌⊎◌,
}
use pocket_oid.AuthStore.{AuthStore, AuthorizationCodeRecord, consume_authorization_code}
use pocket_oid.AuthStore.Calls.{Call, DoesNotIssue}
use pocket_oid.AuthStore.Invariant.{IsWellFormed}
use pocket_oid.AuthStore.Laws.{consume_authorization_code_iff}
use pocket_oid.AuthStore.Runs.{run, consume_authorization_code_once}
use pocket_oid.Config.{Client}
use pocket_oid.Handlers.Pkce.{
  authenticate_client, authenticate_client_iff, verify_pkce, verify_pkce_iff, IsProved,
}
use pocket_oid.Handlers.Scopes.{scope_includes_openid}
use pocket_oid.Handlers.State.{AppState}
use pocket_oid.Handlers.Token.{
  TokenRequest, TokenResponse, TokenDraws, Crates, issue_token, redeem, authorization_code,
  dispatch, requesting_client, token_endpoint,
}
use pocket_oid.HashMap.{get}
use pocket_oid.Http.{ApiResult, ok, err, panic, diverge}
use pocket_oid.Text.{Text, text_eq, text_beq_iff, codes}

ApiResult-cases {ℓ} :
    {A : Type ℓ} (r : ApiResult A)
    → ((a : A) × (r ≡ ok a)) ⊎ ((e : ApiResult A) × (r ≡ e) × ((a : A) → e ≢ ok a))
ApiResult-cases (ok a) = inl (a, refl)
ApiResult-cases (err e) = inr (err e, refl, λ a h. cc)
ApiResult-cases panic = inr (panic, refl, λ a h. cc)
ApiResult-cases diverge = inr (diverge, refl, λ a h. cc)

module _ (crates : Crates) (fuel : ℕ) (state : AppState) where
  requesting_client_sound :
      (request : TokenRequest) (client : Client)
      → requesting_client crates fuel state request ≡ ok client
      → (client_id : Text) × (request.client_id ≡ some client_id)
        × (request.client_secret ≡ some client.client_secret)
        × (get client_id state.clients ≡ some client)
  unfolding requesting_client
  requesting_client_sound request client h = elim (Option-cases request.client_id) [
    | inl e ↦ ground arith
    | inr (client_id, e) ↦ elim (Option-cases request.client_secret) [
      | inl f ↦ ground arith
      | inr (secret, f) ↦
          let passed : authenticate_client crates.crypto state.clients client_id secret
              ≡ ok client =
            rw (e, f, requesting_client) at h in
          let (found, own) =
            (authenticate_client_iff crates.crypto state.clients client_id secret client).0
              passed in
          (client_id, e, cc, found)
    ]
  ]

  issue_token-scope :
      (draws : TokenDraws) (client : Client) (scope_text : Option Text) (subject : Text)
      (n : Option Text) (include_id_token : Bool) (response : TokenResponse)
      → issue_token crates fuel state draws client scope_text subject n include_id_token
        ≡ ok response
      → (response.scope ≡ scope_text) × (is_some response.id_token ≡ include_id_token)
  unfolding issue_token
  issue_token-scope draws client scope_text subject n include_id_token response h =
      (ground arith, ground arith)

  -- What a redemption shows of the code's record.
  pub record IsRedeemable (request : TokenRequest) (client : Client) (r : AuthorizationCodeRecord)
      : Type 0 where
    pub own_client : r.client_id ≡ client.client_id
    pub own_uri : request.redirect_uri ≡ some r.redirect_uri
    pub proved :
        IsProved crates.crypto client r.code_challenge r.code_challenge_method request.code_verifier

  redeem_sound :
      (draws : TokenDraws) (request : TokenRequest) (client : Client) (redirect_uri : Text)
      (taken : Option AuthorizationCodeRecord) (response : TokenResponse)
      → request.redirect_uri ≡ some redirect_uri
      → redeem crates fuel state draws request client redirect_uri taken ≡ ok response
      → (r : AuthorizationCodeRecord) × (taken ≡ some r)
        × IsRedeemable request client r
        × (issue_token crates fuel state draws client r.scope r.user_id r.nonce
              (scope_includes_openid r.scope)
            ≡ ok response)
  unfolding redeem
  redeem_sound draws request client redirect_uri none response e h = cc
  redeem_sound draws request client redirect_uri (some r) response e h =
      let same : r.client_id ≡ client.client_id =
        ground (arith, text_beq_iff r.client_id client.client_id) in
      let uri : r.redirect_uri ≡ redirect_uri =
        ground (arith, text_beq_iff r.redirect_uri redirect_uri) in
      let pkce : verify_pkce crates.crypto client r.code_challenge r.code_challenge_method
            request.code_verifier
          ≡ ok tt =
        ground arith in
      (
        r,
        refl,
        record {
          own_client = same;
          own_uri = cc;
          proved =
              (verify_pkce_iff crates.crypto client r.code_challenge r.code_challenge_method
                  request.code_verifier).0
                pkce;
        },
        ground arith,
      )

  -- The circumstances of a token that is issued for a code.
  pub record IsRedeemed (draws : TokenDraws) (request : TokenRequest) (store : AuthStore)
      (response : TokenResponse) : Type 0 where
    pub client_id : Text
    pub client : Client
    pub code : Text
    pub r : AuthorizationCodeRecord
    pub identified : request.client_id ≡ some client_id
    pub registered : get client_id state.clients ≡ some client
    pub authenticated : request.client_secret ≡ some client.client_secret
    pub presented : request.code ≡ some code
    pub stored : get code store.auth_codes ≡ some r
    pub alive : draws.now < r.expires_at
    pub redeemable : IsRedeemable request client r
    pub scope : response.scope ≡ r.scope
    pub identity : is_some response.id_token ≡ scope_includes_openid r.scope
    pub used :
        (token_endpoint crates fuel state draws request store).0
        ≡ (consume_authorization_code draws.now code store).0

  dispatch_client :
      (draws : TokenDraws) (request : TokenRequest) (store : AuthStore) (response : TokenResponse)
      → (token_endpoint crates fuel state draws request store).1 ≡ ok response
      → (client : Client) × (requesting_client crates fuel state request ≡ ok client)
        × (token_endpoint crates fuel state draws request store
            ≡ dispatch crates fuel state draws request client store)
  unfolding token_endpoint
  dispatch_client draws request store response h =
      elim (ApiResult-cases (requesting_client crates fuel state request)) [
        | inl (client, e) ↦ (client, e, ground arith)
        | inr (e, f, other) ↦ ground arith
      ]

  pub dispatch_code :
      (draws : TokenDraws) (request : TokenRequest) (client : Client) (store : AuthStore)
      → request.grant_type ≡ codes "authorization_code"
      → dispatch crates fuel state draws request client store
        ≡ authorization_code crates fuel state draws request client store
  unfolding dispatch authorization_code pocket_oid.Text.text_beq
  dispatch_code draws request client store grant = rw (grant, dispatch) refl

  -- The code and the redirect address that a successful request presents.
  presented :
      (draws : TokenDraws) (request : TokenRequest) (client : Client) (store : AuthStore)
      (response : TokenResponse)
      → (authorization_code crates fuel state draws request client store).1 ≡ ok response
      → (code : Text) × (redirect_uri : Text) × (request.code ≡ some code)
        × (request.redirect_uri ≡ some redirect_uri)
        × (authorization_code crates fuel state draws request client store ≡ (
          (consume_authorization_code draws.now code store).0,
          redeem crates fuel state draws request client redirect_uri
              (consume_authorization_code draws.now code store).1,
        ))
  unfolding authorization_code redeem
  presented draws request client store response h = elim (Option-cases request.code) [
    | inl e ↦ cc (rw (e, authorization_code) at h)
    | inr (code, e) ↦ elim (Option-cases request.redirect_uri) [
      | inl f ↦ cc (rw (e, f, authorization_code) at h)
      | inr (redirect_uri, f) ↦ (code, redirect_uri, e, f, rw (e, f, authorization_code) refl)
    ]
  ]

  -- Every token that is issued for an authorization code redeems it: with a well-formed store, who
  -- asks is the registered client that the code was issued to, with its secret; the code is stored
  -- and alive, and is presented with the redirect address and the proof that it was issued with;
  -- the answer has the scope of the code, and an identity token exactly if that scope includes
  -- `openid`; and afterwards the store is as `consume_authorization_code` leaves it.
  pub token_endpoint-IsRedeemed :
      (draws : TokenDraws) (request : TokenRequest) (store : AuthStore) (response : TokenResponse)
      → IsWellFormed store
      → request.grant_type ≡ codes "authorization_code"
      → (token_endpoint crates fuel state draws request store).1 ≡ ok response
      → IsRedeemed draws request store response
  token_endpoint-IsRedeemed draws request store response w grant h =
      let (client, asked, e) = dispatch_client draws request store response h in
      let (client_id, named, secret, found) = requesting_client_sound request client asked in
      let f = dispatch_code draws request client store grant in
      let h1 : (authorization_code crates fuel state draws request client store).1 ≡ ok response =
        rw (e, f) at h in
      let (code, redirect_uri, has_code, has_uri, g) =
        presented draws request client store response h1 in
      let h2 : redeem crates fuel state draws request client redirect_uri
            (consume_authorization_code draws.now code store).1
          ≡ ok response =
        rw g at h1 in
      let (r, taken, redeemable, made) =
        redeem_sound draws request client redirect_uri _ response has_uri h2 in
      let (stored, alive) = (consume_authorization_code_iff draws.now w code r).0 taken in
      let (scope, identity) =
        issue_token-scope draws client r.scope r.user_id r.nonce (scope_includes_openid r.scope)
          response made in
      record {
        client_id = client_id;
        client = client;
        code = code;
        r = r;
        identified = named;
        registered = found;
        authenticated = secret;
        presented = has_code;
        stored = stored;
        alive = alive;
        redeemable = redeemable;
        scope = scope;
        identity = identity;
        used = rw (e, f, g) refl;
      }

  -- A successful exchange takes its code out of the store.
  exchange_consumes :
      (draws : TokenDraws) (request : TokenRequest) (store : AuthStore) (response : TokenResponse)
      (code : Text)
      → request.grant_type ≡ codes "authorization_code"
      → request.code ≡ some code
      → (token_endpoint crates fuel state draws request store).1 ≡ ok response
      → ((consume_authorization_code draws.now code store).1 ≢ none)
        × ((token_endpoint crates fuel state draws request store).0
            ≡ (consume_authorization_code draws.now code store).0)
  exchange_consumes draws request store response code grant has_code h =
      let (client, asked, e) = dispatch_client draws request store response h in
      let f = dispatch_code draws request client store grant in
      let h1 : (authorization_code crates fuel state draws request client store).1 ≡ ok response =
        rw (e, f) at h in
      let (other, redirect_uri, has_other, has_uri, g) =
        presented draws request client store response h1 in
      let h2 : redeem crates fuel state draws request client redirect_uri
            (consume_authorization_code draws.now other store).1
          ≡ ok response =
        rw g at h1 in
      let (r, taken, _, _) = redeem_sound draws request client redirect_uri _ response has_uri h2 in
      let same : other ≡ code = cc in
      let there : (consume_authorization_code draws.now code store).1 ≡ some r = rw same at taken in
      ((λ missing. cc), rw (e, f, g, same) refl)

  -- No code is exchanged twice: after a request with the grant type `authorization_code` has got a
  -- token for a code, and after any further calls of the store that do not issue the same code
  -- again, no request with that grant type and that code, by any client and at any time, gets a
  -- token.
  pub token_endpoint_once :
      (draws later : TokenDraws) (request again : TokenRequest) (store : AuthStore)
      (response response' : TokenResponse) (code : Text) (cs : List Call)
      → request.grant_type ≡ codes "authorization_code"
      → request.code ≡ some code
      → (token_endpoint crates fuel state draws request store).1 ≡ ok response
      → All (DoesNotIssue code) cs
      → again.grant_type ≡ codes "authorization_code"
      → again.code ≡ some code
      → (token_endpoint crates fuel state later again
          (run crates.chrono cs (token_endpoint crates fuel state draws request store).0)).1
        ≢ ok response'
  token_endpoint_once draws later request again store response response' code cs grant has_code h
        others grant' has_code' h' =
      let (_, used) = exchange_consumes draws request store response code grant has_code h in
      let (there, _) = exchange_consumes later again _ response' code grant' has_code' h' in
      there (
        rw used
          (consume_authorization_code_once crates.chrono code draws.now later.now cs store others))
