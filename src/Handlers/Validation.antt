-- ===== src/Handlers/Validation.antt =====
-- src/handlers.rs: `validate_authorize_request`.
use pocket_oid.Base.{
  ◌≡◌, ◌↔◌, Bool, true, false, not, ◌&&◌, Option, none, some, arith, contains, is_none, ◌==◌,
  if◌then◌else◌, Option-cases, Bool-cases, ◌⊎◌, inl, inr,
}
use pocket_oid.Config.{Client}
use pocket_oid.Handlers.Messages.{
  unauthorized_client, invalid_request_name, redirect_uri_unregistered, unsupported_response_type,
  invalid_scope_name,
}
use pocket_oid.Handlers.Scopes.{validate_scopes}
use pocket_oid.Handlers.State.{AppState}
use pocket_oid.HashMap.{get}
use pocket_oid.Http.{
  Response, authorization_error_response, authorization_error_redirect, ok, err, panic, diverge,
}
use pocket_oid.Text.{Text, text_eq, codes}
use pocket_oid.Uri.{AuthorizeRequest}

-- `Result<(&Client, Option<String>), Box<Response>>`.
pub data Validated : Type 0 where
  valid : Client → Option Text → Validated
  refused : Response → Validated

-- `method` is absent, or is one of the two.
abbrev pub is_supported_method : Option Text → Bool
is_supported_method none = true
is_supported_method (some method) = if method == codes "plain" then true else method == codes "S256"

abbrev redirected : AuthorizeRequest → Text → Validated
redirected request error =
    refused (authorization_error_redirect request.redirect_uri error request.state)

-- The checks after the redirect address is known to be the client's.
unfoldable pub validate_for_client : Client → AuthorizeRequest → Validated
validate_for_client client request =
    if not (request.response_type == codes "code" && contains client.response_types (codes "code"))
    then redirected request unsupported_response_type
    else elim (validate_scopes request.scope client) [
      | ok scope ↦
          if client.require_pkce && is_none request.code_challenge
          then redirected request invalid_request_name
          else if is_supported_method request.code_challenge_method
          then valid client scope
          else redirected request invalid_request_name
      | err e ↦ redirected request invalid_scope_name
      | panic ↦ redirected request invalid_scope_name
      | diverge ↦ redirected request invalid_scope_name
    ]

unfoldable pub validate_authorize_request : AppState → AuthorizeRequest → Validated
validate_authorize_request state request = elim (get request.client_id state.clients) [
  | none ↦ refused (authorization_error_response unauthorized_client none)
  | some client ↦
      if contains client.redirect_uris request.redirect_uri
      then validate_for_client client request
      else refused
          (authorization_error_response invalid_request_name (some redirect_uri_unregistered))
]

-- What a valid request has: a registered client, one of the client's redirect addresses, the
-- response type `code`, which the client may use, granted scopes, a challenge if the client must
-- send one, and a supported method if it names one.
pub record IsValid (state : AppState) (request : AuthorizeRequest) (client : Client)
    (scope : Option Text) : Type 0 where
  pub registered : get request.client_id state.clients ≡ some client
  pub own_uri : contains client.redirect_uris request.redirect_uri ≡ true
  pub code_requested : (request.response_type == codes "code") ≡ true
  pub code_allowed : contains client.response_types (codes "code") ≡ true
  pub granted : validate_scopes request.scope client ≡ ok scope
  pub challenged : client.require_pkce ≡ true → is_none request.code_challenge ≡ false
  pub supported : is_supported_method request.code_challenge_method ≡ true

module _ (state : AppState) (request : AuthorizeRequest) (client : Client)
    (scope : Option Text) where
  valid-IsValid :
      (own : Client)
      → get request.client_id state.clients ≡ some own
      → contains own.redirect_uris request.redirect_uri ≡ true
      → validate_for_client own request ≡ valid client scope
      → IsValid state request client scope
  unfolding validate_for_client
  valid-IsValid own found uri h =
      let e : own ≡ client = ground arith in
      record {
        registered = ground arith;
        own_uri = ground arith;
        code_requested = ground arith;
        code_allowed = ground arith;
        granted = ground arith;
        challenged = λ required. ground arith;
        supported = ground arith;
      }

  IsValid-valid :
      IsValid state request client scope → validate_for_client client request ≡ valid client scope
  unfolding validate_for_client
  IsValid-valid v =
      let a = v.code_requested in
      let b = v.code_allowed in
      let c = v.granted in let d = v.challenged in let f = v.supported in ground arith

  -- A request passes, with a client and a scope, exactly when the client is the registered one, the
  -- redirect address is the client's, the response type is `code` and the client may use it, the
  -- scope is what `validate_scopes` grants, there is a challenge if the client must send one, and
  -- the challenge's method, if one is named, is supported.
  pub validate_authorize_request_iff :
      (validate_authorize_request state request ≡ valid client scope)
      ↔ IsValid state request client scope
  unfolding validate_authorize_request
  validate_authorize_request_iff = (accepted, passes)
    where
      accepted :
          validate_authorize_request state request ≡ valid client scope
          → IsValid state request client scope
      accepted h = elim (Option-cases (get request.client_id state.clients)) [
        | inl e ↦ cc (rw (e, validate_authorize_request) at h)
        | inr (own, e) ↦ elim (Bool-cases (contains own.redirect_uris request.redirect_uri)) [
          | inl f ↦ valid-IsValid own e f (rw (e, f, validate_authorize_request) at h)
          | inr f ↦ cc (rw (e, f, validate_authorize_request) at h)
        ]
      ]

      passes :
          IsValid state request client scope
          → validate_authorize_request state request ≡ valid client scope
      passes v = rw (v.registered, v.own_uri, validate_authorize_request) (IsValid-valid v)

-- A redirect that reports an error goes to an address that is registered for the client.
pub record IsRegisteredRedirect (state : AppState) (request : AuthorizeRequest)
    (response : Response) : Type 0 where
  pub client : Client
  pub error : Text
  pub registered : get request.client_id state.clients ≡ some client
  pub own_uri : contains client.redirect_uris request.redirect_uri ≡ true
  pub carries : response ≡ authorization_error_redirect request.redirect_uri error request.state

module _ (state : AppState) (request : AuthorizeRequest) (response : Response) where
  refused-cases :
      (client : Client)
      → validate_for_client client request ≡ refused response
      → (refused response ≡ redirected request unsupported_response_type)
        ⊎ ((refused response ≡ redirected request invalid_scope_name)
            ⊎ (refused response ≡ redirected request invalid_request_name))
  unfolding validate_for_client
  refused-cases client h = ground arith

  refused-redirected :
      (client : Client)
      → validate_for_client client request ≡ refused response
      → (error : Text) × (response
          ≡ authorization_error_redirect request.redirect_uri error request.state)
  refused-redirected client h = elim (refused-cases client h) [
    | inl e ↦ (unsupported_response_type, cc)
    | inr (inl e) ↦ (invalid_scope_name, cc)
    | inr (inr e) ↦ (invalid_request_name, cc)
  ]

  -- No open redirect: a refused request is redirected only to an address that is registered for
  -- its client, with the error and the request's state, and every other refusal stays here.
  pub refused-IsRegisteredRedirect :
      (uri : Text)
      → validate_authorize_request state request ≡ refused response
      → response.location ≡ some uri
      → IsRegisteredRedirect state request response
  unfolding validate_authorize_request
  refused-IsRegisteredRedirect uri h located =
      elim (Option-cases (get request.client_id state.clients)) [
        | inl e ↦
            let here : refused (authorization_error_response unauthorized_client none)
                ≡ refused response =
              rw (e, validate_authorize_request) at h in
            ground arith
        | inr (own, e) ↦ elim (Bool-cases (contains own.redirect_uris request.redirect_uri)) [
          | inl f ↦
              let (error, carries) =
                refused-redirected own (rw (e, f, validate_authorize_request) at h) in
              record { client = own; error = error; registered = e; own_uri = f; carries = carries }
          | inr f ↦
              let here : refused (
                    authorization_error_response invalid_request_name
                      (some redirect_uri_unregistered))
                  ≡ refused response =
                rw (e, f, validate_authorize_request) at h in
              ground arith
        ]
      ]
