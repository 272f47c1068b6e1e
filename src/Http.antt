-- ===== src/Http.antt =====
-- src/error.rs, and what a handler answers: the status, the headers and the body that the program
-- sets. A page is kept as its template with the values put into it.
use pocket_oid.Base.{ℕ, Bool, if◌then◌else◌, List, [], ◌∷◌, ◌++◌, Option, none, some}
use pocket_oid.Text.{Text, codes, join}
use pocket_oid.Uri.{param}

pub data Page : Type 0 where
  -- `login_page` of a provider's name, a `return_to`, a message and a background.
  login_page : Text → Text → Option Text → Option Text → Page
  -- `consent_page` of a `return_to`, a client, a scope and a user's name.
  consent_page : Text → Text → Text → Text → Page
  -- `reauth_consent_page` of a transaction, a client, a scope and a user.
  reauth_consent_page : Text → Text → Text → Text → Page

pub data Body : Type 0 where
  empty : Body
  html : Page → Body
  -- `ErrorBody`: an error's name and its description.
  error_body : Text → Option Text → Body

pub record Response : Type 0 where
  pub status : ℕ
  pub location : Option Text
  pub set_cookie : Option Text
  pub body : Body

-- `Redirect::to` answers 303, where `sent` lets it.
abbrev pub redirect_to : Text → Response
redirect_to uri = record { status = 303; location = some uri; set_cookie = none; body = empty }

-- What leaves the server: `Redirect::to` panics if its address is no header value, for which
-- `HeaderValue::try_from` is an argument, and then no answer is sent. What a handler has stored stays.
abbrev pub sent : (Text → Bool) → Response → Option Response
sent is_header_value response = elim response.location [
  | none ↦ some response
  | some uri ↦ if is_header_value uri then some response else none
]

abbrev pub page : Page → Response
page p = record { status = 200; location = none; set_cookie = none; body = html p }

abbrev pub status_only : ℕ → Response
status_only n = record { status = n; location = none; set_cookie = none; body = empty }

abbrev pub build_response : ℕ → Text → Option Text → Response
build_response n error description = record {
  status = n;
  location = none;
  set_cookie = none;
  body = error_body error description;
}

-- `authorization_error_response`: 400 with the error's name.
abbrev pub authorization_error_response : Text → Option Text → Response
authorization_error_response error description = build_response 400 error description

-- `authorization_error_redirect`: the error goes back to the client with its state.
abbrev pub state_param : Option Text → List Text
state_param none = []
state_param (some state) = param (codes "state") state ∷ []

abbrev pub query_redirect : Text → List Text → Response
query_redirect uri params = redirect_to (uri ++ (b'?' ∷ join (b'&' ∷ []) params))

unfoldable pub authorization_error_redirect : Text → Text → Option Text → Response
authorization_error_redirect uri error state =
    query_redirect uri (param (codes "error") error ∷ state_param state)

-- An internal error's cause is logged and not answered.
pub data ApiError : Type 0 where
  invalid_client : ApiError
  invalid_grant invalid_request invalid_scope : Text → ApiError
  unsupported_grant_type : ApiError
  internal : ApiError

unfoldable pub into_response : ApiError → Response
into_response invalid_client = build_response 401 (codes "invalid_client") none
into_response (invalid_grant desc) = build_response 400 (codes "invalid_grant") (some desc)
into_response (invalid_request desc) = build_response 400 (codes "invalid_request") (some desc)
into_response (invalid_scope desc) = build_response 400 (codes "invalid_scope") (some desc)
into_response unsupported_grant_type =
    build_response 400 (codes "unsupported_grant_type")
      (some (codes "supported grant types are client_credentials and authorization_code"))
into_response internal =
    build_response 500 (codes "server_error") (some (codes "internal server error"))

-- `Result<_, ApiError>`; `panic` where a called function panics, and `diverge` where one has not
-- returned within the fuel.
pub data ApiResult {ℓ} (A : Type ℓ) : Type ℓ where
  ok : A → ApiResult A
  err : ApiError → ApiResult A
  panic diverge : ApiResult A

infixl 5 ◌>>=◌
abbrev pub ◌>>=◌ {κ μ} : {T : Type κ} {U : Type μ} → ApiResult T → (T → ApiResult U) → ApiResult U
panic >>= next = panic
diverge >>= next = diverge
err cause >>= next = err cause
ok value >>= next = next value

infixl 5 ◌>>◌
abbrev pub ◌>>◌ {κ} : {U : Type κ} → ApiResult (Unit {0}) → ApiResult U → ApiResult U
checked >> next = checked >>= λ _. next

-- `ok_or_else`.
abbrev pub required {ℓ} : {A : Type ℓ} → Option A → ApiError → ApiResult A
required none e = err e
required (some a) e = ok a
