-- ===== src/Tests/Endpoints.antt =====
-- The browser's endpoints at one store.
use pocket_oid.Base.{◌≡◌, ◌↔◌, ◌⊎◌, Option, none, some}
use pocket_oid.Handlers.Authorize.{Draws, Tokens, authorize, consent}
use pocket_oid.Handlers.Authorize.Issuing.{
  IsDirect, authorize-IsDirect, IsApproved, consent-IsApproved,
}
use pocket_oid.Handlers.Authorize.Redirects.{IsSafe, authorize-IsSafe}
use pocket_oid.Handlers.Reauth.{ReauthCallbackRequest, reauth_callback, reauth_consent}
use pocket_oid.Handlers.Reauth.Identity.{
  IsVouched, reauth_callback-IsVouched, IsConsented, reauth_consent-IsConsented,
}
use pocket_oid.Handlers.Validation.{
  valid, validate_authorize_request, validate_authorize_request_iff, IsValid,
}
use pocket_oid.Tests.Data.{chrono, client, state, store, upstream}
use pocket_oid.Tests.Store.{store-IsWellFormed}
use pocket_oid.Text.{Text, codes}
use pocket_oid.Uri.{AuthorizeRequest}

abbrev request : AuthorizeRequest
request = record {
  response_type = codes "code";
  client_id = codes "a";
  redirect_uri = codes "u";
  scope = some (codes "x");
  state = none;
  nonce = none;
  code_challenge = none;
  code_challenge_method = none;
  prompt = none;
}

abbrev draws : Draws
draws = record { now = 2; later = 3; uuid = codes "y" }

abbrev tokens : Tokens
tokens = record { upstream_state = codes "t"; upstream_nonce = codes "n"; verifier = codes "v" }

abbrev cookie : Option Text
cookie = some (codes "session_id=q")

validate_authorize_request_iff_example :
    (validate_authorize_request state request ≡ valid client (some (codes "x")))
    ↔ IsValid state request client (some (codes "x"))
validate_authorize_request_iff_example =
    validate_authorize_request_iff state request client (some (codes "x"))

authorize-IsSafe_example :
    IsSafe upstream state tokens request
      (authorize chrono upstream state draws tokens cookie request store).1
authorize-IsSafe_example = authorize-IsSafe chrono upstream state tokens request draws cookie store

authorize-IsDirect_example :
    ((authorize chrono upstream state draws tokens cookie request store).0.auth_codes
      ≡ store.auth_codes)
    ⊎ IsDirect chrono upstream state draws tokens cookie request store
authorize-IsDirect_example =
    authorize-IsDirect chrono upstream state draws tokens cookie request store store-IsWellFormed

abbrev return_to : Text
return_to = codes "/authorize?response_type=code&client_id=a&redirect_uri=u"

consent-IsApproved_example :
    ((consent chrono state draws cookie (codes "approve") return_to store).0.auth_codes
      ≡ store.auth_codes)
    ⊎ IsApproved chrono state draws cookie (codes "approve") return_to store
consent-IsApproved_example =
    consent-IsApproved chrono state draws cookie (codes "approve") return_to store
      store-IsWellFormed

abbrev callback : ReauthCallbackRequest
callback = record { state = some (codes "t"); code = some (codes "c"); error = none }

reauth_callback-IsVouched_example :
    ((reauth_callback chrono upstream state draws (codes "p") callback store).0.auth_codes
      ≡ store.auth_codes)
    ⊎ IsVouched chrono upstream state draws (codes "p") callback store
reauth_callback-IsVouched_example =
    reauth_callback-IsVouched chrono upstream state draws (codes "p") callback store
      store-IsWellFormed

reauth_consent-IsConsented_example :
    ((reauth_consent chrono draws (codes "approve") (codes "w") store).0.auth_codes
      ≡ store.auth_codes)
    ⊎ IsConsented chrono draws (codes "approve") (codes "w") store
reauth_consent-IsConsented_example =
    reauth_consent-IsConsented chrono draws (codes "approve") (codes "w") store store-IsWellFormed
