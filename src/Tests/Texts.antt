-- ===== src/Tests/Texts.antt =====
-- The `return_to` address at one request.
use pocket_oid.Base.{◌≡◌, refl, none, some}
use pocket_oid.Text.{Text, codes}
use pocket_oid.Uri.{
  AuthorizeRequest, build_authorize_return, parse_authorize_return, authorize_return_after_login,
}
use pocket_oid.Uri.Login.{IsLoggedIn, authorize_return_after_login-IsLoggedIn}
use pocket_oid.Uri.RoundTrip.{AreCarried, parse-build}

abbrev pub request : AuthorizeRequest
request = record {
  response_type = codes "code";
  client_id = codes "a";
  redirect_uri = codes "u";
  scope = some (codes "x y");
  state = some (codes "s=t");
  nonce = none;
  code_challenge = none;
  code_challenge_method = none;
  prompt = none;
}

request-AreCarried : AreCarried request
request-AreCarried = record {
  response_type = record {
    no_escape = (refl, (refl, tt));
    no_separator = (refl, (refl, (refl, (refl, tt))));
  };
  client_id = record { no_escape = tt; no_separator = (refl, tt) };
  redirect_uri = record { no_escape = tt; no_separator = (refl, tt) };
  scope = record { no_escape = (refl, tt); no_separator = (refl, (refl, (refl, tt))) };
  state = record { no_escape = (refl, tt); no_separator = (refl, (refl, (refl, tt))) };
  nonce = tt;
  code_challenge = tt;
  code_challenge_method = tt;
  prompt = tt;
}

parse-build_example : parse_authorize_return (build_authorize_return request) ≡ request
parse-build_example = parse-build request request-AreCarried

abbrev return_to : Text
return_to = codes "/authorize?client_id=a%20b&prompt=login%20none&other=1"

authorize_return_after_login-IsLoggedIn_example :
    IsLoggedIn
      (parse_authorize_return return_to)
      (parse_authorize_return (authorize_return_after_login return_to))
authorize_return_after_login-IsLoggedIn_example = authorize_return_after_login-IsLoggedIn return_to
