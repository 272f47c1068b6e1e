-- ===== src/Handlers/Issue.antt =====
-- src/handlers.rs: `issue_authorization_code_redirect` and its general form.
use pocket_oid.Base.{ℕ, ◌∷◌, Option, none, some}
use pocket_oid.Base.Int.{pos}
use pocket_oid.AuthStore.{
  AuthContext, AuthStore, DownstreamAuthorizationRequest, NewAuthorizationCode,
  issue_authorization_code,
}
use pocket_oid.Http.{Response, status_only, query_redirect, state_param}
use pocket_oid.Outside.{Chrono}
use pocket_oid.Text.{Text, codes}
use pocket_oid.Uri.{AuthorizeRequest, param}

-- The downstream request that is kept of an authorization request.
abbrev pub downstream_of : AuthorizeRequest → Option Text → DownstreamAuthorizationRequest
downstream_of request scope = record {
  client_id = request.client_id;
  redirect_uri = request.redirect_uri;
  scope = scope;
  state = request.state;
  nonce = request.nonce;
  code_challenge = request.code_challenge;
  code_challenge_method = request.code_challenge_method;
}

-- What the code is issued for.
abbrev pub new_code : DownstreamAuthorizationRequest → Text → AuthContext → NewAuthorizationCode
new_code downstream user_id auth_context = record {
  client_id = downstream.client_id;
  user_id = user_id;
  redirect_uri = downstream.redirect_uri;
  scope = downstream.scope;
  nonce = downstream.nonce;
  code_challenge = downstream.code_challenge;
  code_challenge_method = downstream.code_challenge_method;
  auth_context = auth_context;
}

-- The redirect to the client with the code, and the client's state.
abbrev pub code_redirect : DownstreamAuthorizationRequest → Text → Response
code_redirect downstream code =
    query_redirect downstream.redirect_uri
      (param (codes "code") code ∷ state_param downstream.state)

abbrev code_response : DownstreamAuthorizationRequest → Option Text → Response
code_response downstream none = status_only 500
code_response downstream (some code) = code_redirect downstream code

module _ (chrono : Chrono) (now : ℕ) (uuid : Text) where
  unfoldable pub issue_authorization_code_redirect_for_downstream :
      DownstreamAuthorizationRequest → Text → AuthContext → AuthStore → AuthStore × Response
  issue_authorization_code_redirect_for_downstream downstream user_id auth_context store =
      let (after, code) =
        issue_authorization_code chrono now uuid (new_code downstream user_id auth_context)
          (pos 120) store in
      (after, code_response downstream code)

  unfoldable pub issue_authorization_code_redirect :
      AuthorizeRequest → Text → Option Text → AuthContext → AuthStore → AuthStore × Response
  issue_authorization_code_redirect request user_id scope auth_context store =
      issue_authorization_code_redirect_for_downstream (downstream_of request scope) user_id
        auth_context store
