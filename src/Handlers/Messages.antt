-- ===== src/Handlers/Messages.antt =====
-- src/handlers.rs: the names of errors and their descriptions.
use pocket_oid.Base.{◌++◌}
use pocket_oid.Text.{Text, codes}

unfoldable pub client_id_required : Text
client_id_required = codes "client_id is required"

unfoldable pub client_secret_required : Text
client_secret_required = codes "client_secret is required"

unfoldable pub code_required : Text
code_required = codes "code is required"

unfoldable pub redirect_uri_required : Text
redirect_uri_required = codes "redirect_uri is required"

unfoldable pub code_invalid : Text
code_invalid = codes "authorization code is invalid or expired"

unfoldable pub code_client_mismatch : Text
code_client_mismatch = codes "authorization code client mismatch"

unfoldable pub redirect_uri_mismatch : Text
redirect_uri_mismatch = codes "redirect_uri mismatch"

unfoldable pub pkce_required : Text
pkce_required = codes "pkce is required for this client"

unfoldable pub code_verifier_required : Text
code_verifier_required = codes "code_verifier is required"

unfoldable pub unsupported_method : Text
unsupported_method = codes "unsupported code_challenge_method"

unfoldable pub pkce_failed : Text
pkce_failed = codes "pkce verification failed"

unfoldable pub scope_empty : Text
scope_empty = codes "scope cannot be empty"

-- `format!("requested scope '{scope}' is not permitted")`.
unfoldable pub scope_not_permitted : Text → Text
scope_not_permitted scope = codes "requested scope '" ++ (scope ++ codes "' is not permitted")

unfoldable pub unauthorized_client : Text
unauthorized_client = codes "unauthorized_client"

unfoldable pub invalid_request_name : Text
invalid_request_name = codes "invalid_request"

unfoldable pub redirect_uri_unregistered : Text
redirect_uri_unregistered = codes "redirect_uri is not registered for client"

unfoldable pub unsupported_response_type : Text
unsupported_response_type = codes "unsupported_response_type"

unfoldable pub invalid_scope_name : Text
invalid_scope_name = codes "invalid_scope"

unfoldable pub access_denied : Text
access_denied = codes "access_denied"

unfoldable pub server_error : Text
server_error = codes "server_error"

unfoldable pub temporarily_unavailable : Text
temporarily_unavailable = codes "temporarily_unavailable"

unfoldable pub unknown_reauth_provider : Text
unknown_reauth_provider = codes "unknown re-auth provider"

unfoldable pub upstream_state_required : Text
upstream_state_required = codes "upstream state is required"

unfoldable pub upstream_state_invalid : Text
upstream_state_invalid = codes "upstream state is invalid or expired"

unfoldable pub upstream_state_mismatch : Text
upstream_state_mismatch = codes "upstream state does not match provider"

unfoldable pub reauth_consent_invalid : Text
reauth_consent_invalid = codes "re-auth consent is invalid or expired"

unfoldable pub invalid_credentials : Text
invalid_credentials = codes "Invalid credentials"
