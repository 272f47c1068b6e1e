-- ===== src/Tests/Tokens.antt =====
-- The token endpoint at one code, and the upstream identity at one token.
use pocket_oid.Base.{
  ◌↔◌, ℕ, ◌+◌, ◌*◌, ◌<◌, ◌≡◌, ◌≢◌, ◌↔◌, refl, Bool, true, false, List, [], ◌∷◌, Option, none, some,
  arith,
}
use pocket_oid.Base.Int.{ℤ, pos, negsuc}
use pocket_oid.AuthStore.{AuthContext, consume_authorization_code, issue_authorization_code}
use pocket_oid.AuthStore.Calls.{Call}
use pocket_oid.AuthStore.Runs.{run}
use pocket_oid.Config.{rs256}
use pocket_oid.Handlers.Issue.{code_redirect, issue_authorization_code_redirect_for_downstream}
use pocket_oid.Handlers.Pkce.{authenticate_client, constant_time_eq, verify_pkce, unchallenged}
use pocket_oid.Handlers.Scopes.{scope_includes_openid}
use pocket_oid.Handlers.State.{KeyMaterial, key_for}
use pocket_oid.Handlers.Token.{
  TokenRequest, TokenResponse, TokenDraws, issue_token, redeem, authorization_code, dispatch,
  requesting_client, token_endpoint, sign_token,
}
use pocket_oid.Handlers.Token.Exchange.{IsExchange, redirect-token_endpoint}
use pocket_oid.Handlers.Token.Issuing.{issue_token_iff, IsIssued}
use pocket_oid.Handlers.Token.Redemption.{
  IsRedeemed, token_endpoint-IsRedeemed, token_endpoint_once,
}
use pocket_oid.HashMap.{get, retain}
use pocket_oid.Http.{ok}
use pocket_oid.Outside.{nanos}
use pocket_oid.Json.{Value, string, number, object, Members, end, member}
use pocket_oid.Template.{
  TokenContext, Rendered, render, render_inline, substitute_value, find_open, resolve_placeholder,
  extract_placeholder, before_brace, check_claims, contains_claim, ensure_required_claims,
  substitute_text,
}
use pocket_oid.Tests.Data.{
  print_digit, claims_template, chrono, client, crates, crypto, differ, discovered, downstream,
  state, store, trusted,
}
use pocket_oid.Tests.Store.{store-IsWellFormed}
use pocket_oid.Text.{codes, text_beq, strip_prefix}
use pocket_oid.Text.Bytes.{len, as_bytes}
use pocket_oid.Upstream.{ValidatedUpstreamIdentity}
use pocket_oid.Upstream.Client.{
  RemoteJwk, DecodingKey, Header, Network, decoding_key, key_of, find_key, find_member,
  validate_id_token,
}
use pocket_oid.Upstream.Client.Identity.{IsIdentified, validate_id_token-IsIdentified}

abbrev request : TokenRequest
request = record {
  grant_type = codes "authorization_code";
  client_id = some (codes "a");
  client_secret = some (codes "s");
  scope = none;
  code = some (codes "z");
  redirect_uri = some (codes "u");
  code_verifier = none;
}

abbrev draws : TokenDraws
draws = record { now = 2; issued_at = 3; uuid = codes "j" }

abbrev response : TokenResponse
response = record {
  access_token = codes "signed";
  token_type = codes "Bearer";
  expires_in = 60;
  id_token = none;
  scope = none;
}

answered : (token_endpoint crates 5 state draws request store).1 ≡ ok response
unfolding token_endpoint requesting_client authenticate_client get text_beq constant_time_eq len
    dispatch authorization_code redeem consume_authorization_code retain verify_pkce issue_token
    pocket_oid.Base.Int.as_i64 render substitute_value substitute_text render_inline
    extract_placeholder before_brace find_open strip_prefix resolve_placeholder
    ensure_required_claims check_claims contains_claim sign_token key_for scope_includes_openid
    as_bytes
answered = refl

token_endpoint-IsRedeemed_example : IsRedeemed crates 5 state draws request store response
token_endpoint-IsRedeemed_example =
    token_endpoint-IsRedeemed crates 5 state draws request store response store-IsWellFormed refl
      answered

abbrev calls : List Call
calls = Call.get_session 3 (codes "q") ∷ []

token_endpoint_once_example :
    (token_endpoint crates 5 state draws request
      (run chrono calls (token_endpoint crates 5 state draws request store).0)).1
    ≢ ok response
token_endpoint_once_example =
    token_endpoint_once crates 5 state draws draws request request store response response
      (codes "z") calls refl refl answered (tt, tt) refl refl

sent :
    (issue_authorization_code_redirect_for_downstream chrono 1
      (codes "z")
      downstream
      (codes "m")
      AuthContext.local
      store).1
    ≡ code_redirect downstream (codes "z")
unfolding issue_authorization_code_redirect_for_downstream issue_authorization_code
sent = refl

exchange : IsExchange crates 5 state request client (codes "z") downstream
unfolding get text_beq
exchange = record {
  grant = refl;
  identified = refl;
  authenticated = refl;
  registered = refl;
  own_id = refl;
  presented = refl;
  redirected = refl;
  proved = unchallenged refl refl;
}

redirect-token_endpoint_example :
    (token_endpoint crates 5 state draws request (
      run chrono calls
        (issue_authorization_code_redirect_for_downstream chrono 1
          (codes "z")
          downstream
          (codes "m")
          AuthContext.local
          store).0)).1
    ≡ issue_token crates 5 state draws client none (codes "m") none (scope_includes_openid none)
redirect-token_endpoint_example =
    redirect-token_endpoint crates 5 state draws request client (codes "z") downstream 1 (codes "m")
      AuthContext.local store calls store-IsWellFormed sent ((tt, tt, omega arith), tt)
      (omega arith) exchange

abbrev intruder : TokenRequest
intruder = record request { client_secret = some (codes "t") }

wrong : codes "s" ≢ codes "t"
unfolding text_beq
wrong = differ (codes "s") (codes "t") refl

registered : get (codes "a") state.clients ≡ some client
unfolding get text_beq
registered = refl

abbrev jwk : RemoteJwk
jwk = record {
  kty = some (codes "RSA");
  key_use = none;
  alg = none;
  kid = some (codes "k");
  n = some (codes "3");
  e = some (codes "5");
  crv = none;
  x = none;
  y = none;
  key_ops = none;
}

abbrev claims : Value
claims = object (
    member (codes "iat") (number (pos 1))
      (member (codes "nonce") (string (codes "n")) (member (codes "sub") (string (codes "o")) end)))

abbrev network : Network
network = record {
  crypto = crypto;
  parse_url = λ t. some (record { scheme = codes "https"; host = some t; fragment = none });
  append_pairs = λ url pairs. some url;
  get_discovery = λ url. some discovered;
  post_token = λ url form. some (some (codes "id"));
  get_jwks = λ url. some (jwk ∷ []);
  decode_header = λ token. some (record { alg = some rs256; kid = some (codes "k") });
  decoded_len = λ text. some 32;
  from_rsa_components = λ n e. some (DecodingKey.rsa n e);
  from_ec_components = λ x y. some (DecodingKey.ec x y);
  decode = λ token key alg issuer audience. some claims;
}

abbrev identity : ValidatedUpstreamIdentity
identity = record { subject = codes "o"; issuer = codes "i" }

identified :
    validate_id_token network (pos 1) discovered trusted (codes "id") (codes "n") ≡ some identity
unfolding validate_id_token find_key decoding_key key_of text_beq
    pocket_oid.Upstream.Client.check_claims find_member constant_time_eq len as_bytes
identified = refl

validate_id_token-IsIdentified_example :
    IsIdentified network (pos 1) discovered trusted (codes "id") (codes "n") identity
validate_id_token-IsIdentified_example =
    validate_id_token-IsIdentified network (pos 1) discovered trusted (codes "id") (codes "n")
      identity identified

abbrev context : TokenContext
context = record {
  client = client;
  scope = none;
  subject = codes "m";
  issued_at = pos 3;
  expires_at = pos (3 + 60 * nanos);
  audience = none;
  uuid = codes "j";
}

abbrev rendered_claims : Members
rendered_claims = member (codes "iss") (string (codes "i")) (
    member (codes "sub") (string (codes "m")) (
      member (codes "aud") (string (codes "a")) (
        member (codes "iat") (number (pos 1))
          (member (codes "exp") (number (pos 2)) (member (codes "jti") (string (codes "j")) end)))))

context_renders :
    render print_digit 5 (object claims_template) context ≡ Rendered.ok (object rendered_claims)
unfolding render substitute_value substitute_text render_inline extract_placeholder before_brace
    find_open resolve_placeholder ensure_required_claims check_claims contains_claim strip_prefix
    text_beq len
context_renders = refl

abbrev signing_key : KeyMaterial
signing_key = record { kid = codes "k"; encoding_key = codes "e"; algorithm = rs256 }

has_key : key_for rs256 state.signing_keys ≡ some signing_key
unfolding key_for
has_key = refl

abbrev issued : TokenResponse
issued = record {
  access_token = codes "signed";
  token_type = codes "Bearer";
  expires_in = 60;
  id_token = some (codes "signed");
  scope = none;
}

issued-IsIssued : IsIssued crates 5 state draws client none (codes "m") none true issued
issued-IsIssued = record {
  expires_at = 3 + 60 * nanos;
  claims = object rendered_claims;
  key = signing_key;
  some_time = omega arith;
  expires = refl;
  ends = refl;
  rendered = context_renders;
  found = has_key;
  signed = refl;
  identity = (codes "signed", refl, refl);
  token_type = refl;
  expires_in = refl;
  scope = refl;
}

issue_token_iff_example :
    (issue_token crates 5 state draws client none (codes "m") none true ≡ ok issued)
    ↔ IsIssued crates 5 state draws client none (codes "m") none true issued
issue_token_iff_example =
    issue_token_iff crates 5 state draws client none (codes "m") none true issued (omega arith)
