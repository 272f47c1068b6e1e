-- ===== src/Tests/Templates.antt =====
-- The token template at two contexts.
use pocket_oid.Base.{◌<◌, ◌≡◌, ◌≢◌, refl, [], ◌∷◌, none, some, arith}
use pocket_oid.Base.Int.{pos}
use pocket_oid.HashMap.{get}
use pocket_oid.Json.{string, number, object, Members, end, member}
use pocket_oid.Template.{
  TokenContext, ok, running, render, render_inline, inline_text, substitute_value, find_open,
  resolve_placeholder, extract_placeholder, before_brace, check_claims, contains_claim,
  ensure_required_claims, resolve_metadata_value, value_to_string, substitute_text,
}
use pocket_oid.Template.Claims.{HasClaims, render-HasClaims}
use pocket_oid.Template.Termination.{IsPlain, dollars_value, render_total, render_inline_diverges}
use pocket_oid.Tests.Data.{client, claims_template, print_digit}
use pocket_oid.Text.{codes, text_beq, split_once, strip_prefix}
use pocket_oid.Text.Bytes.{len}

abbrev context : TokenContext
context = record {
  client = client;
  scope = none;
  subject = codes "m";
  issued_at = pos 1;
  expires_at = pos 2;
  audience = none;
  uuid = codes "j";
}

abbrev rendered_claims : Members
rendered_claims = member (codes "iss") (string (codes "i")) (
    member (codes "sub") (string (codes "m")) (
      member (codes "aud") (string (codes "a")) (
        member (codes "iat") (number (pos 1))
          (member (codes "exp") (number (pos 2)) (member (codes "jti") (string (codes "j")) end)))))

rendered : render print_digit 5 (object claims_template) context ≡ ok (object rendered_claims)
unfolding render substitute_value substitute_text render_inline extract_placeholder before_brace
    find_open resolve_placeholder ensure_required_claims check_claims contains_claim strip_prefix
    text_beq len split_once
rendered = refl

render-HasClaims_example : HasClaims print_digit 5 context claims_template (object rendered_claims)
render-HasClaims_example =
    render-HasClaims print_digit 5 context claims_template (object rendered_claims) rendered

context-IsPlain : IsPlain print_digit context
unfolding inline_text resolve_placeholder resolve_metadata_value value_to_string get
context-IsPlain name replacement h = ground arith

small : dollars_value (object claims_template) < 5
unfolding dollars_value
small = omega arith

render_total_example : render print_digit 5 (object claims_template) context ≢ running
render_total_example =
    render_total print_digit context context-IsPlain 5 (object claims_template) small

-- A client whose metadata holds `${metadata.k}` under `k`.
abbrev looping : TokenContext
looping = record context {
  client = record client { metadata = (codes "k", string (codes "${metadata.k}")) ∷ [] };
}

opened : find_open (codes "${metadata.k}") ≡ some ([], codes "metadata.k}")
unfolding find_open
opened = refl

closed : split_once b'}' (codes "metadata.k}") ≡ some (codes "metadata.k", [])
unfolding split_once
closed = refl

put : inline_text print_digit (codes "metadata.k") looping ≡ ok (codes "${metadata.k}")
unfolding inline_text resolve_placeholder resolve_metadata_value value_to_string get strip_prefix
    text_beq
put = refl

render_inline_diverges_example :
    render_inline print_digit 1_000 (codes "${metadata.k}") (codes "${metadata.k}") looping
    ≡ running
render_inline_diverges_example =
    render_inline_diverges print_digit looping (codes "metadata.k") (codes "${metadata.k}") []
      (codes "metadata.k}") [] (codes "${metadata.k}") 1_000 (codes "${metadata.k}") opened closed
      put refl
