-- ===== src/Uri.antt =====
-- src/handlers.rs: the escaping of query components, and the `return_to` address that carries an
-- authorization request through the login and consent pages.
pub mod Escape
pub mod RoundTrip
pub mod Parsed
pub mod Prompts
pub mod Login
use pocket_oid.Base.{
  ℕ, Bool, true, false, not, ◌&&◌, List, [], ◌∷◌, ◌++◌, Option, none, some, nat_beq, nat_eq,
  if◌then◌else◌, ◌==◌, keep, length, is_empty, any,
}
use pocket_oid.Text.{
  Text, codes, text_beq, text_eq, split, split_by, split_once, split_whitespace, join,
}

-- `value.replace(' ', "%20")`.
unfoldable pub encode_uri_component : Text → Text
encode_uri_component [] = []
encode_uri_component (c ∷ s) =
    let rest = encode_uri_component s in
    if nat_beq c b' ' then b'%' ∷ b'2' ∷ b'0' ∷ rest else c ∷ rest

abbrev pub is_escape : ℕ → ℕ → ℕ → Bool
is_escape a b c = nat_beq a b'%' && nat_beq b b'2' && nat_beq c b'0'

-- `value.replace("%20", " ")`.
unfoldable pub decode_uri_component : Text → Text
decode_uri_component [] = []
decode_uri_component (a ∷ []) = a ∷ []
decode_uri_component (a ∷ b ∷ []) = a ∷ b ∷ []
decode_uri_component (a ∷ b ∷ c ∷ s) =
    let blank = decode_uri_component s in
    let plain = decode_uri_component (b ∷ c ∷ s) in
    if is_escape a b c then b' ' ∷ blank else a ∷ plain

pub record AuthorizeRequest : Type 0 where
  pub response_type : Text
  pub client_id : Text
  pub redirect_uri : Text
  pub scope : Option Text
  pub state : Option Text
  pub nonce : Option Text
  pub code_challenge : Option Text
  pub code_challenge_method : Option Text
  pub prompt : Option Text

-- One formatted parameter, and one that is pushed only if it is there.
unfoldable pub param : Text → Text → Text
param key value = key ++ (b'=' ∷ encode_uri_component value)

abbrev pub optional : Text → Option Text → List Text → List Text
optional key none params = params
optional key (some value) params = param key value ∷ params

abbrev pub build_params : AuthorizeRequest → List Text
build_params r =
    param (codes "response_type") r.response_type
    ∷ param (codes "client_id") r.client_id
    ∷ param (codes "redirect_uri") r.redirect_uri
    ∷ optional (codes "scope") r.scope (
        optional (codes "state") r.state (
          optional (codes "nonce") r.nonce (
            optional (codes "code_challenge") r.code_challenge (
              optional (codes "code_challenge_method") r.code_challenge_method
                (optional (codes "prompt") r.prompt [])))))

unfoldable pub build_authorize_return : AuthorizeRequest → Text
build_authorize_return r = codes "/authorize?" ++ join (b'&' ∷ []) (build_params r)

abbrev pub blank_request : AuthorizeRequest
blank_request = record {
  response_type = [];
  client_id = [];
  redirect_uri = [];
  scope = none;
  state = none;
  nonce = none;
  code_challenge = none;
  code_challenge_method = none;
  prompt = none;
}

-- The `match key` of the loop: an unknown key changes nothing.
unfoldable pub set_field : AuthorizeRequest → Text → Text → AuthorizeRequest
set_field r key value =
    if key == codes "response_type"
    then record r { response_type = value }
    else if key == codes "client_id"
    then record r { client_id = value }
    else if key == codes "redirect_uri"
    then record r { redirect_uri = value }
    else if key == codes "scope"
    then record r { scope = some value }
    else if key == codes "state"
    then record r { state = some value }
    else if key == codes "nonce"
    then record r { nonce = some value }
    else if key == codes "code_challenge"
    then record r { code_challenge = some value }
    else if key == codes "code_challenge_method"
    then record r { code_challenge_method = some value }
    else if key == codes "prompt"
    then record r { prompt = some value }
    else r

unfoldable pub assign : AuthorizeRequest → Text → AuthorizeRequest
assign r pair = elim (split_once b'=' pair) [
  | none ↦ r
  | some (key, value) ↦ set_field r key (decode_uri_component value)
]

unfoldable pub assign_all : AuthorizeRequest → List Text → AuthorizeRequest
assign_all r [] = r
assign_all r (pair ∷ pairs) = assign_all (assign r pair) pairs

-- `return_to.split_once('?')`, the part after it, and nothing without one.
abbrev pub query_of : Option (Text × Text) → Text
query_of none = []
query_of (some (path, query)) = query

unfoldable pub parse_authorize_return : Text → AuthorizeRequest
parse_authorize_return return_to =
    assign_all blank_request (split b'&' (query_of (split_once b'?' return_to)))

-- `prompt.split_whitespace().any(|value| value == "login")`.
unfoldable pub requests_fresh_authentication : Option Text → Bool
requests_fresh_authentication none = false
requests_fresh_authentication (some prompt) =
    any (λ w. w == codes "login") (split_whitespace prompt)

-- The prompts that remain after the login, and the address without `login` among them.
unfoldable pub authorize_return_after_login : Text → Text
authorize_return_after_login return_to =
    let request = parse_authorize_return return_to in
    elim request.prompt [
      | none ↦ return_to
      | some prompt ↦
          let words = split_whitespace prompt in
          let remaining = keep (λ w. not (w == codes "login")) words in
          if nat_beq (length remaining) (length words)
          then return_to
          else build_authorize_return (record request {
            prompt = if is_empty remaining then none else some (join (b' ' ∷ []) remaining);
          })
    ]
