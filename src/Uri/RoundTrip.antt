-- ===== src/Uri/RoundTrip.antt =====
-- The `return_to` address carries a request through the login page unchanged.
use pocket_oid.Base.{
  ℕ, ◌≡◌, refl, ap, ◌∙◌, Bool, true, List, [], ◌∷◌, ◌++◌, Option, none, some, arith, nat_beq, All,
  all, not, ◌&&◌,
}
use pocket_oid.Text.{Text, codes, text_beq, split, join}
use pocket_oid.Text.Split.{IsFree, split_by-join, split_once-append}
use pocket_oid.Uri.{
  AuthorizeRequest, encode_uri_component, param, optional, build_params, build_authorize_return,
  blank_request, set_field, assign, assign_all, query_of, parse_authorize_return,
}
use pocket_oid.Uri.Escape.{HasNoEscape, decode-encode, encode-IsFree}

-- A value that the address can carry: no `&`, and no literal `%20`.
pub record IsCarried (value : Text) : Type 0 where
  pub no_escape : HasNoEscape value
  pub no_separator : IsFree (λ c. nat_beq c b'&') value

abbrev pub IsCarriedOption : Option Text → Type 0
IsCarriedOption none = Unit
IsCarriedOption (some value) = IsCarried value

pub record AreCarried (r : AuthorizeRequest) : Type 0 where
  pub response_type : IsCarried r.response_type
  pub client_id : IsCarried r.client_id
  pub redirect_uri : IsCarried r.redirect_uri
  pub scope : IsCarriedOption r.scope
  pub state : IsCarriedOption r.state
  pub nonce : IsCarriedOption r.nonce
  pub code_challenge : IsCarriedOption r.code_challenge
  pub code_challenge_method : IsCarriedOption r.code_challenge_method
  pub prompt : IsCarriedOption r.prompt

abbrev IsKey : Text → Type 0
IsKey key = IsFree (λ c. nat_beq c b'=') key × IsFree (λ c. nat_beq c b'&') key

append-IsFree : (p : ℕ → Bool) (s t : Text) → IsFree p s → IsFree p t → IsFree p (s ++ t)
append-IsFree p [] t _ k = k
append-IsFree p (c ∷ s) t (h, hs) k = (h, append-IsFree p s t hs k)

param-IsFree :
    (key value : Text)
    → IsKey key
    → IsCarried value
    → IsFree (λ c. nat_beq c b'&') (param key value)
unfolding param
param-IsFree key value k h = append-IsFree _ key _ k.1 (refl, encode-IsFree value h.no_separator)

optional-All :
    (key : Text) (o : Option Text) (params : List Text)
    → IsKey key
    → IsCarriedOption o
    → All (IsFree (λ c. nat_beq c b'&')) params
    → All (IsFree (λ c. nat_beq c b'&')) (optional key o params)
optional-All key none params k h hs = hs
optional-All key (some value) params k h hs = (param-IsFree key value k h, hs)

-- One parameter, read back.
assign-param :
    (r : AuthorizeRequest) (key value : Text)
    → IsKey key
    → IsCarried value
    → assign r (param key value) ≡ set_field r key value
unfolding assign param
assign-param r key value k h = rw (
  split_once-append b'=' key (encode_uri_component value) k.0,
  decode-encode value h.no_escape,
  assign,
)

module _ (put : Option Text → AuthorizeRequest) (key : Text) (k : IsKey key)
    (sets : (value : Text) → set_field (put none) key value ≡ put (some value)) where
  assign-optional :
      (o : Option Text) (params : List Text)
      → IsCarriedOption o
      → assign_all (put none) (optional key o params) ≡ assign_all (put o) params
  unfolding assign_all
  assign-optional none params h = refl
  assign-optional (some value) params h =
      ap (λ q. assign_all q params) (assign-param (put none) key value k h ∙ sets value)

-- The request read so far, once the first `n` optional parameters have been set.
abbrev with_scope : AuthorizeRequest → Option Text → AuthorizeRequest
with_scope r o = record blank_request {
  response_type = r.response_type;
  client_id = r.client_id;
  redirect_uri = r.redirect_uri;
  scope = o;
}

abbrev with_state : AuthorizeRequest → Option Text → AuthorizeRequest
with_state r o = record (with_scope r r.scope) { state = o }

abbrev with_nonce : AuthorizeRequest → Option Text → AuthorizeRequest
with_nonce r o = record (with_state r r.state) { nonce = o }

abbrev with_challenge : AuthorizeRequest → Option Text → AuthorizeRequest
with_challenge r o = record (with_nonce r r.nonce) { code_challenge = o }

abbrev with_method : AuthorizeRequest → Option Text → AuthorizeRequest
with_method r o = record (with_challenge r r.code_challenge) { code_challenge_method = o }

abbrev with_prompt : AuthorizeRequest → Option Text → AuthorizeRequest
with_prompt r o = record (with_method r r.code_challenge_method) { prompt = o }

all_keys : Text → Bool
all_keys key = all (λ c. not (nat_beq c b'=') && not (nat_beq c b'&')) key

all_keys-IsKey : (key : Text) → all_keys key ≡ true → IsKey key
unfolding all_keys
all_keys-IsKey [] h = (tt, tt)
all_keys-IsKey (c ∷ key) h =
    let (equals, ampersand) = all_keys-IsKey key (ground arith) in
    ((ground arith, equals), (ground arith, ampersand))

required :
    (key value : Text) (r : AuthorizeRequest) (params : List Text)
    → all_keys key ≡ true
    → IsCarried value
    → assign_all r (param key value ∷ params) ≡ assign_all (set_field r key value) params
unfolding assign_all
required key value r params k h =
    ap (λ q. assign_all q params) (assign-param r key value (all_keys-IsKey key k) h)

-- The optional parameters from each one on.
abbrev from_prompt : AuthorizeRequest → List Text
from_prompt r = optional (codes "prompt") r.prompt []

abbrev from_method : AuthorizeRequest → List Text
from_method r = optional (codes "code_challenge_method") r.code_challenge_method (from_prompt r)

abbrev from_challenge : AuthorizeRequest → List Text
from_challenge r = optional (codes "code_challenge") r.code_challenge (from_method r)

abbrev from_nonce : AuthorizeRequest → List Text
from_nonce r = optional (codes "nonce") r.nonce (from_challenge r)

abbrev from_state : AuthorizeRequest → List Text
from_state r = optional (codes "state") r.state (from_nonce r)

abbrev from_scope : AuthorizeRequest → List Text
from_scope r = optional (codes "scope") r.scope (from_state r)

abbrev with_type : AuthorizeRequest → AuthorizeRequest
with_type r = record blank_request { response_type = r.response_type }

abbrev with_client : AuthorizeRequest → AuthorizeRequest
with_client r = record (with_type r) { client_id = r.client_id }

all_assigned : (r : AuthorizeRequest) → assign_all (with_prompt r r.prompt) [] ≡ r
unfolding assign_all
all_assigned r = refl

-- The parameters of a request, read back in order.
assign_all-build_params :
    (r : AuthorizeRequest) → AreCarried r → assign_all blank_request (build_params r) ≡ r
unfolding set_field text_beq all_keys
assign_all-build_params r h =
    required (codes "response_type") r.response_type blank_request
      (param (codes "client_id") r.client_id
        ∷ param (codes "redirect_uri") r.redirect_uri
        ∷ from_scope r)
      refl h.response_type
    ∙ required (codes "client_id") r.client_id (with_type r)
        (param (codes "redirect_uri") r.redirect_uri ∷ from_scope r) refl h.client_id
    ∙ required (codes "redirect_uri") r.redirect_uri (with_client r) (from_scope r) refl
        h.redirect_uri
    ∙ assign-optional (with_scope r) (codes "scope") (all_keys-IsKey (codes "scope") refl)
        (λ v. refl) r.scope (from_state r) h.scope
    ∙ assign-optional (with_state r) (codes "state") (all_keys-IsKey (codes "state") refl)
        (λ v. refl) r.state (from_nonce r) h.state
    ∙ assign-optional (with_nonce r) (codes "nonce") (all_keys-IsKey (codes "nonce") refl)
        (λ v. refl) r.nonce (from_challenge r) h.nonce
    ∙ assign-optional (with_challenge r) (codes "code_challenge")
        (all_keys-IsKey (codes "code_challenge") refl) (λ v. refl) r.code_challenge (from_method r)
        h.code_challenge
    ∙ assign-optional (with_method r) (codes "code_challenge_method")
        (all_keys-IsKey (codes "code_challenge_method") refl) (λ v. refl) r.code_challenge_method
        (from_prompt r) h.code_challenge_method
    ∙ assign-optional (with_prompt r) (codes "prompt") (all_keys-IsKey (codes "prompt") refl)
        (λ v. refl) r.prompt [] h.prompt
    ∙ all_assigned r

build_params-All :
    (r : AuthorizeRequest) → AreCarried r → All (IsFree (λ c. nat_beq c b'&')) (build_params r)
unfolding all_keys
build_params-All r h = (
  param-IsFree _ r.response_type (key (codes "response_type") refl) h.response_type,
  (
    param-IsFree _ r.client_id (key (codes "client_id") refl) h.client_id,
    (
      param-IsFree _ r.redirect_uri (key (codes "redirect_uri") refl) h.redirect_uri,
      optional-All _ r.scope _ (key (codes "scope") refl) h.scope (
          optional-All _ r.state _ (key (codes "state") refl) h.state (
            optional-All _ r.nonce _ (key (codes "nonce") refl) h.nonce (
              optional-All _ r.code_challenge _ (key (codes "code_challenge") refl) h.code_challenge
                (optional-All _ r.code_challenge_method _ (key (codes "code_challenge_method") refl)
                  h.code_challenge_method
                  (optional-All _ r.prompt [] (key (codes "prompt") refl) h.prompt tt))))),
    ),
  ),
)
  where
    key : (k : Text) → all_keys k ≡ true → IsKey k
    key k e = all_keys-IsKey k e

path_IsFree : IsFree (λ c. nat_beq c b'?') (codes "/authorize")
path_IsFree = ground arith

-- A request whose values hold no `&` and no literal `%20` is read back from the address that is
-- built from it, in every field.
pub parse-build :
    (r : AuthorizeRequest) → AreCarried r → parse_authorize_return (build_authorize_return r) ≡ r
unfolding parse_authorize_return build_authorize_return
parse-build r h =
    let params = build_params r in
    ap (λ o. assign_all blank_request (split b'&' (query_of o)))
      (split_once-append b'?' (codes "/authorize") (join (b'&' ∷ []) params) path_IsFree)
    ∙ ap (assign_all blank_request) (
        split_by-join (λ c. nat_beq c b'&') b'&' (param (codes "response_type") r.response_type) _
          refl (build_params-All r h))
    ∙ assign_all-build_params r h
