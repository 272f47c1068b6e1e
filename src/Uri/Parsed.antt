-- ===== src/Uri/Parsed.antt =====
-- What is read from a `return_to` address can be put into one again.
use pocket_oid.Base.{ℕ, ◌≡◌, Bool, List, [], ◌∷◌, ◌++◌, arith, nat_beq, All, Option-cases, inl, inr}
use pocket_oid.Text.{Text, text_eq, split, split_once}
use pocket_oid.Text.Split.{IsFree, split_by-All, split_once_sound}
use pocket_oid.Uri.{
  AuthorizeRequest, decode_uri_component, build_authorize_return, blank_request, set_field, assign,
  assign_all, query_of, parse_authorize_return,
}
use pocket_oid.Uri.Escape.{decode-HasNoEscape, decode-IsFree}
use pocket_oid.Uri.RoundTrip.{IsCarried, AreCarried, parse-build}

-- What is read from an address can be carried again.
suffix-IsFree : (p : ℕ → Bool) (s t : Text) → IsFree p (s ++ t) → IsFree p t
suffix-IsFree p [] t h = h
suffix-IsFree p (c ∷ s) t (h, hs) = suffix-IsFree p s t hs

decode-IsCarried : (v : Text) → IsFree (λ c. nat_beq c b'&') v → IsCarried (decode_uri_component v)
decode-IsCarried v h = record { no_escape = decode-HasNoEscape v; no_separator = decode-IsFree v h }

set_field-AreCarried :
    (r : AuthorizeRequest) (key value : Text)
    → AreCarried r
    → IsCarried value
    → AreCarried (set_field r key value)
unfolding set_field
set_field-AreCarried r key value h k = ground arith

assign-AreCarried :
    (r : AuthorizeRequest) (pair : Text)
    → AreCarried r
    → IsFree (λ c. nat_beq c b'&') pair
    → AreCarried (assign r pair)
unfolding assign
assign-AreCarried r pair h free = elim (Option-cases (split_once b'=' pair)) [
  | inl e ↦ rw (e, assign) h
  | inr ((key, value), e) ↦
      let made = (split_once_sound b'=' pair key value e).0 in
      let clean = suffix-IsFree (λ c. nat_beq c b'&') key (b'=' ∷ value) (rw made at free) in
      rw (e, assign)
        (set_field-AreCarried r key (decode_uri_component value) h (decode-IsCarried value clean.1))
]

assign_all-AreCarried :
    (pairs : List Text) (r : AuthorizeRequest)
    → AreCarried r
    → All (IsFree (λ c. nat_beq c b'&')) pairs
    → AreCarried (assign_all r pairs)
unfolding assign_all
assign_all-AreCarried [] r h _ = h
assign_all-AreCarried (pair ∷ pairs) r h (free, rest) =
    assign_all-AreCarried pairs (assign r pair) (assign-AreCarried r pair h free) rest

pub blank-IsCarried : IsCarried []
blank-IsCarried = record { no_escape = tt; no_separator = tt }

-- Every request that is read from an address can be carried by an address.
pub parse-AreCarried : (return_to : Text) → AreCarried (parse_authorize_return return_to)
unfolding parse_authorize_return
parse-AreCarried return_to =
    assign_all-AreCarried (split b'&' (query_of (split_once b'?' return_to))) blank_request
      (record {
        response_type = blank-IsCarried;
        client_id = blank-IsCarried;
        redirect_uri = blank-IsCarried;
        scope = tt;
        state = tt;
        nonce = tt;
        code_challenge = tt;
        code_challenge_method = tt;
        prompt = tt;
      })
      (split_by-All (λ c. nat_beq c b'&') (query_of (split_once b'?' return_to)))

-- Building an address from what was read, and reading it again, changes nothing.
pub parse-build-parse :
    (return_to : Text)
    → parse_authorize_return (build_authorize_return (parse_authorize_return return_to))
      ≡ parse_authorize_return return_to
parse-build-parse return_to =
    parse-build (parse_authorize_return return_to) (parse-AreCarried return_to)
