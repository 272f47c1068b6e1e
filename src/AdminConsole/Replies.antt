-- ===== src/AdminConsole/Replies.antt =====
-- src/admin_console/mod.rs: what the console answers. A page is kept as its view with the values
-- put into it.
use pocket_oid.Base.{
  ℕ, ◌≡◌, ◌↔◌, ap, ◌++◌, Bool, true, Option, none, some, if◌then◌else◌, ◌==◌, List, [], ◌∷◌,
  is_some,
}
use pocket_oid.Outside.{Crypto}
use pocket_oid.Text.{Text, codes, text_eq, trim, split, split_once, strip_prefix}
use pocket_oid.Text.Bytes.{as_bytes, as_bytes-inj}

pub data View : Type 0 where
  -- `views::login` of a token, a message, and whether the password has been changed.
  login : Text → Option Text → Bool → View
  -- `views::password` of a name, a token and a message.
  password : Text → Text → Option Text → View
  -- `views::clients` and `views::users` of a name, a token, and the entry that is selected.
  clients users : Text → Text → Option Text → View
  -- `views::provider` of a name and a token, and the sign-in page of the provider.
  provider : Text → Text → View
  login_preview : View

pub data Content : Type 0 where
  empty : Content
  plain : Text → Content
  html : View → Content
  -- A file, by its name, of a content type.
  file : Text → Text → Content

pub record Reply : Type 0 where
  pub status : ℕ
  pub location : Option Text
  pub set_cookie : Option Text
  pub content : Content

abbrev pub redirect_to : Text → Reply
redirect_to uri = record { status = 303; location = some uri; set_cookie = none; content = empty }

abbrev pub show : ℕ → View → Reply
show n view = record { status = n; location = none; set_cookie = none; content = html view }

abbrev pub status_only : ℕ → Reply
status_only n = record { status = n; location = none; set_cookie = none; content = empty }

unfoldable pub error_response : Reply
error_response = record {
  status = 503;
  location = none;
  set_cookie = none;
  content = plain (codes "Administrator console temporarily unavailable.");
}

-- `COOKIE`.
unfoldable pub cookie_name : Text
cookie_name = codes "pocket_oid_admin"

unfoldable pub find_cookie : List Text → Option Text
unfolding cookie_name
find_cookie [] = none
find_cookie (entry ∷ entries) =
    let rest = find_cookie entries in
    elim (split_once b'=' (trim entry)) [
      | none ↦ rest
      | some (name, value) ↦ if name == cookie_name then some value else rest
    ]

-- Of the `Cookie` header, if there is one that is text.
unfoldable pub cookie : Option Text → Option Text
unfolding find_cookie
cookie none = none
cookie (some header) = find_cookie (split b';' header)

-- `HeaderValue::from_str` decides if the cookie is set.
module _ (is_header_value : Text → Bool) where
  abbrev cookie_text : Text → Text → Bool → Text
  cookie_text issuer token clear =
      cookie_name
      ++ (b'='
          ∷ (token
              ++ (codes "; Path=/admin; HttpOnly; SameSite=Strict; Max-Age="
                  ++ ((if clear then codes "0" else codes "3600")
                      ++ (if is_some (strip_prefix (codes "https://") issuer)
                          then codes "; Secure"
                          else [])))))

  unfoldable pub with_cookie : Text → Text → Bool → Reply → Reply
  with_cookie issuer token clear reply =
      let value = cookie_text issuer token clear in
      if is_header_value value then record reply { set_cookie = some value } else reply

unfoldable pub csrf_matches : Crypto → Text → Text → Bool
csrf_matches crypto expected actual = crypto.ct_eq (as_bytes expected) (as_bytes actual)

pub csrf_matches_iff :
    (crypto : Crypto) (expected actual : Text)
    → (csrf_matches crypto expected actual ≡ true) ↔ (expected ≡ actual)
unfolding csrf_matches
csrf_matches_iff crypto expected actual = (
  (λ h. as_bytes-inj expected actual ((crypto.ct_eq_iff _ _).0 h)),
  (λ e. (crypto.ct_eq_iff _ _).1 (ap as_bytes e)),
)
