-- ===== src/Frontend.antt =====
-- src/frontend.rs: the escaping of values, and the two pages that ask for a consent.
pub mod Safety
use pocket_oid.Base.{ℕ, Bool, List, [], ◌∷◌, ◌++◌, nat_beq, if◌then◌else◌}
use pocket_oid.Text.{Text, codes}

unfoldable pub escape_char : ℕ → Text
escape_char c =
    if nat_beq c b'&'
    then codes "&amp;"
    else if nat_beq c b'<'
    then codes "&lt;"
    else if nat_beq c b'>'
    then codes "&gt;"
    else if nat_beq c 34
    then codes "&quot;"
    else if nat_beq c 39
    then codes "&#39;"
    else c ∷ []

unfoldable pub escape_html : Text → Text
unfolding escape_char
escape_html [] = []
escape_html (c ∷ s) = escape_char c ++ escape_html s

-- The parts of the template that no value is put into.
unfoldable pub page_top : Text
page_top =
    codes
      "<!doctype html>\n<html>\n  <head><meta charset=\"utf-8\"><title>Pocket-OID Consent</title></head>\n  <body>\n    <main>\n      <h1>Consent</h1>\n      <p>"

unfoldable pub page_app : Text
page_app = codes ", app '"

unfoldable pub page_scopes : Text
page_scopes = codes "' is requesting access.</p>\n      <p>Requested scopes: "

unfoldable pub consent_form : Text
consent_form =
    codes
      "</p>\n      <form method=\"post\" action=\"/consent\">\n        <input type=\"hidden\" name=\"return_to\" value=\""

unfoldable pub reauth_form : Text
reauth_form =
    codes
      "</p>\n      <form method=\"post\" action=\"/reauth/consent\">\n        <input type=\"hidden\" name=\"transaction_id\" value=\""

unfoldable pub page_bottom : Text
page_bottom =
    codes
      "\" />\n        <button type=\"submit\" name=\"decision\" value=\"approve\">Approve</button>\n        <button type=\"submit\" name=\"decision\" value=\"deny\">Deny</button>\n      </form>\n    </main>\n  </body>\n</html>"

-- The two templates differ in their form.
unfoldable pub fill_page : Text → Text → Text → Text → Text → Text
fill_page form user client_id scope value =
    page_top
    ++ (user
        ++ (page_app
            ++ (client_id ++ (page_scopes ++ (scope ++ (form ++ (value ++ page_bottom)))))))

unfoldable pub consent_page : Text → Text → Text → Text → Text
consent_page return_to client_id scope username =
    fill_page consent_form (escape_html username) (escape_html client_id) (escape_html scope)
      (escape_html return_to)

unfoldable pub reauth_consent_page : Text → Text → Text → Text → Text
reauth_consent_page transaction_id client_id scope subject =
    fill_page reauth_form (escape_html subject) (escape_html client_id) (escape_html scope)
      (escape_html transaction_id)
