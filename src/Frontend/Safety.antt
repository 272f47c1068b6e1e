-- ===== src/Frontend/Safety.antt =====
-- src/frontend.rs: a value put into a page adds no markup to it, and can be read back from it.
use pocket_oid.Base.{ℕ, ◌+◌, ◌≡◌, refl, sym, ◌≢◌, [], ◌∷◌, ◌++◌, arith, nat_beq, if◌then◌else◌}
use pocket_oid.Frontend.{
  escape_char, escape_html, fill_page, consent_page, reauth_consent_page, page_top, page_app,
  page_scopes, page_bottom, consent_form, reauth_form,
}
use pocket_oid.Text.{Text}

-- How often a character occurs.
abbrev pub count : ℕ → Text → ℕ
count c [] = 0
count c (d ∷ s) = (if nat_beq d c then 1 else 0) + count c s

count-append : (c : ℕ) (s t : Text) → count c (s ++ t) ≡ count c s + count c t
count-append c [] t = omega arith
count-append c (d ∷ s) t = omega (arith, count-append c s t)

-- The characters that begin and end tags and the values of their attributes.
pub data IsMarkup : ℕ → Type 0 where
  less : IsMarkup b'<'
  greater : IsMarkup b'>'
  double : IsMarkup 34
  single : IsMarkup 39

count-escape_char : (m c : ℕ) → IsMarkup m → count m (escape_char c) ≡ 0
unfolding escape_char
count-escape_char _ c less = ground arith
count-escape_char _ c greater = ground arith
count-escape_char _ c double = ground arith
count-escape_char _ c single = ground arith

count-escape_html : (m : ℕ) (s : Text) → IsMarkup m → count m (escape_html s) ≡ 0
unfolding escape_html
count-escape_html m [] h = refl
count-escape_html m (c ∷ s) h = omega (
  arith,
  count-append m (escape_char c) (escape_html s),
  count-escape_char m c h,
  count-escape_html m s h,
)

count-chain :
    (m : ℕ) (a u b c d s f v e : Text)
    → count m (a ++ (u ++ (b ++ (c ++ (d ++ (s ++ (f ++ (v ++ e))))))))
      ≡ count m a
        + count m b
        + count m d
        + count m f
        + count m e
        + (count m u + count m c + count m s + count m v)
count-chain m a u b c d s f v e = omega (
  arith,
  count-append m a (u ++ (b ++ (c ++ (d ++ (s ++ (f ++ (v ++ e))))))),
  count-append m u (b ++ (c ++ (d ++ (s ++ (f ++ (v ++ e)))))),
  count-append m b (c ++ (d ++ (s ++ (f ++ (v ++ e))))),
  count-append m c (d ++ (s ++ (f ++ (v ++ e)))),
  count-append m d (s ++ (f ++ (v ++ e))),
  count-append m s (f ++ (v ++ e)),
  count-append m f (v ++ e),
  count-append m v e,
)

-- A page has the markup of its template and that of the values put into it.
count-fill_page :
    (m : ℕ) (form user client_id scope value : Text)
    → count m (fill_page form user client_id scope value)
      ≡ count m (fill_page form [] [] [] [])
        + (count m user + count m client_id + count m scope + count m value)
unfolding fill_page
count-fill_page m form user client_id scope value = omega (
  arith,
  count-chain m page_top user page_app client_id page_scopes scope form value page_bottom,
  count-chain m page_top [] page_app [] page_scopes [] form [] page_bottom,
)

count-escaped :
    (m : ℕ) (form user client_id scope value : Text)
    → IsMarkup m
    → count m (
        fill_page form
          (escape_html user)
          (escape_html client_id)
          (escape_html scope)
          (escape_html value))
      ≡ count m (fill_page form (escape_html []) (escape_html []) (escape_html []) (escape_html []))
count-escaped m form user client_id scope value h = omega (
  arith,
  count-fill_page m form (escape_html user) (escape_html client_id) (escape_html scope)
      (escape_html value),
  count-fill_page m form (escape_html []) (escape_html []) (escape_html []) (escape_html []),
  count-escape_html m user h,
  count-escape_html m client_id h,
  count-escape_html m scope h,
  count-escape_html m value h,
  count-escape_html m [] h,
)

-- Whatever the request, the client and the user are, both pages have the tags and the attributes
-- of their templates and no others: each of the characters that begin or end one stands in the page
-- as often as in the page of empty values.
pub count-consent_page :
    (m : ℕ) (return_to transaction_id client_id scope username : Text)
    → IsMarkup m
    → (count m (consent_page return_to client_id scope username)
        ≡ count m (consent_page [] [] [] []))
      × (count m (reauth_consent_page transaction_id client_id scope username)
          ≡ count m (reauth_consent_page [] [] [] []))
unfolding consent_page reauth_consent_page
count-consent_page m return_to transaction_id client_id scope username h = (
  count-escaped m consent_form username client_id scope return_to h,
  count-escaped m reauth_form username client_id scope transaction_id h,
)

escape_char-inj :
    (c d : ℕ) (s t : Text) → escape_char c ++ s ≡ escape_char d ++ t → (c ≡ d) × (s ≡ t)
unfolding escape_char
escape_char-inj c d s t h = ground arith

escaped_nonempty : (c : ℕ) (s : Text) → [] ≢ escape_char c ++ s
unfolding escape_char
escaped_nonempty c s h = ground arith

-- An escaped value determines the value.
pub escape_html-inj : (s t : Text) → escape_html s ≡ escape_html t → s ≡ t
unfolding escape_html
escape_html-inj [] [] h = refl
escape_html-inj [] (d ∷ t) h = absurd (escaped_nonempty d (escape_html t) h)
escape_html-inj (c ∷ s) [] h = absurd (escaped_nonempty c (escape_html s) (sym h))
escape_html-inj (c ∷ s) (d ∷ t) h =
    ground (arith, escape_char-inj c d (escape_html s) (escape_html t) h, escape_html-inj s t)
