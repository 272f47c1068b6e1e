-- ===== src/Uri/Login.antt =====
-- After the login: the address no longer asks for a fresh authentication.
use pocket_oid.Base.{
  ◌≡◌, refl, ap, ◌∙◌, subst, true, false, not, Option, none, some, nat_beq, length, is_empty, ◌==◌,
  Bool-cases, Option-cases, inl, inr,
}
use pocket_oid.Text.{Text, codes, text_eq, split_by, split_whitespace, is_whitespace}
use pocket_oid.Text.Split.{IsWord, split_whitespace-All}
use pocket_oid.Uri.{
  AuthorizeRequest, build_authorize_return, parse_authorize_return, requests_fresh_authentication,
  authorize_return_after_login,
}
use pocket_oid.Uri.RoundTrip.{IsCarried, IsCarriedOption, AreCarried, parse-build}
use pocket_oid.Uri.Parsed.{parse-AreCarried}
use pocket_oid.Uri.Prompts.{
  split_by-IsCarried, keep-All, others, any-others, any_of_length, left_over, left_over-eq,
  left_over-IsCarried, fresh-left_over, with_prompt-AreCarried,
}

-- What the login page's redirect is read back as: the same request, with another prompt that
-- does not ask for a login.
pub record IsLoggedIn (before after : AuthorizeRequest) : Type 0 where
  pub prompt : Option Text
  pub same : after ≡ record before { prompt = prompt }
  pub not_fresh : requests_fresh_authentication after.prompt ≡ false

without_login :
    (request : AuthorizeRequest) (prompt : Text)
    → AreCarried request
    → request.prompt ≡ some prompt
    → IsLoggedIn request (
        parse_authorize_return (
          build_authorize_return
            (record request { prompt = left_over (others (split_whitespace prompt)) })))
without_login request prompt h e =
    let words = split_whitespace prompt in
    let all_words =
      keep-All IsWord (λ w. not (w == codes "login")) words (split_whitespace-All prompt) in
    let carried : IsCarried prompt = subst IsCarriedOption e h.prompt in
    let pieces = split_by-IsCarried is_whitespace prompt carried in
    let kept = keep-All IsCarried (λ w. not (is_empty w)) (split_by is_whitespace prompt) pieces in
    let all_carried = keep-All IsCarried (λ w. not (w == codes "login")) words kept in
    let new = left_over (others words) in
    let back =
      parse-build (record request { prompt = new })
        (with_prompt-AreCarried request new h (left_over-IsCarried (others words) all_carried)) in
    record {
      prompt = new;
      same = back;
      not_fresh =
          ap (λ (r : AuthorizeRequest). requests_fresh_authentication r.prompt) back
          ∙ fresh-left_over (others words) all_words
          ∙ any-others words;
    }

unchanged : (r : AuthorizeRequest) → requests_fresh_authentication r.prompt ≡ false → IsLoggedIn r r
unchanged r h = record { prompt = r.prompt; same = refl; not_fresh = h }

module _ (return_to : Text) where
  request : AuthorizeRequest
  request = parse_authorize_return return_to

  after_unset : request.prompt ≡ none → authorize_return_after_login return_to ≡ return_to
  unfolding request authorize_return_after_login
  after_unset e = rw (e, authorize_return_after_login)

  after_kept :
      (prompt : Text)
      → request.prompt ≡ some prompt
      → nat_beq (length (others (split_whitespace prompt))) (length (split_whitespace prompt))
        ≡ true
      → authorize_return_after_login return_to ≡ return_to
  unfolding request authorize_return_after_login
  after_kept prompt e same = rw (e, same, authorize_return_after_login)

  after_removed :
      (prompt : Text)
      → request.prompt ≡ some prompt
      → nat_beq (length (others (split_whitespace prompt))) (length (split_whitespace prompt))
        ≡ false
      → authorize_return_after_login return_to
        ≡ build_authorize_return
            (record request { prompt = left_over (others (split_whitespace prompt)) })
  unfolding request authorize_return_after_login
  after_removed prompt e fewer =
      rw (← left_over-eq (others (split_whitespace prompt)))
        (rw (e, fewer, authorize_return_after_login))

-- After a login the address no longer asks for one, whatever address the form carried: it is read
-- back as the same request, but for a prompt in which `login` does not stand.
pub authorize_return_after_login-IsLoggedIn :
    (return_to : Text)
    → IsLoggedIn
        (parse_authorize_return return_to)
        (parse_authorize_return (authorize_return_after_login return_to))
unfolding request requests_fresh_authentication
authorize_return_after_login-IsLoggedIn return_to =
    let r = parse_authorize_return return_to in
    elim (Option-cases r.prompt) [
      | inl unset ↦
          rw (after_unset return_to unset) (unchanged r (ap requests_fresh_authentication unset))
      | inr (prompt, set) ↦
          let words = split_whitespace prompt in
          elim (Bool-cases (nat_beq (length (others words)) (length words))) [
            | inl kept ↦
                rw (after_kept return_to prompt set kept)
                  (unchanged r (ap requests_fresh_authentication set ∙ any_of_length words kept))
            | inr fewer ↦
                rw (after_removed return_to prompt set fewer)
                  (without_login r prompt (parse-AreCarried return_to) set)
          ]
    ]
