-- ===== src/AdminConsole/Pages.antt =====
-- src/admin_console/mod.rs: to whom the pages are shown, and what the list of users shows.
use pocket_oid.AdminConsole.{
  AdminConsole, Session, Visit, AccessError, denied, denied_reply, authorized,
}
use pocket_oid.AdminConsole.Account.{password_page, PasswordForm, begin_change, begin_for}
use pocket_oid.AdminConsole.Browse.{
  clients, users, users_reply, provider, login_preview, find_selected,
}
use pocket_oid.AdminConsole.Login.{answered}
use pocket_oid.AdminConsole.Selection.{Selection, status_of, contains_text, matches, matches_user}
use pocket_oid.AdminConsole.Summary.{ClientSummary}
use pocket_oid.Admins.{AdminRecord}
use pocket_oid.Base.{
  ℕ, ◌≡◌, refl, ap, ◌↔◌, true, false, List, [], ◌∷◌, ◌++◌, Option, none, some, arith, any, ◌==◌,
  nat_beq_iff, Option-cases, inl, inr,
}
use pocket_oid.Outside.{Crypto}
use pocket_oid.Text.{Text, text_eq, text_beq_iff, codes, trim, strip_prefix}
use pocket_oid.Users.{UserSummary}

-- A request that is not let in is shown no page of the console, and starts no change: it is
-- answered by the sign-in page's address, or by an error.
pub denied-page :
    (crypto : Crypto) (visit : Visit) (at : ℕ) (form : PasswordForm) (console : AdminConsole)
    (to_lowercase byte_serialize : Text → Text) (known : List ClientSummary)
    (records : Option (List UserSummary)) (selection : Selection) (cause : AccessError)
    → (authorized visit console).1 ≡ denied cause
    → ((clients visit known selection console).1 ≡ denied_reply cause)
      × ((users to_lowercase byte_serialize visit records selection console).1 ≡ denied_reply cause)
      × ((provider visit console).1 ≡ denied_reply cause)
      × ((login_preview visit console).1 ≡ denied_reply cause)
      × ((password_page visit console).1 ≡ denied_reply cause)
      × ((begin_change crypto visit at form console).1 ≡ answered (denied_reply cause))
unfolding clients users provider login_preview password_page begin_change begin_for
denied-page crypto visit at form console to_lowercase byte_serialize known records selection cause
      h =
    (ground arith, ground arith, ground arith, ground arith, ground arith, ground arith)

strip_prefix_iff : (p s rest : Text) → (strip_prefix p s ≡ some rest) ↔ (s ≡ p ++ rest)
unfolding strip_prefix
strip_prefix_iff [] s rest = ((λ h. cc), (λ h. cc))
strip_prefix_iff (c ∷ p) [] rest = ((λ h. cc), (λ h. cc))
strip_prefix_iff (c ∷ p) (d ∷ s) rest = ground (arith, strip_prefix_iff p s rest, nat_beq_iff d c)

-- Whether a text occurs in another one, somewhere.
abbrev pub IsIn : Text → Text → Type 0
IsIn needle s = (before : Text) × (after : Text) × (s ≡ before ++ (needle ++ after))

contains_text_from : (needle s : Text) → contains_text needle s ≡ true → IsIn needle s
unfolding contains_text
contains_text_from [] [] h = ([], [], refl)
contains_text_from (n ∷ needle) [] h = cc
contains_text_from needle (c ∷ s) h = elim (Option-cases (strip_prefix needle (c ∷ s))) [
  | inl e ↦
      let (before, after, found) = contains_text_from needle s (ground (arith, e, h)) in
      (c ∷ before, after, ap (λ t. c ∷ t) found)
  | inr (rest, e) ↦ ([], rest, (strip_prefix_iff needle (c ∷ s) rest).0 e)
]

contains_text_to :
    (needle before after s : Text) → s ≡ before ++ (needle ++ after) → contains_text needle s ≡ true
unfolding contains_text
contains_text_to [] [] after [] e = refl
contains_text_to (n ∷ needle) [] after [] e = cc
contains_text_to needle (b ∷ before) after [] e = cc
contains_text_to needle [] after (c ∷ s) e =
    ground (arith, (strip_prefix_iff needle (c ∷ s) after).1 e)
contains_text_to needle (b ∷ before) after (c ∷ s) e =
    ground (arith, contains_text_to needle before after s cc)

contains_text_iff : (needle s : Text) → (contains_text needle s ≡ true) ↔ IsIn needle s
contains_text_iff needle s =
    (contains_text_from needle s, (λ (before, after, e). contains_text_to needle before after s e))

find_selected-id :
    (id : Text) (us : List UserSummary) (u : UserSummary)
    → find_selected (some id) us ≡ some u
    → u.id ≡ id
unfolding find_selected
find_selected-id id [] u h = cc
find_selected-id id (v ∷ us) u h = ground (arith, find_selected-id id us u, text_beq_iff v.id id)

find_selected-absent :
    (id : Text) (us : List UserSummary)
    → find_selected (some id) us ≡ none
    → any (λ (u : UserSummary). u.id == id) us ≡ false
unfolding find_selected
find_selected-absent id [] h = refl
find_selected-absent id (v ∷ us) h = ground (arith, find_selected-absent id us)

module _ (to_lowercase : Text → Text) where
  -- A filter shows a user whose name or identifier, put together, has the text looked for, upper and
  -- lower case aside, and whose status is the one asked for.
  matches_user-IsIn :
      (selection : Selection) (u : UserSummary)
      → matches_user to_lowercase selection u ≡ true
      → IsIn (to_lowercase (trim selection.q)) (to_lowercase (u.username ++ (b' ' ∷ u.id)))
        × ¬ ((selection.status ≡ codes "enabled") × (u.enabled ≡ false))
        × ¬ ((selection.status ≡ codes "disabled") × (u.enabled ≡ true))
  unfolding matches_user matches status_of
  matches_user-IsIn selection u h = (
    contains_text_from _ _ (ground arith),
    (λ (on, off). ground (
      arith,
      on,
      off,
      text_beq_iff selection.status (codes "enabled"),
      text_beq_iff selection.status (codes "disabled"),
      text_beq_iff (status_of selection) (codes "enabled"),
      text_beq_iff (status_of selection) (codes "disabled"),
    )),
    (λ (off, on). ground (
      arith,
      on,
      off,
      text_beq_iff selection.status (codes "enabled"),
      text_beq_iff selection.status (codes "disabled"),
      text_beq_iff (status_of selection) (codes "enabled"),
      text_beq_iff (status_of selection) (codes "disabled"),
    )),
  )

module _ (to_lowercase byte_serialize : Text → Text) where
  shown :
      (admin : AdminRecord) (session : Session) (records : List UserSummary) (selection : Selection)
      (id : Text)
      → selection.id ≡ some id
      → (users_reply to_lowercase byte_serialize admin session (some records) selection).status
        ≡ 200
      → (u : UserSummary) × (find_selected (some id) records ≡ some u)
        × (matches_user to_lowercase selection u ≡ true)
  unfolding users_reply
  shown admin session records selection id e =
      elim (Option-cases (find_selected (some id) records)) [
        | inl f ↦ λ h. absurd (ground (arith, e, f, h, find_selected-absent id records f))
        | inr (u, f) ↦ λ h. (u, f, ground (arith, e, f, h))
      ]

  -- Where the list of users is answered with a selected identifier, the identifier is that of a user
  -- in the list whom the filter keeps: the text looked for occurs, upper and lower case aside, in the
  -- name and the identifier put together, and the status is the one asked for.
  pub users_reply-shown :
      (admin : AdminRecord) (session : Session) (records : List UserSummary) (selection : Selection)
      (id : Text)
      → selection.id ≡ some id
      → (users_reply to_lowercase byte_serialize admin session (some records) selection).status
        ≡ 200
      → (u : UserSummary) × (find_selected (some id) records ≡ some u)
        × (u.id ≡ id)
        × IsIn (to_lowercase (trim selection.q)) (to_lowercase (u.username ++ (b' ' ∷ u.id)))
        × ¬ ((selection.status ≡ codes "enabled") × (u.enabled ≡ false))
        × ¬ ((selection.status ≡ codes "disabled") × (u.enabled ≡ true))
  users_reply-shown admin session records selection id e h =
      let (u, found, kept) = shown admin session records selection id e h in
      let (here, on, off) = matches_user-IsIn to_lowercase selection u kept in
      (u, found, find_selected-id id records u found, here, on, off)
