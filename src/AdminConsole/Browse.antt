-- ===== src/AdminConsole/Browse.antt =====
-- src/admin_console/mod.rs: the pages that only show something.
use pocket_oid.AdminConsole.{
  AdminConsole, Session, Visit, granted, denied, denied_reply, authorized,
}
use pocket_oid.AdminConsole.Replies.{Reply, View, redirect_to, show, status_only, file}
use pocket_oid.AdminConsole.Selection.{Selection, matches_user, url}
use pocket_oid.AdminConsole.Summary.{ClientSummary}
use pocket_oid.Admins.{AdminRecord}
use pocket_oid.Base.{Bool, false, not, List, [], ◌∷◌, Option, none, some, if◌then◌else◌, any, ◌==◌}
use pocket_oid.HashMap.{get}
use pocket_oid.Text.{Text, text_eq, codes}
use pocket_oid.Users.{UserSummary}

abbrev missing_client : Option Text → List ClientSummary → Bool
missing_client none clients = false
missing_client (some id) clients = not (any (λ (c : ClientSummary). c.id == id) clients)

unfoldable pub clients_reply : AdminRecord → Session → List ClientSummary → Selection → Reply
clients_reply admin session clients selection =
    show (if missing_client selection.id clients then 404 else 200)
      (View.clients admin.username session.csrf selection.id)

unfoldable pub clients :
    Visit → List ClientSummary → Selection → AdminConsole → AdminConsole × Reply
unfolding clients_reply
clients visit known selection console =
    let (after, access) = authorized visit console in
    elim access [
      | denied cause ↦ (after, denied_reply cause)
      | granted admin session ↦ (after, clients_reply admin session known selection)
    ]

-- The first user of the selected identifier.
unfoldable pub find_selected : Option Text → List UserSummary → Option UserSummary
find_selected none users = none
find_selected (some id) [] = none
find_selected (some id) (u ∷ us) =
    let rest = find_selected (some id) us in if u.id == id then some u else rest

abbrev missing_user : Option Text → List UserSummary → Bool
missing_user none users = false
missing_user (some id) users = not (any (λ (u : UserSummary). u.id == id) users)

module _ (to_lowercase byte_serialize : Text → Text) where
  abbrev listed_users : AdminRecord → Session → List UserSummary → Selection → Reply
  listed_users admin session records selection =
      show (if missing_user selection.id records then 404 else 200)
        (View.users admin.username session.csrf selection.id)

  -- No records where the store cannot be read.
  unfoldable pub users_reply : AdminRecord → Session → Option (List UserSummary) → Selection → Reply
  unfolding find_selected
  users_reply admin session none selection =
      show 503 (View.users admin.username session.csrf selection.id)
  users_reply admin session (some records) selection = elim (find_selected selection.id records) [
    | none ↦ listed_users admin session records selection
    | some user ↦
        if matches_user to_lowercase selection user
        then listed_users admin session records selection
        else redirect_to (url byte_serialize selection (codes "users") none)
  ]

  unfoldable pub users :
      Visit → Option (List UserSummary) → Selection → AdminConsole → AdminConsole × Reply
  unfolding users_reply
  users visit records selection console =
      let (after, access) = authorized visit console in
      elim access [
        | denied cause ↦ (after, denied_reply cause)
        | granted admin session ↦ (after, users_reply admin session records selection)
      ]

unfoldable pub provider : Visit → AdminConsole → AdminConsole × Reply
provider visit console =
    let (after, access) = authorized visit console in
    elim access [
      | denied cause ↦ (after, denied_reply cause)
      | granted admin session ↦ (after, show 200 (View.provider admin.username session.csrf))
    ]

unfoldable pub login_preview : Visit → AdminConsole → AdminConsole × Reply
login_preview visit console =
    let (after, access) = authorized visit console in
    elim access [
      | denied cause ↦ (after, denied_reply cause)
      | granted admin session ↦ (after, show 200 View.login_preview)
    ]

-- The files that are compiled in, with their content types.
abbrev svg : Text
svg = codes "image/svg+xml"

abbrev font : Text
font = codes "font/woff2"

abbrev asset_kinds : List (Text × Text)
asset_kinds =
    (codes "console.css", codes "text/css; charset=utf-8")
    ∷ (codes "console.js", codes "text/javascript; charset=utf-8")
    ∷ (codes "logo.svg", svg)
    ∷ (codes "inter-400.woff2", font)
    ∷ (codes "inter-500.woff2", font)
    ∷ (codes "inter-600.woff2", font)
    ∷ (codes "inter-700.woff2", font)
    ∷ (codes "clients.svg", svg)
    ∷ (codes "users.svg", svg)
    ∷ (codes "provider.svg", svg)
    ∷ (codes "search.svg", svg)
    ∷ (codes "close.svg", svg)
    ∷ (codes "chevron.svg", svg)
    ∷ (codes "enabled.svg", svg)
    ∷ (codes "disabled.svg", svg)
    ∷ (codes "menu.svg", svg)
    ∷ (codes "logout.svg", svg)
    ∷ (codes "password.svg", svg)
    ∷ []

unfoldable pub asset : Text → Reply
asset name = elim (get name asset_kinds) [
  | none ↦ status_only 404
  | some kind ↦ record (status_only 200) { content = file name kind }
]
