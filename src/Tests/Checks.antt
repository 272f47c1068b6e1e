-- ===== src/Tests/Checks.antt =====
-- The endpoints' checks at one client.
use pocket_oid.Base.{◌≡◌, ◌↔◌, Bool, true, false, [], ◌∷◌, some, All, contains, is_empty}
use pocket_oid.Handlers.Scopes.{validate_scopes, validate_scopes_iff}
use pocket_oid.HashMap.{get}
use pocket_oid.Http.{ok}
use pocket_oid.Tests.Data.{client}
use pocket_oid.Text.{Text, text_eq, text_beq, codes, split_whitespace, join}
use pocket_oid.Users.{
  PasswordCredential, plain, User, UserStore, UserStoreBackend, authenticate_blocking,
  authenticate_blocking_iff,
}

validate_scopes_iff_example :
    (validate_scopes (some (codes " x")) client ≡ ok (some (codes "x"))) ↔ (
      (is_empty (split_whitespace (codes " x")) ≡ false)
      × All (λ s. contains client.allowed_scopes s ≡ true) (split_whitespace (codes " x"))
      × (some (codes "x") ≡ some (join (b' ' ∷ []) (split_whitespace (codes " x")))))
validate_scopes_iff_example = validate_scopes_iff (codes " x") client (some (codes "x"))

abbrev verify_plain : PasswordCredential → Text → Bool
verify_plain (plain value) password = text_beq value password
verify_plain _ password = false

abbrev user : User
user = record { id = codes "m"; username = codes "m"; credential = plain (codes "h") }

abbrev users : UserStore
users = record {
  backend = UserStoreBackend.file ((codes "m", user) ∷ []);
  dummy_credential = plain (codes "d");
}

authenticate_blocking_iff_example :
    (authenticate_blocking verify_plain users (codes "m") (codes "h") ≡ some (some user)) ↔ (
      (some (get (codes "m") ((codes "m", user) ∷ [])) ≡ some (some user))
      × (text_beq (codes "h") (codes "h") ≡ true))
authenticate_blocking_iff_example =
    authenticate_blocking_iff verify_plain users (codes "m") (codes "h") user
