-- ===== src/Users.antt =====
-- src/users.rs: the users, and the check of a password, for any way to verify one against a
-- credential. The database is an argument; the queue of verifications only delays them.
pub mod Credentials
pub mod Database
pub mod File
pub mod Listing
use pocket_oid.Base.{◌≡◌, ◌↔◌, Bool, true, Option, none, some, arith, if◌then◌else◌}
use pocket_oid.HashMap.{HashMap, get}
use pocket_oid.Text.{Text}

pub data PasswordCredential : Type 0 where
  argon2id sha256 plain : Text → PasswordCredential

pub record User : Type 0 where
  pub id : Text
  pub username : Text
  pub credential : PasswordCredential

-- What the console shows of a user.
pub record UserSummary : Type 0 where
  pub id : Text
  pub username : Text
  pub enabled : Bool

-- A query of the database fails, or finds an enabled user or none.
pub data UserStoreBackend : Type 0 where
  file : HashMap User → UserStoreBackend
  sqlite : (Text → Option (Option User)) → UserStoreBackend

pub record UserStore : Type 0 where
  pub backend : UserStoreBackend
  pub dummy_credential : PasswordCredential

abbrev pub find_user : UserStoreBackend → Text → Option (Option User)
find_user (file users) username = some (get username users)
find_user (sqlite find_enabled_user) username = find_enabled_user username

abbrev pub credential_of : Option User → PasswordCredential → PasswordCredential
credential_of none dummy = dummy
credential_of (some user) dummy = user.credential

module _ (verify_password : PasswordCredential → Text → Bool) where
  check_user : Option User → PasswordCredential → Text → Option User
  check_user user dummy password =
      if verify_password (credential_of user dummy) password then user else none

  -- `none` for an error of the store.
  unfoldable pub authenticate_blocking : UserStore → Text → Text → Option (Option User)
  unfolding check_user
  authenticate_blocking store username password = elim (find_user store.backend username) [
    | none ↦ none
    | some user ↦ some (check_user user store.dummy_credential password)
  ]

  -- A user is authenticated exactly when the store has the user under this name and the user's own
  -- credential verifies the password; the credential that stands in for a missing user never
  -- authenticates anyone.
  pub authenticate_blocking_iff :
      (store : UserStore) (username password : Text) (user : User)
      → (authenticate_blocking store username password ≡ some (some user)) ↔ (
          (find_user store.backend username ≡ some (some user))
          × (verify_password user.credential password ≡ true))
  unfolding authenticate_blocking check_user
  authenticate_blocking_iff store username password user = ground arith
