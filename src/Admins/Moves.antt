-- ===== src/Admins/Moves.antt =====
-- src/admins.rs: what each statement does to the accounts that the table implements.
use pocket_oid.Base.{◌≡◌, ◌≢◌, Bool, true, false, none, some, is_empty, ◌+◌, ◌<◌, ◌≤◌, length, All}
use pocket_oid.Admins.{PasswordUpdate, CreateDraws}
use pocket_oid.Admins.Names.{is_control}
use pocket_oid.Admins.Races.{Statement, creates, updates}
use pocket_oid.Admins.Views.{Account, Accounts, put}
use pocket_oid.Outside.{Argon2}
use pocket_oid.Text.{Text, text_eq, trim}

-- From 1 to 128 characters, no control character, and no white space at the ends.
abbrev pub IsName : Text → Type 0
IsName s = (0 < length s) × (length s ≤ 128) × (trim s ≡ s) × All (λ c. is_control c ≡ false) s

abbrev pub first_account : Text → Text → Account
first_account username hash = record {
  username = username;
  password_hash = hash;
  credential_version = 1;
  enabled = true;
}

abbrev pub changed_account : Text → Account → Account
changed_account hash a = record a {
  password_hash = hash;
  credential_version = a.credential_version + 1;
}

-- What the creation of an account asks for: an insertion that the database executes, a proper name
-- that no account has, a password, its hash, and an identifier that no account has.
pub record IsCreatable (argon2 : Argon2) (draws : CreateDraws) (username password hash : Text)
    (v : Accounts) : Type 0 where
  pub inserts : draws.inserts ≡ true
  pub name : IsName username
  pub filled : is_empty password ≡ false
  pub hashed : argon2.hash_password draws.salt password ≡ some hash
  pub has_hash : is_empty hash ≡ false
  pub has_id : is_empty draws.uuid ≡ false
  pub free_id : v draws.uuid ≡ none
  pub free_name : (k : Text) (b : Account) → v k ≡ some b → b.username ≢ username

-- What a change of a password asks for: an update that the database executes, and an account that
-- is enabled and still has the version and the hash that were verified.
pub record IsVerified (runs : Bool) (u : PasswordUpdate) (a : Account) (v : Accounts) : Type 0 where
  pub executed : runs ≡ true
  pub has_hash : is_empty u.new_hash ≡ false
  pub there : v u.admin_id ≡ some a
  pub enabled : a.enabled ≡ true
  pub version : a.credential_version ≡ u.credential_version
  pub hash : a.password_hash ≡ u.current_hash

-- What a statement does to the accounts. A creation adds the enabled account at version 1, with the
-- drawn identifier and the hash of the password, and a change gives the verified account the new
-- hash and the next version, each exactly if what it asks for is there; otherwise the accounts stay
-- as they are.
pub data Move (argon2 : Argon2) (v w : Accounts) : Statement → Type 0 where
  adds :
      (draws : CreateDraws) (username password hash : Text)
      → IsCreatable argon2 draws username password hash v
      → ((k : Text) → w k ≡ put draws.uuid (first_account username hash) v k)
      → Move argon2 v w (creates draws username password)
  refuses :
      (draws : CreateDraws) (username password : Text)
      → ((hash : Text) → ¬ IsCreatable argon2 draws username password hash v)
      → ((k : Text) → w k ≡ v k)
      → Move argon2 v w (creates draws username password)
  rotates :
      (runs : Bool) (now : Text) (u : PasswordUpdate) (a : Account)
      → IsVerified runs u a v
      → ((k : Text) → w k ≡ put u.admin_id (changed_account u.new_hash a) v k)
      → Move argon2 v w (updates runs now u)
  keeps :
      (runs : Bool) (now : Text) (u : PasswordUpdate)
      → ((a : Account) → ¬ IsVerified runs u a v)
      → ((k : Text) → w k ≡ v k)
      → Move argon2 v w (updates runs now u)
