-- ===== src/Admins.antt =====
-- src/admins.rs: the table of the administrators and the operations on it. SQLite executes one
-- statement at a time, each wholly or not at all; a flag says whether it executes it, since a lock
-- or a file may fail. A credential version, which starts at 1 and counts the changes, is a number:
-- Admins/Versions bounds it by the number of statements, so it stays in the range of the database's
-- integers for fewer than 2 ^ 63 - 1 of them.
pub mod Listing
pub mod Names
pub mod Table
pub mod Races
pub mod Versions
pub mod Found
pub mod Passwords
pub mod Views
pub mod Moves
pub mod Changes
pub mod Creations
pub mod Accounts
use pocket_oid.Base.{
  ℕ, ◌+◌, Bool, true, false, ◌&&◌, ◌||◌, not, List, [], ◌∷◌, Option, none, some, nat_beq,
  if◌then◌else◌, is_empty, any, keep, length, map, ◌==◌,
}
use pocket_oid.Admins.Names.{
  AdminResult, ok, err, empty_password, hashing_failed, database_failed, already_exists, ◌>>=◌,
  ◌>>◌, validate_username, validate_password,
}
use pocket_oid.Outside.{Argon2}
use pocket_oid.Text.{Text, codes, text_eq}

pub record AdminRecord : Type 0 where
  pub id : Text
  pub username : Text
  pub enabled : Bool
  pub created_at : Text
  pub credential_version : ℕ

pub data PasswordChangeResult : Type 0 where
  changed incorrect_current_password password_unchanged : PasswordChangeResult
  account_unavailable credentials_changed : PasswordChangeResult

-- A row of the table `admins`.
pub record AdminRow : Type 0 where
  pub id : Text
  pub username : Text
  pub password_hash : Text
  pub credential_version : ℕ
  pub enabled : Bool
  pub created_at : Text
  pub updated_at : Text

abbrev pub admin_from_row : AdminRow → AdminRecord
admin_from_row row = record {
  id = row.id;
  username = row.username;
  enabled = row.enabled;
  created_at = row.created_at;
  credential_version = row.credential_version;
}

-- `SELECT ... WHERE`, of which `query_row` takes the first row.
unfoldable pub select : (AdminRow → Bool) → List AdminRow → Option AdminRow
select p [] = none
select p (r ∷ rs) = let rest = select p rs in if p r then some r else rest

abbrev pub has_id : Text → AdminRow → Bool
has_id id r = r.id == id

abbrev pub has_username : Text → AdminRow → Bool
has_username username r = r.username == username

abbrev pub is_enabled : Text → AdminRow → Bool
is_enabled id r = has_id id r && r.enabled

abbrev pub record_of : Option AdminRow → Option AdminRecord
record_of none = none
record_of (some row) = some (admin_from_row row)

-- The constraints of the schema that a new row may violate; its version and its flag are the
-- schema's defaults.
unfoldable pub violates : AdminRow → List AdminRow → Bool
violates r rows =
    is_empty r.id
    || is_empty r.username
    || is_empty r.password_hash
    || any (λ s. has_id r.id s || has_username r.username s) rows

-- What a creation draws: the salt, the identifier, the time, and whether the database executes
-- the insertion and the query after it.
pub record CreateDraws : Type 0 where
  pub salt : List ℕ
  pub uuid : Text
  pub now : Text
  pub inserts : Bool
  pub queries : Bool

-- What the first half of a change of a password hands to the second: the parameters of its
-- conditional `UPDATE`.
pub record PasswordUpdate : Type 0 where
  pub admin_id : Text
  pub new_hash : Text
  pub credential_version : ℕ
  pub current_hash : Text

pub data PreparedChange : Type 0 where
  refused : PasswordChangeResult → PreparedChange
  verified : PasswordUpdate → PreparedChange

pub record ChangeDraws : Type 0 where
  pub salt : List ℕ
  pub now : Text
  pub queries : Bool
  pub updates : Bool

unfoldable pub enabled_admin : Bool → Text → List AdminRow → AdminResult (Option AdminRecord)
enabled_admin queries id rows =
    if queries then ok (record_of (select (is_enabled id) rows)) else err database_failed

-- The `WHERE` of the `UPDATE`.
unfoldable pub is_current : PasswordUpdate → AdminRow → Bool
is_current u r =
    is_enabled u.admin_id r
    && nat_beq r.credential_version u.credential_version
    && r.password_hash == u.current_hash

-- The `SET`. The sum is that of the database's integers below 2 ^ 63 - 1.
abbrev pub with_hash : Text → Text → AdminRow → AdminRow
with_hash now hash r = record r {
  password_hash = hash;
  credential_version = r.credential_version + 1;
  updated_at = now;
}

unfoldable pub update_row : Text → PasswordUpdate → AdminRow → AdminRow
unfolding is_current
update_row now u r = if is_current u r then with_hash now u.new_hash r else r

-- The second half: the `UPDATE`, and the answer by the number of rows that it changed.
unfoldable pub update_password :
    Bool → Text → PasswordUpdate → List AdminRow → List AdminRow × AdminResult PasswordChangeResult
unfolding update_row is_current
update_password updates now u rows =
    if not updates || is_empty u.new_hash
    then (rows, err database_failed)
    else if nat_beq (length (keep (is_current u) rows)) 1
    then (map (update_row now u) rows, ok changed)
    else (map (update_row now u) rows, ok credentials_changed)

abbrev pub new_row : CreateDraws → Text → Text → AdminRow
new_row draws username hash = record {
  id = draws.uuid;
  username = username;
  password_hash = hash;
  credential_version = 1;
  enabled = true;
  created_at = draws.now;
  updated_at = draws.now;
}

abbrev pub read_created : Bool → Option AdminRow → AdminResult AdminRecord
read_created queries none = err database_failed
read_created queries (some row) = if queries then ok (admin_from_row row) else err database_failed

-- The insertion, and the query that reads the new row back.
unfoldable pub insert_row :
    CreateDraws → AdminRow → List AdminRow → List AdminRow × AdminResult AdminRecord
unfolding violates
insert_row draws row rows =
    if not draws.inserts
    then (rows, err database_failed)
    else if violates row rows
    then (rows, err (already_exists row.username))
    else (row ∷ rows, read_created draws.queries (select (has_id row.id) (row ∷ rows)))

-- The hash that a password is verified against: a dummy one where there is no enabled row.
abbrev pub hash_of : Option AdminRow → Text → Text
hash_of none dummy = dummy
hash_of (some row) dummy = if row.enabled then row.password_hash else dummy

unfoldable pub check_admin : Option AdminRow → Bool → Option AdminRecord
check_admin none valid = none
check_admin (some row) valid = if valid && row.enabled then some (admin_from_row row) else none

module _ (argon2 : Argon2) where
  unfoldable pub is_argon2id : Text → Bool
  is_argon2id hash = elim (argon2.algorithm hash) [
    | none ↦ false
    | some name ↦ name == codes "argon2id"
  ]

  unfoldable pub verifies : Text → Text → Bool
  unfolding is_argon2id
  verifies password hash = is_argon2id hash && argon2.verify_password password hash

  unfoldable pub hash_password : List ℕ → Text → AdminResult Text
  hash_password salt password = elim (argon2.hash_password salt password) [
    | none ↦ err hashing_failed
    | some hash ↦ ok hash
  ]

  unfoldable pub authenticate :
      Bool → Text → Text → Text → List AdminRow → AdminResult (Option AdminRecord)
  unfolding verifies check_admin
  authenticate queries dummy username password rows =
      let row = select (has_username username) rows in
      if queries
      then ok (check_admin row (verifies password (hash_of row dummy)))
      else err database_failed

  -- The checks of a new administrator, with the hash that it gets.
  unfoldable pub check_new : List ℕ → Text → Text → AdminResult Text
  unfolding hash_password
  check_new salt username password =
      validate_username username >> (validate_password password >> hash_password salt password)

  unfoldable pub create :
      CreateDraws → Text → Text → List AdminRow → List AdminRow × AdminResult AdminRecord
  unfolding check_new
  create draws username password rows = elim (check_new draws.salt username password) [
    | err cause ↦ (rows, err cause)
    | ok hash ↦ insert_row draws (new_row draws username hash) rows
  ]

  -- The first half, once the enabled row is read: the checks, and the new hash.
  unfoldable pub verify_change : List ℕ → Text → Text → Text → AdminRow → AdminResult PreparedChange
  unfolding verifies hash_password
  verify_change salt admin_id current_password new_password row =
      if not (verifies current_password row.password_hash)
      then ok (refused incorrect_current_password)
      else if current_password == new_password
      then ok (refused password_unchanged)
      else hash_password salt new_password >>= λ hash. ok (
          verified (record {
            admin_id = admin_id;
            new_hash = hash;
            credential_version = row.credential_version;
            current_hash = row.password_hash;
          }))

  unfoldable pub prepare_change :
      ChangeDraws → Text → Text → Text → List AdminRow → AdminResult PreparedChange
  unfolding verify_change
  prepare_change draws admin_id current_password new_password rows =
      validate_password new_password
      >> (if not draws.queries
          then err database_failed
          else elim (select (is_enabled admin_id) rows) [
            | none ↦ ok (refused account_unavailable)
            | some row ↦ verify_change draws.salt admin_id current_password new_password row
          ])

  -- Both halves, when nothing happens between them.
  unfoldable pub change_password :
      ChangeDraws
      → Text
      → Text
      → Text
      → List AdminRow
      → List AdminRow × AdminResult PasswordChangeResult
  unfolding prepare_change
  change_password draws admin_id current_password new_password rows =
      elim (prepare_change draws admin_id current_password new_password rows) [
        | err cause ↦ (rows, err cause)
        | ok (refused answer) ↦ (rows, ok answer)
        | ok (verified u) ↦ update_password draws.updates draws.now u rows
      ]
