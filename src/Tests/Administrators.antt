-- ===== src/Tests/Administrators.antt =====
-- The theorems on the administrators' store, at a table of one administrator.
use pocket_oid.Admins.{
  enabled_admin, insert_row, AdminRecord, AdminRow, CreateDraws, ChangeDraws, PasswordUpdate,
  admin_from_row, authenticate, change_password, changed, create, credentials_changed, has_username,
  is_enabled, select, update_password, verifies,
}
use pocket_oid.Admins.Views.{view}
use pocket_oid.Admins.Accounts.{perform-Move}
use pocket_oid.Admins.Moves.{Move}
use pocket_oid.Admins.Names.{validate_password, ok, is_control, validate_username}
use pocket_oid.Admins.Passwords.{create-authenticate, change_password-authenticate}
use pocket_oid.Admins.Races.{
  Statement, creates, updates, perform, run-IsTable, update_password_once,
}
use pocket_oid.Admins.Table.{IsTable}
use pocket_oid.Base.{
  ℕ, ◌+◌, ◌≡◌, ◌≢◌, refl, Bool, true, false, [], ◌∷◌, Option, some, arith, is_empty, List,
}
use pocket_oid.Outside.{Argon2}
use pocket_oid.Text.{is_whitespace, trim_start, trim_end, Text, text_beq, text_beq_iff, codes}

-- A hash is here the password with a mark before it.
abbrev mark_hash : List ℕ → Text → Option Text
mark_hash salt password = some (b'$' ∷ password)

abbrev verify_mark : Text → Text → Bool
verify_mark password [] = false
verify_mark password (c ∷ hash) = text_beq password hash

pub mark_hash_lem :
    (salt : List ℕ) (password hash : Text)
    → mark_hash salt password ≡ some hash
    → (some (codes "argon2id") ≡ some (codes "argon2id"))
      × (verify_mark password hash ≡ true)
      × (is_empty hash ≡ false)
mark_hash_lem salt password [] h = cc
mark_hash_lem salt password (c ∷ hash) h = (refl, (text_beq_iff password hash).1 cc, refl)

abbrev pub argon2 : Argon2
argon2 = record {
  algorithm = λ hash. some (codes "argon2id");
  verify_password = verify_mark;
  hash_password = mark_hash;
  hash_password_lem = mark_hash_lem;
}

abbrev pub row : AdminRow
row = record {
  id = codes "1";
  username = codes "a";
  password_hash = codes "$p";
  credential_version = 1;
  enabled = true;
  created_at = codes "t";
  updated_at = codes "t";
}

abbrev pub rows : List AdminRow
rows = row ∷ []

pub rows-IsTable : IsTable rows
rows-IsTable = ((refl, refl, refl, omega arith), tt, tt)

abbrev create_draws : CreateDraws
create_draws = record {
  salt = [];
  uuid = codes "2";
  now = codes "t";
  inserts = true;
  queries = true;
}

abbrev pub change_draws : ChangeDraws
change_draws = record { salt = []; now = codes "t"; queries = true; updates = true }

abbrev new_admin : AdminRecord
new_admin = record {
  id = codes "2";
  username = codes "b";
  enabled = true;
  created_at = codes "t";
  credential_version = 1;
}

abbrev update : PasswordUpdate
update = record {
  admin_id = codes "1";
  new_hash = codes "$q";
  credential_version = 1;
  current_hash = codes "$p";
}

abbrev other_update : PasswordUpdate
other_update = record update { new_hash = codes "$r" }

abbrev pub creation : List Statement
creation = creates create_draws (codes "b") (codes "x") ∷ []

update_password_once_example :
    (update_password true (codes "t") other_update (
      pocket_oid.Admins.Races.run argon2 creation
        (update_password true (codes "t") update rows).0)).1
    ≡ ok credentials_changed
unfolding update_password text_beq
update_password_once_example =
    update_password_once argon2 (codes "t") (codes "t") update other_update creation rows
      rows-IsTable refl refl refl refl

run-IsTable_example :
    IsTable (pocket_oid.Admins.Races.run argon2 (updates true (codes "t") update ∷ creation) rows)
run-IsTable_example =
    run-IsTable argon2 (updates true (codes "t") update ∷ creation) rows rows-IsTable

perform-Move_example :
    Move argon2
      (view rows)
      (view (perform argon2 (updates true (codes "t") update) rows))
      (updates true (codes "t") update)
perform-Move_example = perform-Move argon2 (updates true (codes "t") update) rows rows-IsTable

create-authenticate_example :
    authenticate argon2 true
      (codes "d")
      (codes "b")
      (codes "x")
      (create argon2 create_draws (codes "b") (codes "x") rows).0
    ≡ ok (some new_admin)
unfolding create validate_username trim_end trim_start is_whitespace text_beq is_control
    validate_password insert_row select
create-authenticate_example =
    create-authenticate argon2 create_draws (codes "d") (codes "b") (codes "x") rows new_admin refl

change_password-authenticate_example :
    (r : AdminRow) × (select (is_enabled (codes "1")) rows ≡ some r)
    × (verifies argon2 (codes "p") r.password_hash ≡ true)
    × (codes "p" ≢ codes "q")
    × (authenticate argon2 true
          (codes "d")
          r.username
          (codes "q")
          (change_password argon2 change_draws (codes "1") (codes "p") (codes "q") rows).0
        ≡ ok (some (record (admin_from_row r) { credential_version = r.credential_version + 1 })))
unfolding change_password validate_password select text_beq update_password
change_password-authenticate_example =
    change_password-authenticate argon2 change_draws (codes "d") (codes "1") (codes "p") (codes "q")
      rows rows-IsTable refl
