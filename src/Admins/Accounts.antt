-- ===== src/Admins/Accounts.antt =====
-- src/admins.rs: the table implements the accounts.
use pocket_oid.Admins.Moves.{Move}
use pocket_oid.Admins.Changes.{updates-Move}
use pocket_oid.Admins.Creations.{creates-Move}
use pocket_oid.Base.{List}
use pocket_oid.Admins.{AdminRow}
use pocket_oid.Admins.Races.{Statement, creates, updates, perform}
use pocket_oid.Admins.Table.{IsTable}
use pocket_oid.Admins.Views.{view}
use pocket_oid.Outside.{Argon2}
use pocket_oid.Text.{text_eq}

module _ (argon2 : Argon2) where
  -- The table, in which identifiers and names are unique, refines the accounts: a creation adds
  -- exactly the account that is asked for, enabled and at version 1, if the name, the password, the
  -- identifier and the database allow it; a change of a password gives the verified account the new
  -- hash and the next version exactly if that account is enabled and still has the version and the
  -- hash that were verified; and otherwise no account changes.
  pub perform-Move :
      (s : Statement) (rs : List AdminRow)
      → IsTable rs
      → Move argon2 (view rs) (view (perform argon2 s rs)) s
  unfolding perform
  perform-Move (creates draws username password) rs h =
      creates-Move argon2 draws username password rs h
  perform-Move (updates runs now u) rs h = updates-Move argon2 runs now u rs
