-- ===== src/AdminConsole/Revocation.antt =====
-- src/admin_console/mod.rs and src/admins.rs: what ends a session.
use pocket_oid.AdminConsole.{AdminStore, Session, granted, check_session}
use pocket_oid.AdminConsole.Admission.{check_session_iff}
use pocket_oid.Admins.{
  AdminRecord, AdminRow, ChangeDraws, PasswordUpdate, changed, change_password, prepare_change,
  update_password, refused, verified, select, is_enabled,
}
use pocket_oid.Admins.Names.{ok, AdminResult-cases}
use pocket_oid.Admins.Passwords.{prepare_change-IsPrepared, refused-unchanged}
use pocket_oid.Admins.Found.{select_holds}
use pocket_oid.Admins.Races.{Statement, run, IsPast, run-IsPast, changed-IsPast}
use pocket_oid.Admins.Table.{IsTable}
use pocket_oid.Base.{ℕ, ◌<◌, ◌≡◌, ◌≢◌, Bool, true, List, [], ◌∷◌, some, arith, All, inl, inr}
use pocket_oid.Outside.{Argon2}
use pocket_oid.Text.{Text, text_eq, text_beq_iff}

updated-IsPast :
    (runs : Bool) (now : Text) (u : PasswordUpdate) (rs : List AdminRow)
    → IsTable rs
    → (update_password runs now u rs).1 ≡ ok changed
    → IsPast u.admin_id u.credential_version (update_password runs now u rs).0
unfolding update_password
updated-IsPast runs now u rs h won = ground (arith, changed-IsPast now u rs h)

-- A changed password leaves its administrator past the version that the row had.
change_password-IsPast :
    (argon2 : Argon2) (draws : ChangeDraws) (id current new : Text) (rs : List AdminRow)
    (r : AdminRow)
    → IsTable rs
    → select (is_enabled id) rs ≡ some r
    → (change_password argon2 draws id current new rs).1 ≡ ok changed
    → IsPast id r.credential_version (change_password argon2 draws id current new rs).0
unfolding change_password
change_password-IsPast argon2 draws id current new rs r h found =
    elim (AdminResult-cases (prepare_change argon2 draws id current new rs)) [
      | inl (cause, e) ↦ rw (e, change_password) (λ won. absurd cc)
      | inr (refused answer, e) ↦
          rw (e, change_password)
            (λ won. absurd (refused-unchanged argon2 draws id current new rs answer e cc))
      | inr (verified u, e) ↦
          rw (e, change_password)
            (λ won.
              let (s, here, (good, differs, fresh, same, version, hash)) =
                prepare_change-IsPrepared argon2 draws id current new rs u e in
              let row : s ≡ r = cc in
              rw (← same, ← row, ← version) (updated-IsPast draws.updates draws.now u rs h won))
    ]

-- No row that is enabled has the version of a session, once every row is past it.
past-absent :
    (id : Text) (v : ℕ) (rs : List AdminRow) (r : AdminRow)
    → All (λ r. r.id ≡ id → v < r.credential_version) rs
    → select (is_enabled id) rs ≡ some r
    → v < r.credential_version
unfolding select
past-absent id v [] r past found = cc
past-absent id v (s ∷ rs) r (p, past) found =
    ground (arith, past-absent id v rs r past, text_beq_iff s.id id)

has_key :
    (id : Text) (rs : List AdminRow) (r : AdminRow) → select (is_enabled id) rs ≡ some r → r.id ≡ id
has_key id rs r found =
    ground (arith, select_holds (is_enabled id) rs r found, text_beq_iff r.id id)

-- A session that the console lets in is never let in again once the password of its
-- administrator has been changed, whatever administrators are created and whatever other passwords
-- are changed after that.
pub change_password-revokes :
    (argon2 : Argon2) (draws : ChangeDraws) (current new : Text) (ss : List Statement)
    (queries : Bool) (store : AdminStore) (s t : Session) (admin later : AdminRecord)
    → IsTable store.rows
    → check_session true (some store) s ≡ granted admin s
    → (change_password argon2 draws admin.id current new store.rows).1 ≡ ok changed
    → check_session queries
        (some (record store {
          rows = run argon2 ss (change_password argon2 draws admin.id current new store.rows).0;
        }))
        s
      ≢ granted later t
change_password-revokes argon2 draws current new ss queries store s t admin later h in_before won
      in_after =
    let (_, (id, r, named, found, version, made), _) =
      (check_session_iff true (some store) s admin s).0 in_before in
    let (_, (key, q, renamed, after, again, _), _) =
      (check_session_iff queries _ s later t).0 in_after in
    let row : r.id ≡ id = has_key id store.rows r found in
    let owner : r.id ≡ admin.id = cc in
    let here : select (is_enabled admin.id) store.rows ≡ some r = cc in
    let rows = run argon2 ss (change_password argon2 draws admin.id current new store.rows).0 in
    let past : IsPast admin.id r.credential_version rows =
      run-IsPast argon2 admin.id r.credential_version ss _
        (change_password-IsPast argon2 draws admin.id current new store.rows r h here won) in
    let kept : select (is_enabled admin.id) rows ≡ some q = cc in
    let newer = past-absent admin.id r.credential_version rows q past.0 kept in
    let same : r.credential_version ≡ q.credential_version = cc in omega (arith, newer, same)
