-- ===== src/Admins/Passwords.antt =====
-- src/admins.rs: who is authenticated, and with which password after a creation or a change.
use pocket_oid.Base.{
  ℕ, ◌+◌, ◌≡◌, refl, ap, ◌≢◌, ◌↔◌, Bool, true, List, Option, none, some, arith, map, Option-cases,
  inl, inr,
}
use pocket_oid.Admins.{
  AdminRow, AdminRecord, admin_from_row, PasswordUpdate, PasswordChangeResult, CreateDraws,
  ChangeDraws, changed, select, has_username, is_enabled, is_current, update_row, update_password,
  insert_row, new_row, create, check_new, verifies, is_argon2id, check_admin, hash_of, authenticate,
  change_password, prepare_change, verify_change, verified, refused, hash_password,
}
use pocket_oid.Admins.Names.{ok, AdminResult-cases}
use pocket_oid.Admins.Table.{IsTable, select-map}
use pocket_oid.Outside.{Argon2}
use pocket_oid.Text.{Text, codes, text_eq, text_beq_iff}
use pocket_oid.Admins.Found.{select-username, update_row-username, updated_current}

module _ (argon2 : Argon2) where
  verifies_iff :
      (password hash : Text)
      → (verifies argon2 password hash ≡ true) ↔ (
          (argon2.algorithm hash ≡ some (codes "argon2id"))
          × (argon2.verify_password password hash ≡ true))
  unfolding verifies is_argon2id
  verifies_iff password hash = elim (Option-cases (argon2.algorithm hash)) [
    | inl e ↦ rw (e) ((λ h. cc), (λ h. cc h.0))
    | inr (name, e) ↦ ground (arith, e, text_beq_iff name (codes "argon2id"))
  ]

  check_admin_iff :
      (dummy password : Text) (r : AdminRow) (admin : AdminRecord)
      → (check_admin (some r) (verifies argon2 password (hash_of (some r) dummy)) ≡ some admin) ↔ (
          (r.enabled ≡ true)
          × (verifies argon2 password r.password_hash ≡ true)
          × (admin ≡ admin_from_row r))
  unfolding check_admin
  check_admin_iff dummy password r admin = ground arith

  authenticate_row :
      (dummy password : Text) (o : Option AdminRow) (admin : AdminRecord)
      → (check_admin o (verifies argon2 password (hash_of o dummy)) ≡ some admin) ↔ (
          (r : AdminRow) × (o ≡ some r)
          × (r.enabled ≡ true)
          × (argon2.algorithm r.password_hash ≡ some (codes "argon2id"))
          × (argon2.verify_password password r.password_hash ≡ true)
          × (admin ≡ admin_from_row r))
  unfolding check_admin
  authenticate_row dummy password none admin = ((λ h. cc), (λ h. cc h.1))
  authenticate_row dummy password (some r) admin = (
    (λ h.
        let (enabled, good, same) = (check_admin_iff dummy password r admin).0 h in
        let (named, matched) = (verifies_iff password r.password_hash).0 good in
        (r, refl, enabled, named, matched, same)),
    (λ (s, e, enabled, named, matched, same).
        (check_admin_iff dummy password r admin).1
          (ground arith, (verifies_iff password r.password_hash).1 (cc, cc), cc)),
  )

  -- An administrator is authenticated exactly when the first row of this name is enabled and its
  -- own hash is an argon2id hash that the password verifies against: the dummy hash, which stands in
  -- for a missing or a disabled row, authenticates nobody.
  pub authenticate_iff :
      (dummy username password : Text) (rs : List AdminRow) (admin : AdminRecord)
      → (authenticate argon2 true dummy username password rs ≡ ok (some admin)) ↔ (
          (r : AdminRow) × (select (has_username username) rs ≡ some r)
          × (r.enabled ≡ true)
          × (argon2.algorithm r.password_hash ≡ some (codes "argon2id"))
          × (argon2.verify_password password r.password_hash ≡ true)
          × (admin ≡ admin_from_row r))
  unfolding authenticate
  authenticate_iff dummy username password rs admin =
      let (to, from) = authenticate_row dummy password (select (has_username username) rs) admin in
      ((λ h. to cc), (λ h. ap ok (from h)))

  hash-verifies :
      (salt : List ℕ) (password hash : Text)
      → hash_password argon2 salt password ≡ ok hash
      → verifies argon2 password hash ≡ true
  unfolding hash_password
  hash-verifies salt password hash h =
      ground (arith, argon2.hash_password_lem salt password hash, verifies_iff password hash)

  check_new-verifies :
      (salt : List ℕ) (username password hash : Text)
      → check_new argon2 salt username password ≡ ok hash
      → verifies argon2 password hash ≡ true
  unfolding check_new
  check_new-verifies salt username password hash h =
      ground (arith, hash-verifies salt password hash)

  inserted-authenticates :
      (draws : CreateDraws) (dummy username password hash : Text) (rs : List AdminRow)
      (admin : AdminRecord)
      → verifies argon2 password hash ≡ true
      → (insert_row draws (new_row draws username hash) rs).1 ≡ ok admin
      → authenticate argon2 true dummy username password
          (insert_row draws (new_row draws username hash) rs).0
        ≡ ok (some admin)
  unfolding insert_row authenticate check_admin select
  inserted-authenticates draws dummy username password hash rs admin good h =
      ground (arith, text_beq_iff draws.uuid draws.uuid, text_beq_iff username username)

  -- An administrator who is created is authenticated by the name and the password given.
  pub create-authenticate :
      (draws : CreateDraws) (dummy username password : Text) (rs : List AdminRow)
      (admin : AdminRecord)
      → (create argon2 draws username password rs).1 ≡ ok admin
      → authenticate argon2 true dummy username password
          (create argon2 draws username password rs).0
        ≡ ok (some admin)
  unfolding create
  create-authenticate draws dummy username password rs admin =
      elim (AdminResult-cases (check_new argon2 draws.salt username password)) [
        | inl (cause, e) ↦ rw (e, create) (λ h. cc)
        | inr (hash, e) ↦
            rw (e, create)
              (inserted-authenticates draws dummy username password hash rs admin
                (check_new-verifies draws.salt username password hash e))
      ]

  -- What a prepared change rests on: the enabled row, whose hash the current password verifies
  -- against, and a hash of the new one.
  abbrev pub IsPrepared : Text → Text → Text → AdminRow → PasswordUpdate → Type 0
  IsPrepared id current new r u =
      (verifies argon2 current r.password_hash ≡ true)
      × (current ≢ new)
      × (verifies argon2 new u.new_hash ≡ true)
      × (u.admin_id ≡ id)
      × (u.credential_version ≡ r.credential_version)
      × (u.current_hash ≡ r.password_hash)

  verify_change-IsPrepared :
      (salt : List ℕ) (id current new : Text) (r : AdminRow) (u : PasswordUpdate)
      → verify_change argon2 salt id current new r ≡ ok (verified u)
      → IsPrepared id current new r u
  unfolding verify_change
  verify_change-IsPrepared salt id current new r u h =
      ground (arith, hash-verifies salt new u.new_hash, text_beq_iff current new)

  pub prepare_change-IsPrepared :
      (draws : ChangeDraws) (id current new : Text) (rs : List AdminRow) (u : PasswordUpdate)
      → prepare_change argon2 draws id current new rs ≡ ok (verified u)
      → (r : AdminRow) × (select (is_enabled id) rs ≡ some r) × IsPrepared id current new r u
  unfolding prepare_change
  prepare_change-IsPrepared draws id current new rs u =
      elim (Option-cases (select (is_enabled id) rs)) [
        | inl e ↦ rw (e, prepare_change) (λ h. absurd (ground arith))
        | inr (r, e) ↦
            λ h. (r, e, verify_change-IsPrepared draws.salt id current new r u (ground arith))
      ]

  pub refused-unchanged :
      (draws : ChangeDraws) (id current new : Text) (rs : List AdminRow)
      (answer : PasswordChangeResult)
      → prepare_change argon2 draws id current new rs ≡ ok (refused answer)
      → answer ≢ changed
  unfolding prepare_change verify_change hash_password
  refused-unchanged draws id current new rs answer e = ground arith

  authenticate_new :
      (now dummy new : Text) (u : PasswordUpdate) (rs : List AdminRow) (r : AdminRow)
      → is_current u r ≡ true
      → verifies argon2 new u.new_hash ≡ true
      → select (has_username r.username) (map (update_row now u) rs) ≡ some (update_row now u r)
      → authenticate argon2 true dummy r.username new (map (update_row now u) rs)
        ≡ ok (some (record (admin_from_row r) { credential_version = r.credential_version + 1 }))
  unfolding authenticate check_admin update_row is_current
  authenticate_new now dummy new u rs r current fresh found = ground arith

  updated-authenticate :
      (runs : Bool) (now dummy new : Text) (u : PasswordUpdate) (rs : List AdminRow) (r : AdminRow)
      → IsTable rs
      → select (is_enabled u.admin_id) rs ≡ some r
      → verifies argon2 new u.new_hash ≡ true
      → (update_password runs now u rs).1 ≡ ok changed
      → authenticate argon2 true dummy r.username new (update_password runs now u rs).0
        ≡ ok (some (record (admin_from_row r) { credential_version = r.credential_version + 1 }))
  unfolding update_password
  updated-authenticate runs now dummy new u rs r h found fresh won =
      let named = select-username (is_enabled u.admin_id) rs r h found in
      let after =
        select-map (has_username r.username) (update_row now u) rs
          (λ s. update_row-username now u r.username s) r named in
      ground (
        arith,
        updated_current u rs r h,
        λ (current : is_current u r ≡ true).
            authenticate_new now dummy new u rs r current fresh after,
      )

  -- A password that is changed was the current one, differs from the new one, and leaves the
  -- administrator with the new one, at the next credential version.
  pub change_password-authenticate :
      (draws : ChangeDraws) (dummy id current new : Text) (rs : List AdminRow)
      → IsTable rs
      → (change_password argon2 draws id current new rs).1 ≡ ok changed
      → (r : AdminRow) × (select (is_enabled id) rs ≡ some r)
        × (verifies argon2 current r.password_hash ≡ true)
        × (current ≢ new)
        × (authenticate argon2 true dummy r.username new
              (change_password argon2 draws id current new rs).0
            ≡ ok (
                some (record (admin_from_row r) { credential_version = r.credential_version + 1 })))
  unfolding change_password
  change_password-authenticate draws dummy id current new rs h =
      elim (AdminResult-cases (prepare_change argon2 draws id current new rs)) [
        | inl (cause, e) ↦ rw (e, change_password) (λ h. absurd cc)
        | inr (refused answer, e) ↦
            rw (e, change_password)
              (λ h. absurd (refused-unchanged draws id current new rs answer e cc))
        | inr (verified u, e) ↦
            rw (e, change_password)
              (λ won.
                let (r, found, (good, differs, fresh, same, version, hash)) =
                  prepare_change-IsPrepared draws id current new rs u e in
                let here : select (is_enabled u.admin_id) rs ≡ some r = cc in
                (
                  r,
                  found,
                  good,
                  differs,
                  updated-authenticate draws.updates draws.now dummy new u rs r h here fresh won,
                ))
      ]
