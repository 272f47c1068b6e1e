-- ===== src/Admins/Races.antt =====
-- src/admins.rs: changes of passwords that overlap, as sequences of the statements that change the
-- table.
use pocket_oid.Base.{
  ℕ, ◌≤◌, ◌<◌, ◌≡◌, refl, ◌≢◌, Bool, true, false, is_empty, ◌||◌, List, [], ◌∷◌, arith, map, any,
  keep, length, All, Bool-cases, inl, inr,
}
use pocket_oid.Admins.{
  AdminRow, PasswordUpdate, CreateDraws, changed, credentials_changed, has_id, has_username,
  violates, is_current, update_row, update_password, new_row, create,
}
use pocket_oid.Admins.Names.{ok}
use pocket_oid.Admins.Table.{
  IsApart, IsTable, create_cases, update_password_cases, violates-IsTable, map-IsTable,
}
use pocket_oid.Outside.{Argon2}
use pocket_oid.Text.{Text, text_eq, text_beq_iff}

-- The statements that requests execute in any order: creations, and the second halves of changes.
pub data Statement : Type 0 where
  creates : CreateDraws → Text → Text → Statement
  updates : Bool → Text → PasswordUpdate → Statement

module _ (argon2 : Argon2) where
  unfoldable pub perform : Statement → List AdminRow → List AdminRow
  perform (creates draws username password) rs = (create argon2 draws username password rs).0
  perform (updates runs now u) rs = (update_password runs now u rs).0

  unfoldable pub run : List Statement → List AdminRow → List AdminRow
  unfolding perform
  run [] rs = rs
  run (s ∷ ss) rs = run ss (perform s rs)

-- Every row of this identifier is past this version, and there is such a row.
abbrev pub IsPast : Text → ℕ → List AdminRow → Type 0
IsPast id v rs = All (λ r. r.id ≡ id → v < r.credential_version) rs × (any (has_id id) rs ≡ true)

-- What a statement does to the table.
pub perform_cases {ℓ} :
    (P : List AdminRow → Type ℓ) (argon2 : Argon2) (s : Statement) (rs : List AdminRow)
    → P rs
    → ((r : AdminRow) → violates r rs ≡ false → r.credential_version ≡ 1 → P (r ∷ rs))
    → ((now : Text) (u : PasswordUpdate)
        → is_empty u.new_hash ≡ false
        → P (map (update_row now u) rs))
    → P (perform argon2 s rs)
unfolding perform
perform_cases P argon2 (creates draws username password) rs same added updated =
    create_cases P argon2 draws username password rs same
      (λ hash free. added (new_row draws username hash) free refl)
perform_cases P argon2 (updates runs now u) rs same added updated =
    update_password_cases P runs now u rs same (updated now u)

-- Every order of statements keeps the schema's constraints: identifiers and names are unique, and
-- none of them, nor a hash, is empty.
pub run-IsTable :
    (argon2 : Argon2) (ss : List Statement) (rs : List AdminRow)
    → IsTable rs
    → IsTable (run argon2 ss rs)
unfolding run
run-IsTable argon2 [] rs h = h
run-IsTable argon2 (s ∷ ss) rs h = run-IsTable argon2 ss (perform argon2 s rs) (
    perform_cases IsTable argon2 s rs h
      (λ r free first. violates-IsTable r rs (omega (arith, first)) free h)
      (λ now u filled. map-IsTable now u rs filled h))

any-or :
    (id : Text) (r : AdminRow) (rs : List AdminRow)
    → any (has_id id) rs ≡ true
    → any (λ s. has_id r.id s || has_username r.username s) rs ≡ false
    → r.id ≢ id
any-or id r [] found free = λ e. cc
any-or id r (s ∷ rs) found free =
    ground (arith, any-or id r rs, text_beq_iff s.id id, text_beq_iff s.id r.id)

IsPast-added :
    (id : Text) (v : ℕ) (r : AdminRow) (rs : List AdminRow)
    → violates r rs ≡ false
    → IsPast id v rs
    → IsPast id v (r ∷ rs)
unfolding violates
IsPast-added id v r rs free h = ground (arith, any-or id r rs)

pub update_row-id :
    (now : Text) (u : PasswordUpdate) (r : AdminRow) → (update_row now u r).id ≡ r.id
unfolding update_row
update_row-id now u r = ground arith

update_row-version :
    (now : Text) (u : PasswordUpdate) (r : AdminRow)
    → r.credential_version ≤ (update_row now u r).credential_version
unfolding update_row
update_row-version now u r = ground arith

IsPast-updated :
    (id : Text) (v : ℕ) (now : Text) (u : PasswordUpdate) (rs : List AdminRow)
    → IsPast id v rs
    → IsPast id v (map (update_row now u) rs)
IsPast-updated id v now u [] h = h
IsPast-updated id v now u (r ∷ rs) h =
    ground (arith, still rs, all_past rs, update_row-id now u r, update_row-version now u r)
  where
    all_past :
        (rs : List AdminRow)
        → All (λ r. r.id ≡ id → v < r.credential_version) rs
        → All (λ r. r.id ≡ id → v < r.credential_version) (map (update_row now u) rs)
    all_past [] h = tt
    all_past (r ∷ rs) (h, hs) =
        (ground (arith, update_row-id now u r, update_row-version now u r), all_past rs hs)

    still :
        (rs : List AdminRow)
        → any (has_id id) rs ≡ true
        → any (has_id id) (map (update_row now u) rs) ≡ true
    still [] h = h
    still (r ∷ rs) h = ground (arith, still rs, update_row-id now u r)

is_current-row :
    (now : Text) (u : PasswordUpdate) (r : AdminRow)
    → is_current u r ≡ true
    → (r.id ≡ u.admin_id)
      × ((update_row now u r).id ≡ u.admin_id)
      × (u.credential_version < (update_row now u r).credential_version)
unfolding is_current update_row
is_current-row now u r h = ground (arith, text_beq_iff r.id u.admin_id)

pub run-IsPast :
    (argon2 : Argon2) (id : Text) (v : ℕ) (ss : List Statement) (rs : List AdminRow)
    → IsPast id v rs
    → IsPast id v (run argon2 ss rs)
unfolding run
run-IsPast argon2 id v [] rs h = h
run-IsPast argon2 id v (s ∷ ss) rs h = run-IsPast argon2 id v ss (perform argon2 s rs) (
    perform_cases (IsPast id v) argon2 s rs h (λ r free first. IsPast-added id v r rs free h)
      (λ now u filled. IsPast-updated id v now u rs h))

-- Where every row of the identifier is past the version, no row is the one that was verified.
past-stale :
    (u : PasswordUpdate) (v : ℕ) (rs : List AdminRow)
    → u.credential_version ≤ v
    → All (λ r. r.id ≡ u.admin_id → v < r.credential_version) rs
    → length (keep (is_current u) rs) ≡ 0
unfolding is_current
past-stale u v [] old h = refl
past-stale u v (r ∷ rs) old (h, hs) =
    ground (arith, past-stale u v rs old hs, text_beq_iff r.id u.admin_id)

any-map :
    (id : Text) (now : Text) (u : PasswordUpdate) (rs : List AdminRow)
    → any (has_id id) (map (update_row now u) rs) ≡ any (has_id id) rs
any-map id now u [] = refl
any-map id now u (r ∷ rs) = ground (arith, any-map id now u rs, update_row-id now u r)

apart-absent :
    (id : Text) (r : AdminRow) (rs : List AdminRow)
    → r.id ≡ id
    → All (IsApart r) rs
    → any (has_id id) rs ≡ false
apart-absent id r [] same h = refl
apart-absent id r (s ∷ rs) same (h, hs) =
    ground (arith, apart-absent id r rs same hs, text_beq_iff s.id id)

absent-past :
    (id : Text) (v : ℕ) (rs : List AdminRow)
    → any (has_id id) rs ≡ false
    → All (λ r. r.id ≡ id → v < r.credential_version) rs
absent-past id v [] h = tt
absent-past id v (r ∷ rs) h = ground (arith, absent-past id v rs, text_beq_iff r.id id)

-- A change that succeeds leaves every row of its administrator past the version it started from.
pub changed-IsPast :
    (now : Text) (u : PasswordUpdate) (rs : List AdminRow)
    → IsTable rs
    → length (keep (is_current u) rs) ≡ 1
    → IsPast u.admin_id u.credential_version (map (update_row now u) rs)
changed-IsPast now u [] h one = absurd (omega (arith, one))
changed-IsPast now u (r ∷ rs) (row, apart, h) one = elim (Bool-cases (is_current u r)) [
  | inl e ↦ current e
  | inr e ↦ other e (changed-IsPast now u rs h (ground (arith, e, one)))
]
  where
    current :
        is_current u r ≡ true
        → IsPast u.admin_id u.credential_version (map (update_row now u) (r ∷ rs))
    current e = ground (
      arith,
      is_current-row now u r e,
      any-map u.admin_id now u rs,
      λ (e : r.id ≡ u.admin_id). apart-absent u.admin_id r rs e apart,
      text_beq_iff (update_row now u r).id u.admin_id,
      absent-past u.admin_id u.credential_version (map (update_row now u) rs),
    )

    other :
        is_current u r ≡ false
        → IsPast u.admin_id u.credential_version (map (update_row now u) rs)
        → IsPast u.admin_id u.credential_version (map (update_row now u) (r ∷ rs))
    other e past = ground (
      arith,
      update_row-id now u r,
      any-map u.admin_id now u rs,
      λ (e : r.id ≡ u.admin_id). apart-absent u.admin_id r rs e apart,
      text_beq_iff (update_row now u r).id u.admin_id,
    )

-- Of two changes of one administrator's password that were verified at the same version, at most
-- one is made: after one is answered `changed`, the other is refused, whatever statements come in
-- between.
pub update_password_once :
    (argon2 : Argon2) (now later : Text) (u v : PasswordUpdate) (ss : List Statement)
    (rs : List AdminRow)
    → IsTable rs
    → v.admin_id ≡ u.admin_id
    → v.credential_version ≡ u.credential_version
    → is_empty v.new_hash ≡ false
    → (update_password true now u rs).1 ≡ ok changed
    → (update_password true later v (run argon2 ss (update_password true now u rs).0)).1
      ≡ ok credentials_changed
unfolding update_password
update_password_once argon2 now later u v ss rs h same_admin same_version filled won =
    let past : IsPast u.admin_id u.credential_version
        (run argon2 ss (update_password true now u rs).0) =
      run-IsPast argon2 u.admin_id u.credential_version ss (update_password true now u rs).0
        (ground (arith, changed-IsPast now u rs h)) in
    let none_current =
      past-stale v u.credential_version (run argon2 ss (update_password true now u rs).0)
        (omega (arith, same_version)) (rw same_admin past.0) in
    ground (arith, none_current)
