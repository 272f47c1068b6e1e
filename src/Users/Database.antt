-- ===== src/Users/Database.antt =====
-- src/users.rs: the users of a database, from the rows that its queries read.
use pocket_oid.Base.{
  ℕ, ◌+◌, ◌<◌, ◌≤◌, ◌≡◌, ◌↔◌, refl, Bool, true, ◌&&◌, List, [], ◌∷◌, Option, none, some, is_some,
  arith, if◌then◌else◌, is_empty, nat_beq, any, All, inl, inr, Bool-cases,
}
use pocket_oid.Config.{
  Result, ok, err, ◌>>=◌, empty_sqlite_user_id, empty_sqlite_username, no_enabled_users,
}
use pocket_oid.Outside.{HashParser}
use pocket_oid.Text.{Text, text_beq, trim}
use pocket_oid.Users.{User, PasswordCredential}
use pocket_oid.Users.Credentials.{parse_argon2id_hash}
use pocket_oid.Users.File.{Result-cases}

pub record SqliteRow : Type 0 where
  pub id : Text
  pub username : Text
  pub password_hash : Text
  pub enabled : Bool

abbrev row_user : SqliteRow → PasswordCredential → User
row_user row credential = record { id = row.id; username = row.username; credential = credential }

-- `WHERE username = ?1 AND enabled = 1`.
abbrev pub is_enabled_as : Text → SqliteRow → Bool
is_enabled_as username row = text_beq row.username username && row.enabled

abbrev select_row : Text → List SqliteRow → Option SqliteRow
select_row username [] = none
select_row username (row ∷ rows) =
    if is_enabled_as username row then some row else select_row username rows

abbrev counted : SqliteRow → ℕ → ℕ
counted row n = if row.enabled then n + 1 else n

module _ (parser : HashParser) where
  unfoldable pub sqlite_user : SqliteRow → Result User
  sqlite_user row =
      if is_empty (trim row.id)
      then err empty_sqlite_user_id
      else if is_empty (trim row.username)
      then err empty_sqlite_username
      else parse_argon2id_hash parser row.username row.password_hash >>= λ credential.
          ok (row_user row credential)

  -- The loop over the rows, from the number of the enabled users before them.
  unfoldable pub count_enabled_users : ℕ → List SqliteRow → Result ℕ
  count_enabled_users n [] = ok n
  count_enabled_users n (row ∷ rows) =
      sqlite_user row >>= λ _. count_enabled_users (counted row n) rows

  unfoldable pub validate_sqlite_users : List SqliteRow → Result (Unit {0})
  unfolding count_enabled_users
  validate_sqlite_users rows = count_enabled_users 0 rows >>= λ enabled_users.
      if nat_beq enabled_users 0 then err no_enabled_users else ok tt

  unfoldable pub find_enabled_user : List SqliteRow → Text → Result (Option User)
  unfolding sqlite_user
  find_enabled_user rows username = elim (select_row username rows) [
    | none ↦ ok none
    | some row ↦ sqlite_user row >>= λ user. ok (some user)
  ]

  abbrev pub IsUser : SqliteRow → Type 0
  IsUser row = (user : User) × (sqlite_user row ≡ ok user)

  count_enabled_users-All :
      (n m : ℕ) (rows : List SqliteRow) → count_enabled_users n rows ≡ ok m → All IsUser rows
  unfolding count_enabled_users
  count_enabled_users-All n m [] h = tt
  count_enabled_users-All n m (row ∷ rows) h = elim (Result-cases (sqlite_user row)) [
    | inl (cause, e) ↦ absurd (ground (arith, e, h))
    | inr (user, e) ↦
        ((user, e), count_enabled_users-All (counted row n) m rows (ground (arith, e, h)))
  ]

  count_enabled_users-total :
      (n : ℕ) (rows : List SqliteRow)
      → All IsUser rows
      → (m : ℕ) × (count_enabled_users n rows ≡ ok m)
  unfolding count_enabled_users
  count_enabled_users-total n [] h = (n, refl)
  count_enabled_users-total n (row ∷ rows) ((user, e), h) =
      let (m, made) = count_enabled_users-total (counted row n) rows h in
      (m, ground (arith, e, made))

  -- The count is left as it was exactly when no row is enabled.
  count_enabled_users-any :
      (n m : ℕ) (rows : List SqliteRow)
      → count_enabled_users n rows ≡ ok m
      → (n ≤ m) × ((any (λ (row : SqliteRow). row.enabled) rows ≡ true) ↔ (n < m))
  unfolding count_enabled_users
  count_enabled_users-any n m [] h = ground arith
  count_enabled_users-any n m (row ∷ rows) h = elim (Result-cases (sqlite_user row)) [
    | inl (cause, e) ↦ absurd (ground (arith, e, h))
    | inr (user, e) ↦
        let rest : count_enabled_users (counted row n) rows ≡ ok m = ground (arith, e, h) in
        let (more, some_enabled) = count_enabled_users-any (counted row n) m rows rest in
        ground (arith, more, some_enabled)
  ]

  select_row-IsUser :
      (username : Text) (rows : List SqliteRow)
      → All IsUser rows
      → (user : Option User) × (find_enabled_user rows username ≡ ok user)
        × (is_some user ≡ any (is_enabled_as username) rows)
  unfolding find_enabled_user
  select_row-IsUser username [] h = (none, refl, refl)
  select_row-IsUser username (row ∷ rows) ((user, e), h) =
      elim (Bool-cases (is_enabled_as username row)) [
        | inl f ↦ (some user, ground (arith, e, f), ground (arith, e, f))
        | inr f ↦
            let (found, answer, shown) = select_row-IsUser username rows h in
            (found, ground (arith, f, answer), ground (arith, f, shown))
      ]

  -- The rows of a database are accepted exactly when each is a user and at least one is enabled.
  pub validate_sqlite_users_iff :
      (rows : List SqliteRow)
      → (validate_sqlite_users rows ≡ ok tt)
        ↔ (All IsUser rows × (any (λ (row : SqliteRow). row.enabled) rows ≡ true))
  unfolding validate_sqlite_users
  validate_sqlite_users_iff rows = elim (Result-cases (count_enabled_users 0 rows)) [
    | inl (cause, e) ↦ (
      (λ h. absurd (ground (arith, e, h))),
      (λ (users, _).
          let (m, made) = count_enabled_users-total 0 rows users in
          absurd (ground (arith, e, made))),
    )
    | inr (m, e) ↦
        let (_, some_enabled) = count_enabled_users-any 0 m rows e in
        (
          (λ h. (count_enabled_users-All 0 m rows e, ground (arith, e, h, some_enabled))),
          (λ (_, enabled). ground (arith, e, enabled, some_enabled)),
        )
  ]

  -- Once the rows of a database have been accepted, no look-up of a name among them fails: it finds
  -- a user exactly when an enabled row has that name.
  pub validate_sqlite_users-find :
      (rows : List SqliteRow) (username : Text)
      → validate_sqlite_users rows ≡ ok tt
      → (user : Option User) × (find_enabled_user rows username ≡ ok user)
        × (is_some user ≡ any (is_enabled_as username) rows)
  validate_sqlite_users-find rows username h =
      select_row-IsUser username rows ((validate_sqlite_users_iff rows).0 h).0
