-- ===== src/Users/File.antt =====
-- src/users.rs: `build_file_users`, the users of a configuration file.
use pocket_oid.Base.{
  ◌≡◌, refl, ◌≢◌, false, List, [], ◌∷◌, none, some, arith, if◌then◌else◌, is_empty, contains, All,
  inl, inr, ◌⊎◌,
}
use pocket_oid.Config.{
  ConfigError, Result, ok, err, ◌>>=◌, empty_user_id, empty_username, no_users, duplicate_user_id,
  duplicate_username,
}
use pocket_oid.HashMap.{HashMap, get, contains_key, insert}
use pocket_oid.HashMap.Laws.{get-insert}
use pocket_oid.Outside.{HashParser}
use pocket_oid.Text.{Text, text_eq, text_beq_iff, trim}
use pocket_oid.Users.{User, PasswordCredential, UserStoreBackend}
use pocket_oid.Users.Credentials.{UserConfig, file_user_credential}

abbrev user_of : UserConfig → PasswordCredential → User
user_of user credential = record { id = user.id; username = user.username; credential = credential }

abbrev HasOtherId : UserConfig → UserConfig → Type 0
HasOtherId user other = other.id ≢ user.id

-- No identifier stands twice.
abbrev pub HasDistinctIds : List UserConfig → Type 0
HasDistinctIds [] = Unit
HasDistinctIds (user ∷ users) = All (HasOtherId user) users × HasDistinctIds users

pub Result-cases :
    {T : Type 0} (r : Result T) → ((cause : ConfigError) × (r ≡ err cause)) ⊎ ((t : T) × (r ≡ ok t))
Result-cases (err cause) = inl (cause, refl)
Result-cases (ok t) = inr (t, refl)

module _ (parser : HashParser) where
  -- One user, with the identifiers and the users before it.
  unfoldable pub add_user : List Text → HashMap User → UserConfig → Result (HashMap User)
  add_user ids users user =
      if is_empty (trim user.id)
      then err empty_user_id
      else if is_empty (trim user.username)
      then err empty_username
      else if contains ids user.id
      then err (duplicate_user_id user.id)
      else if contains_key user.username users
      then err (duplicate_username user.username)
      else file_user_credential parser user >>= λ credential.
          ok (insert user.username (user_of user credential) users)

  -- The loop, from the identifiers and the users before it.
  unfoldable pub add_users : List Text → HashMap User → List UserConfig → Result (HashMap User)
  unfolding add_user
  add_users ids users [] = ok users
  add_users ids users (user ∷ rest) =
      add_user ids users user >>= λ more. add_users (user.id ∷ ids) more rest

  unfoldable pub build_file_users : List UserConfig → Result (HashMap User)
  unfolding add_users
  build_file_users users = add_users [] [] users

  -- `load` of a file's users: there must be one.
  unfoldable pub load_file : List UserConfig → Result UserStoreBackend
  unfolding build_file_users
  load_file users = build_file_users users >>= λ built.
      if is_empty built then err no_users else ok (UserStoreBackend.file built)

  -- The entry of a user: found under its name, with its identifier and the credential read.
  abbrev pub IsAdded : HashMap User → UserConfig → Type 0
  IsAdded m user =
      (credential : PasswordCredential) × (file_user_credential parser user ≡ ok credential)
      × (get user.username m ≡ some (user_of user credential))

  add_user-IsOk :
      (ids : List Text) (m m' : HashMap User) (user : UserConfig)
      → add_user ids m user ≡ ok m'
      → (credential : PasswordCredential) × (file_user_credential parser user ≡ ok credential)
        × (m' ≡ insert user.username (user_of user credential) m)
        × (contains ids user.id ≡ false)
        × (get user.username m ≡ none)
  unfolding add_user
  add_user-IsOk ids m m' user h = elim (Result-cases (file_user_credential parser user)) [
    | inl (cause, e) ↦ absurd (ground (arith, e, h))
    | inr (c, e) ↦ (c, e, ground (arith, e, h), ground (arith, e, h), ground (arith, e, h))
  ]

  -- What is added later leaves the users before it.
  add_users-keeps :
      (ids : List Text) (m m' : HashMap User) (users : List UserConfig) (k : Text) (u : User)
      → add_users ids m users ≡ ok m'
      → get k m ≡ some u
      → get k m' ≡ some u
  unfolding add_users
  add_users-keeps ids m m' [] k u h found = ground arith
  add_users-keeps ids m m' (c ∷ cs) k u h found = elim (Result-cases (add_user ids m c)) [
    | inl (cause, e) ↦ absurd (ground (arith, e, h))
    | inr (n, e) ↦
        let (credential, read, made, new, free) = add_user-IsOk ids m n c e in
        add_users-keeps (c.id ∷ ids) n m' cs k u (ground (arith, e, h)) (
          ground (
            arith,
            made,
            found,
            free,
            get-insert c.username k (user_of c credential) m,
            text_beq_iff c.username k,
          ))
  ]

  add_users-IsAdded :
      (ids : List Text) (m m' : HashMap User) (users : List UserConfig)
      → add_users ids m users ≡ ok m'
      → All (IsAdded m') users
        × All (λ (u : UserConfig). contains ids u.id ≡ false) users
        × HasDistinctIds users
  unfolding add_users
  add_users-IsAdded ids m m' [] h = (tt, tt, tt)
  add_users-IsAdded ids m m' (c ∷ cs) h = elim (Result-cases (add_user ids m c)) [
    | inl (cause, e) ↦ absurd (ground (arith, e, h))
    | inr (n, e) ↦
        let (credential, read, made, new, free) = add_user-IsOk ids m n c e in
        let rest : add_users (c.id ∷ ids) n cs ≡ ok m' = ground (arith, e, h) in
        let (added, fresh, distinct) = add_users-IsAdded (c.id ∷ ids) n m' cs rest in
        let stored : get c.username n ≡ some (user_of c credential) = ground (
          arith,
          made,
          get-insert c.username c.username (user_of c credential) m,
          text_beq_iff c.username c.username,
        ) in
        (
          (
            (credential, read, add_users-keeps (c.id ∷ ids) n m' cs c.username _ rest stored),
            added,
          ),
          (new, older c ids cs fresh),
          (others c ids cs fresh, distinct),
        )
  ]
    where
      older :
          (c : UserConfig) (ids : List Text) (cs : List UserConfig)
          → All (λ (u : UserConfig). contains (c.id ∷ ids) u.id ≡ false) cs
          → All (λ (u : UserConfig). contains ids u.id ≡ false) cs
      older c ids [] h = tt
      older c ids (d ∷ ds) (h, hs) = (ground (arith, h), older c ids ds hs)

      others :
          (c : UserConfig) (ids : List Text) (cs : List UserConfig)
          → All (λ (u : UserConfig). contains (c.id ∷ ids) u.id ≡ false) cs
          → All (HasOtherId c) cs
      others c ids [] h = tt
      others c ids (d ∷ ds) (h, hs) =
          (ground (arith, h, text_beq_iff c.id d.id), others c ids ds hs)

  -- The users of a file that is accepted have distinct identifiers, and each is found under its own
  -- name, with its own identifier and the credential that its entry says.
  pub build_file_users-IsAdded :
      (users : List UserConfig) (m : HashMap User)
      → build_file_users users ≡ ok m
      → All (IsAdded m) users × HasDistinctIds users
  unfolding build_file_users
  build_file_users-IsAdded users m h =
      let (added, _, distinct) = add_users-IsAdded [] [] m users h in (added, distinct)
