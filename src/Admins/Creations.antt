-- ===== src/Admins/Creations.antt =====
-- src/admins.rs: the creation of an administrator, seen on the accounts.
use pocket_oid.Admins.Moves.{IsName, IsCreatable, Move, adds, refuses}
use pocket_oid.Base.{
  ◌≡◌, refl, ap, true, false, List, [], ◌∷◌, none, some, arith, any, ◌||◌, Bool-cases, inl, inr,
  is_empty, ℕ, ◌<◌, length, ◌↔◌,
}
use pocket_oid.Admins.{
  AdminRow, CreateDraws, select, has_id, has_username, violates, new_row, insert_row, check_new,
  create, hash_password,
}
use pocket_oid.Admins.Names.{
  AdminResult-cases, ok, validate_username, validate_password, validate_username_iff,
}
use pocket_oid.Admins.Races.{creates}
use pocket_oid.Admins.Table.{IsTable}
use pocket_oid.Admins.Views.{
  account_of, account, view, put, free-select, free-username, taken-select,
}
use pocket_oid.Outside.{Argon2}
use pocket_oid.Text.{Text, text_eq}

added :
    (r : AdminRow) (rs : List AdminRow) (k : Text)
    → view (r ∷ rs) k ≡ put r.id (account_of r) (view rs) k
unfolding select
added r rs k = ground arith

module _ (argon2 : Argon2) where
  -- The checks of a new administrator, as the form of the name and the password.
  check_new_iff :
      (salt : List ℕ) (username password hash : Text)
      → (check_new argon2 salt username password ≡ ok hash) ↔ (
          IsName username
          × (is_empty password ≡ false)
          × (argon2.hash_password salt password ≡ some hash))
  unfolding check_new validate_password hash_password
  check_new_iff salt username password hash =
      elim (AdminResult-cases (validate_username username)) [
        | inl (cause, e) ↦ (
          (λ h. absurd (ground (arith, e, h))),
          (λ (name, _, _). let good = (validate_username_iff username).1 name in absurd cc),
        )
        | inr (t, e) ↦
            let name = (validate_username_iff username).0 e in
            (
              (λ h. (name, ground (arith, e, h), ground (arith, e, h))),
              (λ (_, filled, made). ground (arith, e, filled, made)),
            )
      ]

  -- A row that violates a constraint of the table is that of no account that can be created.
  violates-IsCreatable :
      (draws : CreateDraws) (username password hash other : Text) (rs : List AdminRow)
      → IsTable rs
      → check_new argon2 draws.salt username password ≡ ok hash
      → violates (new_row draws username hash) rs ≡ true
      → ¬ IsCreatable argon2 draws username password other (view rs)
  unfolding violates
  violates-IsCreatable draws username password hash other rs h made bad c =
      let (name, _, hashed) = (check_new_iff draws.salt username password hash).0 made in
      let again = c.hashed in
      let same : other ≡ hash = cc in
      let filled : is_empty hash ≡ false = rw (← same) c.has_hash in
      let (s, there, which) =
        taken-select draws.uuid username rs h
          (ground (arith, bad, filled, name, c.has_id, nonempty username name.0)) in
      elim which [
        | inl id ↦ taken s id there c.free_id
        | inr named ↦ c.free_name s.id (account_of s) (ap account there) named
      ]
    where
      taken :
          (s : AdminRow)
          → s.id ≡ draws.uuid
          → select (has_id s.id) rs ≡ some s
          → view rs draws.uuid ≡ none
          → ⊥
      taken s id there free = let seen : view rs s.id ≡ none = rw id free in cc

      nonempty : (t : Text) → 0 < length t → is_empty t ≡ false
      nonempty [] some_length = absurd (omega (arith, some_length))
      nonempty (c ∷ t) some_length = refl

  violates-free :
      (draws : CreateDraws) (username password hash : Text) (rs : List AdminRow)
      → check_new argon2 draws.salt username password ≡ ok hash
      → draws.inserts ≡ true
      → violates (new_row draws username hash) rs ≡ false
      → IsCreatable argon2 draws username password hash (view rs)
  unfolding violates
  violates-free draws username password hash rs made runs free =
      let (name, filled, hashed) = (check_new_iff draws.salt username password hash).0 made in
      let apart : any (λ s. has_id draws.uuid s || has_username username s) rs ≡ false =
        ground (arith, free) in
      record {
        inserts = runs;
        name = name;
        filled = filled;
        hashed = hashed;
        has_hash = ground (arith, free);
        has_id = ground (arith, free);
        free_id = ap account (free-select (new_row draws username hash) rs apart);
        free_name = λ k b. free-username (new_row draws username hash) rs k b apart;
      }

  pub creates-Move :
      (draws : CreateDraws) (username password : Text) (rs : List AdminRow)
      → IsTable rs
      → Move argon2
          (view rs)
          (view (create argon2 draws username password rs).0)
          (creates draws username password)
  unfolding create insert_row
  creates-Move draws username password rs h =
      elim (AdminResult-cases (check_new argon2 draws.salt username password)) [
        | inl (cause, e) ↦
            rw (e, create)
              (refuses draws username password
                (λ hash c.
                  let made =
                    (check_new_iff draws.salt username password hash).1
                      (c.name, c.filled, c.hashed) in
                  cc)
                (λ k. refl))
        | inr (hash, e) ↦ rw (e, create) (inserted hash e)
      ]
    where
      inserted :
          (hash : Text)
          → check_new argon2 draws.salt username password ≡ ok hash
          → Move argon2
              (view rs)
              (view (insert_row draws (new_row draws username hash) rs).0)
              (creates draws username password)
      inserted hash e = elim (Bool-cases draws.inserts) [
        | inr f ↦
            let step : (insert_row draws (new_row draws username hash) rs).0 ≡ rs =
              ground (arith, f) in
            rw step
              (refuses draws username password (λ other c. let runs = c.inserts in cc) (λ k. refl))
        | inl f ↦ elim (Bool-cases (violates (new_row draws username hash) rs)) [
          | inl g ↦
              let step : (insert_row draws (new_row draws username hash) rs).0 ≡ rs =
                ground (arith, f, g) in
              rw step (
                refuses draws username password
                  (λ other. violates-IsCreatable draws username password hash other rs h e g)
                  (λ k. refl))
          | inr g ↦
              let step : (insert_row draws (new_row draws username hash) rs).0
                  ≡ new_row draws username hash ∷ rs =
                ground (arith, f, g) in
              rw step (
                adds draws username password hash
                  (violates-free draws username password hash rs e f g)
                  (added (new_row draws username hash) rs))
        ]
      ]
