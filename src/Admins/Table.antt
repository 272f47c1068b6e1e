-- ===== src/Admins/Table.antt =====
-- src/admins.rs: the table of the administrators after each operation that changes it.
use pocket_oid.Base.{
  ◌<◌, ◌≡◌, ◌≢◌, Bool, false, ◌||◌, List, [], ◌∷◌, some, arith, map, is_empty, any, All, inl, inr,
}
use pocket_oid.Admins.{
  AdminRow, PasswordUpdate, CreateDraws, select, has_id, has_username, violates, update_row,
  update_password, insert_row, new_row, check_new, create,
}
use pocket_oid.Admins.Names.{AdminResult-cases}
use pocket_oid.Outside.{Argon2}
use pocket_oid.Text.{Text, text_eq, text_beq_iff}

-- Two rows that the keys of the schema keep apart.
abbrev pub IsApart : AdminRow → AdminRow → Type 0
IsApart r s = (r.id ≢ s.id) × (r.username ≢ s.username)

-- The keys and the checks of the schema.
abbrev pub IsRow : AdminRow → Type 0
IsRow r =
    (is_empty r.id ≡ false)
    × (is_empty r.username ≡ false)
    × (is_empty r.password_hash ≡ false)
    × (0 < r.credential_version)

abbrev pub IsTable : List AdminRow → Type 0
IsTable [] = Unit
IsTable (r ∷ rs) = IsRow r × All (IsApart r) rs × IsTable rs

-- What a creation does to the table: nothing, or it adds a row that violates no constraint.
pub create_cases {ℓ} :
    (P : List AdminRow → Type ℓ) (argon2 : Argon2) (draws : CreateDraws) (username password : Text)
    (rs : List AdminRow)
    → P rs
    → ((hash : Text)
        → violates (new_row draws username hash) rs ≡ false
        → P (new_row draws username hash ∷ rs))
    → P (create argon2 draws username password rs).0
unfolding create insert_row
create_cases P argon2 draws username password rs same added =
    elim (AdminResult-cases (check_new argon2 draws.salt username password)) [
      | inl (cause, e) ↦ rw (e, create) same
      | inr (hash, e) ↦ rw (e, create) (ground (arith, added hash))
    ]

-- What the second half of a change does to it: nothing, or it updates the rows.
pub update_password_cases {ℓ} :
    (P : List AdminRow → Type ℓ) (runs : Bool) (now : Text) (u : PasswordUpdate)
    (rs : List AdminRow)
    → P rs
    → (is_empty u.new_hash ≡ false → P (map (update_row now u) rs))
    → P (update_password runs now u rs).0
unfolding update_password
update_password_cases P runs now u rs same updated = ground arith

any-All :
    (r : AdminRow) (rs : List AdminRow)
    → any (λ s. has_id r.id s || has_username r.username s) rs ≡ false
    → All (IsApart r) rs
any-All r [] h = tt
any-All r (s ∷ rs) h =
    ground (arith, any-All r rs, text_beq_iff s.id r.id, text_beq_iff s.username r.username)

pub violates-IsTable :
    (r : AdminRow) (rs : List AdminRow)
    → 0 < r.credential_version
    → violates r rs ≡ false
    → IsTable rs
    → IsTable (r ∷ rs)
unfolding violates
violates-IsTable r rs positive free h = ground (arith, any-All r rs)

update_row-IsApart :
    (now : Text) (u : PasswordUpdate) (r s : AdminRow)
    → IsApart r s
    → IsApart (update_row now u r) (update_row now u s)
unfolding update_row
update_row-IsApart now u r s h = ground arith

update_row-All :
    (now : Text) (u : PasswordUpdate) (r : AdminRow) (rs : List AdminRow)
    → All (IsApart r) rs
    → All (IsApart (update_row now u r)) (map (update_row now u) rs)
update_row-All now u r [] h = tt
update_row-All now u r (s ∷ rs) (h, hs) =
    (update_row-IsApart now u r s h, update_row-All now u r rs hs)

update_row-IsRow :
    (now : Text) (u : PasswordUpdate) (r : AdminRow)
    → is_empty u.new_hash ≡ false
    → IsRow r
    → IsRow (update_row now u r)
unfolding update_row
update_row-IsRow now u r filled h = ground arith

pub map-IsTable :
    (now : Text) (u : PasswordUpdate) (rs : List AdminRow)
    → is_empty u.new_hash ≡ false
    → IsTable rs
    → IsTable (map (update_row now u) rs)
map-IsTable now u [] filled h = tt
map-IsTable now u (r ∷ rs) filled (h, apart, hs) = (
  update_row-IsRow now u r filled h,
  update_row-All now u r rs apart,
  map-IsTable now u rs filled hs,
)

-- A condition that the change of a row does not change finds the row in its new state.
pub select-map :
    (p : AdminRow → Bool) (f : AdminRow → AdminRow) (rs : List AdminRow)
    → ((r : AdminRow) → p (f r) ≡ p r)
    → (r : AdminRow) → select p rs ≡ some r
    → select p (map f rs) ≡ some (f r)
unfolding select
select-map p f [] same r h = ground arith
select-map p f (s ∷ rs) same r h = ground (arith, same s, select-map p f rs same r)
