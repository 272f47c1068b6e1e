-- ===== src/Admins/Views.antt =====
-- src/admins.rs: the table seen as a set of accounts by their identifiers, without its order and
-- its dates.
use pocket_oid.Base.{
  ℕ, ◌+◌, ◌≡◌, refl, ◌⊎◌, ◌≢◌, Bool, true, false, List, [], ◌∷◌, Option, none, some, arith, map,
  any, if◌then◌else◌, ◌==◌, ◌||◌, Bool-cases, inl, inr, All,
}
use pocket_oid.Admins.{
  AdminRow, PasswordUpdate, select, has_id, has_username, is_current, update_row,
}
use pocket_oid.Admins.Table.{IsTable, IsApart}
use pocket_oid.Admins.Races.{update_row-id}
use pocket_oid.Text.{Text, text_eq, text_beq_iff}

pub record Account : Type 0 where
  pub username : Text
  pub password_hash : Text
  pub credential_version : ℕ
  pub enabled : Bool

abbrev pub Accounts : Type 0
Accounts = Text → Option Account

abbrev pub account_of : AdminRow → Account
account_of r = record {
  username = r.username;
  password_hash = r.password_hash;
  credential_version = r.credential_version;
  enabled = r.enabled;
}

abbrev pub account : Option AdminRow → Option Account
account none = none
account (some r) = some (account_of r)

abbrev pub view : List AdminRow → Accounts
view rs id = account (select (has_id id) rs)

abbrev pub put : Text → Account → Accounts → Accounts
put id a accounts k = if id == k then some a else accounts k

pub free-select :
    (r : AdminRow) (rs : List AdminRow)
    → any (λ s. has_id r.id s || has_username r.username s) rs ≡ false
    → select (has_id r.id) rs ≡ none
unfolding select
free-select r [] h = refl
free-select r (s ∷ rs) h = ground (arith, free-select r rs)

pub free-username :
    (r : AdminRow) (rs : List AdminRow) (k : Text) (b : Account)
    → any (λ s. has_id r.id s || has_username r.username s) rs ≡ false
    → view rs k ≡ some b
    → b.username ≢ r.username
unfolding select
free-username r [] k b h found = λ e. cc
free-username r (q ∷ rs) k b h found =
    ground (arith, free-username r rs k b, text_beq_iff q.username r.username)

pub select-id :
    (k : Text) (rs : List AdminRow) (r : AdminRow) → select (has_id k) rs ≡ some r → r.id ≡ k
unfolding select
select-id k [] r h = cc
select-id k (s ∷ rs) r h = ground (arith, select-id k rs r, text_beq_iff s.id k)

-- Each row is updated in its place.
pub select-updated :
    (now : Text) (u : PasswordUpdate) (k : Text) (rs : List AdminRow)
    → (select (has_id k) (map (update_row now u) rs) ≡ none) × (select (has_id k) rs ≡ none)
      ⊎ ((r : AdminRow) × (select (has_id k) rs ≡ some r)
          × (r.id ≡ k)
          × (select (has_id k) (map (update_row now u) rs) ≡ some (update_row now u r)))
unfolding select
select-updated now u k [] = inl (refl, refl)
select-updated now u k (r ∷ rs) = elim (Bool-cases (r.id == k)) [
  | inl e ↦
      inr (
        r,
        ground arith,
        ground (arith, text_beq_iff r.id k),
        ground (arith, update_row-id now u r),
      )
  | inr e ↦ elim (select-updated now u k rs) [
    | inl h ↦ inl (ground (arith, update_row-id now u r))
    | inr (s, before, id, after) ↦ inr (s, ground arith, id, ground (arith, update_row-id now u r))
  ]
]

pub update_row-current :
    (now : Text) (u : PasswordUpdate) (r : AdminRow)
    → is_current u r ≡ true
    → (account_of (update_row now u r) ≡ record (account_of r) {
      password_hash = u.new_hash;
      credential_version = r.credential_version + 1;
    })
      × (r.enabled ≡ true)
      × (r.id ≡ u.admin_id)
unfolding update_row is_current
update_row-current now u r h = ground (arith, text_beq_iff r.id u.admin_id)

pub update_row-stale :
    (now : Text) (u : PasswordUpdate) (r : AdminRow)
    → is_current u r ≡ false
    → update_row now u r ≡ r
unfolding update_row
update_row-stale now u r h = ground arith

pub not_current : (u : PasswordUpdate) (r : AdminRow) → r.id ≢ u.admin_id → is_current u r ≡ false
unfolding is_current
not_current u r h = ground (arith, text_beq_iff r.id u.admin_id)

pub view-stale :
    (now : Text) (u : PasswordUpdate) (rs : List AdminRow) (k : Text)
    → ((r : AdminRow) → select (has_id k) rs ≡ some r → is_current u r ≡ false)
    → view (map (update_row now u) rs) k ≡ view rs k
view-stale now u rs k stale = elim (select-updated now u k rs) [
  | inl (after, before) ↦ cc
  | inr (r, before, same, after) ↦ let unchanged = update_row-stale now u r (stale r before) in cc
]

apart-select :
    (r : AdminRow) (rs : List AdminRow) (k : Text) (s : AdminRow)
    → All (IsApart r) rs
    → select (has_id k) rs ≡ some s
    → r.id ≢ k
unfolding select
apart-select r [] k s apart h = λ e. cc
apart-select r (q ∷ rs) k s (first, apart) h =
    ground (arith, apart-select r rs k s apart, text_beq_iff q.id k)

-- A row that has the identifier or the name is the one that its identifier selects.
pub taken-select :
    (id username : Text) (rs : List AdminRow)
    → IsTable rs
    → any (λ s. has_id id s || has_username username s) rs ≡ true
    → (s : AdminRow) × (select (has_id s.id) rs ≡ some s) × ((s.id ≡ id) ⊎ (s.username ≡ username))
unfolding select
taken-select id username [] h found = cc
taken-select id username (r ∷ rs) (row, apart, h) found =
    elim (Bool-cases (has_id id r || has_username username r)) [
      | inl e ↦ (r, ground (arith, text_beq_iff r.id r.id), same r e)
      | inr e ↦
          let (s, there, which) = taken-select id username rs h (ground (arith, e, found)) in
          (
            s,
            ground (arith, there, apart-select r rs s.id s apart there, text_beq_iff r.id s.id),
            which,
          )
    ]
  where
    same :
        (r : AdminRow)
        → (has_id id r || has_username username r) ≡ true
        → (r.id ≡ id) ⊎ (r.username ≡ username)
    same r e = elim (Bool-cases (has_id id r)) [
      | inl f ↦ inl ((text_beq_iff r.id id).0 f)
      | inr f ↦ inr ((text_beq_iff r.username username).0 (ground (arith, e, f)))
    ]
