-- ===== src/Admins/Changes.antt =====
-- src/admins.rs: a change of a password, seen on the accounts.
use pocket_oid.Admins.Moves.{changed_account, IsVerified, Move, rotates, keeps}
use pocket_oid.Base.{
  ◌≡◌, refl, ap, sym, Bool, true, false, List, none, some, arith, map, Bool-cases, Option-cases,
  inl, inr, is_empty, ◌==◌, ◌⊎◌,
}
use pocket_oid.Admins.{
  AdminRow, PasswordUpdate, select, has_id, is_current, update_row, update_password,
}
use pocket_oid.Admins.Races.{updates}
use pocket_oid.Admins.Views.{
  Account, account_of, account, view, put, select-id, select-updated, update_row-current,
  not_current, view-stale,
}
use pocket_oid.Outside.{Argon2}
use pocket_oid.Text.{Text, text_eq, text_beq_iff}

-- The update of the table, of which the accounts see one row.
rotated :
    (now : Text) (u : PasswordUpdate) (rs : List AdminRow) (r : AdminRow)
    → select (has_id u.admin_id) rs ≡ some r
    → is_current u r ≡ true
    → (k : Text)
    → view (map (update_row now u) rs) k
      ≡ put u.admin_id (changed_account u.new_hash (account_of r)) (view rs) k
rotated now u rs r found current k =
    let (changed, enabled, same) = update_row-current now u r current in
    elim (Bool-cases (u.admin_id == k)) [
      | inl e ↦ elim (select-updated now u k rs) [
        | inl (after, before) ↦ ground (arith, text_beq_iff u.admin_id k)
        | inr (s, before, id, after) ↦ ground (arith, text_beq_iff u.admin_id k)
      ]
      | inr e ↦ rw e (
          view-stale now u rs k λ s before.
            not_current u s (ground (arith, select-id k rs s, text_beq_iff u.admin_id k)))
    ]

current-IsVerified :
    (u : PasswordUpdate) (rs : List AdminRow) (r : AdminRow)
    → is_empty u.new_hash ≡ false
    → select (has_id u.admin_id) rs ≡ some r
    → is_current u r ≡ true
    → IsVerified true u (account_of r) (view rs)
unfolding is_current
current-IsVerified u rs r filled found current = record {
  executed = refl;
  has_hash = filled;
  there = ap account found;
  enabled = ground (arith, current);
  version = ground (arith, current);
  hash = ground (arith, current, text_beq_iff r.password_hash u.current_hash);
}

-- The account that was verified is seen in a row that the update changes.
verified-current :
    (runs : Bool) (u : PasswordUpdate) (rs : List AdminRow) (a : Account)
    → IsVerified runs u a (view rs)
    → (r : AdminRow) × (select (has_id u.admin_id) rs ≡ some r) × (is_current u r ≡ true)
unfolding is_current
verified-current runs u rs a h = elim (Option-cases (select (has_id u.admin_id) rs)) [
  | inl e ↦ absurd (cc (rw e at h.there))
  | inr (r, e) ↦
      let same : account_of r ≡ a = shown r e h.there in
      (
        r,
        e,
        matches r e (ap (λ (x : Account). x.enabled) same)
            (ap (λ (x : Account). x.credential_version) same)
            (ap (λ (x : Account). x.password_hash) same),
      )
]
  where
    shown :
        (r : AdminRow)
        → select (has_id u.admin_id) rs ≡ some r
        → view rs u.admin_id ≡ some a
        → account_of r ≡ a
    shown r e there = cc

    matches :
        (r : AdminRow)
        → select (has_id u.admin_id) rs ≡ some r
        → r.enabled ≡ a.enabled
        → r.credential_version ≡ a.credential_version
        → r.password_hash ≡ a.password_hash
        → is_current u r ≡ true
    matches r e on version hash = ground (
      arith,
      h.enabled,
      h.version,
      h.hash,
      select-id u.admin_id rs r e,
      text_beq_iff r.id u.admin_id,
      text_beq_iff r.password_hash u.current_hash,
    )

-- Where no row is the one that was verified, the accounts stay as they are.
unverified :
    (now : Text) (u : PasswordUpdate) (rs : List AdminRow)
    → ((r : AdminRow) → select (has_id u.admin_id) rs ≡ some r → is_current u r ≡ false)
    → (k : Text) → view (map (update_row now u) rs) k ≡ view rs k
unverified now u rs stale k = view-stale now u rs k λ s here. elim (Bool-cases (u.admin_id == k)) [
  | inl e ↦ stale s (rw (sym ((text_beq_iff u.admin_id k).0 e)) at here)
  | inr e ↦ not_current u s (ground (arith, e, select-id k rs s here, text_beq_iff u.admin_id k))
]

module _ (argon2 : Argon2) where
  pub updates-Move :
      (runs : Bool) (now : Text) (u : PasswordUpdate) (rs : List AdminRow)
      → Move argon2 (view rs) (view (update_password runs now u rs).0) (updates runs now u)
  unfolding update_password
  updates-Move false now u rs = keeps false now u (λ a h. cc h.executed) (λ k. refl)
  updates-Move true now u rs = elim (Bool-cases (is_empty u.new_hash)) [
    | inl e ↦ keeps true now u (λ a h. cc h.has_hash) (λ k. ground (arith, e))
    | inr filled ↦
        let step : (update_password true now u rs).0 ≡ map (update_row now u) rs =
          ground (arith, filled) in
        rw step (executed filled (Option-cases (select (has_id u.admin_id) rs)))
  ]
    where
      executed :
          is_empty u.new_hash ≡ false
          → (select (has_id u.admin_id) rs ≡ none)
            ⊎ ((r : AdminRow) × (select (has_id u.admin_id) rs ≡ some r))
          → Move argon2 (view rs) (view (map (update_row now u) rs)) (updates true now u)
      executed filled (inl e) =
          keeps true now u (λ a h. let (r, there, _) = verified-current true u rs a h in cc)
            (unverified now u rs (λ r there. cc))
      executed filled (inr (r, e)) = elim (Bool-cases (is_current u r)) [
        | inl f ↦
            rotates true now u (account_of r) (current-IsVerified u rs r filled e f)
              (rotated now u rs r e f)
        | inr f ↦
            keeps true now u (λ a h. let (q, there, current) = verified-current true u rs a h in cc)
              (unverified now u rs (λ q there. cc))
      ]
