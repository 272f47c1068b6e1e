-- ===== src/Admins/Found.antt =====
-- src/admins.rs: the rows that a query or an update finds.
use pocket_oid.Base.{◌≡◌, refl, ◌≢◌, Bool, true, List, [], ◌∷◌, some, arith, All, keep, length}
use pocket_oid.Admins.{
  AdminRow, PasswordUpdate, select, has_username, is_enabled, is_current, update_row,
}
use pocket_oid.Admins.Table.{IsTable, IsApart}
use pocket_oid.Text.{Text, text_eq, text_beq_iff}

pub select_holds :
    (p : AdminRow → Bool) (rs : List AdminRow) (r : AdminRow) → select p rs ≡ some r → p r ≡ true
unfolding select
select_holds p [] r h = cc
select_holds p (s ∷ rs) r h = ground (arith, select_holds p rs r)

apart-username :
    (p : AdminRow → Bool) (s : AdminRow) (rs : List AdminRow) (r : AdminRow)
    → All (IsApart s) rs
    → select p rs ≡ some r
    → s.username ≢ r.username
unfolding select
apart-username p s [] r h found = λ e. cc
apart-username p s (q ∷ rs) r (h, hs) found = ground (arith, apart-username p s rs r hs)

-- A row that is found is the row of its name.
pub select-username :
    (p : AdminRow → Bool) (rs : List AdminRow) (r : AdminRow)
    → IsTable rs
    → select p rs ≡ some r
    → select (has_username r.username) rs ≡ some r
unfolding select
select-username p [] r h found = cc
select-username p (s ∷ rs) r (row, apart, h) found = ground (
  arith,
  select-username p rs r h,
  apart-username p s rs r apart,
  text_beq_iff s.username r.username,
)

apart-none_current :
    (u : PasswordUpdate) (s : AdminRow) (rs : List AdminRow)
    → All (IsApart s) rs
    → s.id ≡ u.admin_id
    → length (keep (is_current u) rs) ≡ 0
unfolding is_current
apart-none_current u s [] h same = refl
apart-none_current u s (q ∷ rs) (h, hs) same =
    ground (arith, apart-none_current u s rs hs same, text_beq_iff q.id u.admin_id)

pub update_row-username :
    (now : Text) (u : PasswordUpdate) (name : Text) (r : AdminRow)
    → has_username name (update_row now u r) ≡ has_username name r
unfolding update_row
update_row-username now u name r = ground arith

-- Exactly one row is current: the one that was read.
pub updated_current :
    (u : PasswordUpdate) (rs : List AdminRow) (r : AdminRow)
    → IsTable rs
    → length (keep (is_current u) rs) ≡ 1
    → select (is_enabled u.admin_id) rs ≡ some r
    → is_current u r ≡ true
unfolding select is_current
updated_current u [] r h one found = cc
updated_current u (s ∷ rs) r (row, apart, h) one found =
    ground (
      arith,
      updated_current u rs r h,
      apart-none_current u s rs apart,
      text_beq_iff s.id u.admin_id,
    )
