-- ===== src/Admins/Listing.antt =====
-- src/admins.rs: the list of the administrators.
use pocket_oid.Admins.{AdminRow, AdminRecord, admin_from_row}
use pocket_oid.Admins.Names.{AdminResult, ok, err, database_failed}
use pocket_oid.Base.{◌≡◌, refl, Bool, true, List, map, if◌then◌else◌}
use pocket_oid.Sorting.{sort_by, IsSorted, IsOrder, count_by, count-sort_by, sort_by-IsSorted}
use pocket_oid.Text.{to_ascii_lowercase}
use pocket_oid.Text.Order.{nocase_leb, folded_leb_total, folded_leb_trans}

abbrev pub is_before : AdminRow → AdminRow → Bool
is_before r s = nocase_leb r.username s.username

-- `list`, with whether its query succeeds.
unfoldable pub list : Bool → List AdminRow → AdminResult (List AdminRecord)
list queries rows =
    if queries then ok (map admin_from_row (sort_by is_before rows)) else err database_failed

is_before-IsOrder : IsOrder is_before
is_before-IsOrder = record {
  total = λ r s. folded_leb_total (map to_ascii_lowercase) r.username s.username;
  trans = λ r s t. folded_leb_trans (map to_ascii_lowercase) r.username s.username t.username;
}

-- If the query succeeds, the list is that of the rows of the table, in the order of the names.
pub list-IsSorted :
    (rows : List AdminRow)
    → (sorted : List AdminRow) × (list true rows ≡ ok (map admin_from_row sorted))
      × IsSorted is_before sorted
      × ((p : AdminRow → Bool) → count_by p sorted ≡ count_by p rows)
unfolding list
list-IsSorted rows = (
  sort_by is_before rows,
  refl,
  sort_by-IsSorted is_before is_before-IsOrder rows,
  (λ p. count-sort_by is_before p rows),
)
