-- ===== src/Users/Listing.antt =====
-- src/users.rs: the list of the users that the console shows.
use pocket_oid.Base.{◌≡◌, refl, Bool, true, List, Option, none, some, map}
use pocket_oid.HashMap.{values}
use pocket_oid.Sorting.{sort_by, IsSorted, IsOrder, count_by, count-sort_by, sort_by-IsSorted}
use pocket_oid.Text.{Text, codes}
use pocket_oid.Text.Order.{text_leb, text_leb_total, text_leb_trans}
use pocket_oid.Users.{User, UserSummary, UserStoreBackend, file, sqlite}
use pocket_oid.Users.Database.{SqliteRow}

unfoldable pub source_name : UserStoreBackend → Text
source_name (file users) = codes "JSON"
source_name (sqlite find_enabled_user) = codes "SQLite"

abbrev user_summary : User → UserSummary
user_summary user = record { id = user.id; username = user.username; enabled = true }

abbrev row_summary : SqliteRow → UserSummary
row_summary row = record { id = row.id; username = row.username; enabled = row.enabled }

abbrev pub is_before : UserSummary → UserSummary → Bool
is_before a b = text_leb a.username b.username

-- The users before they are sorted. The rows are those of the database, or `none` if the query fails.
abbrev pub summaries : UserStoreBackend → Option (List SqliteRow) → Option (List UserSummary)
summaries (file users) rows = some (map user_summary (values users))
summaries (sqlite find_enabled_user) none = none
summaries (sqlite find_enabled_user) (some rows) = some (map row_summary rows)

unfoldable pub list : UserStoreBackend → Option (List SqliteRow) → Option (List UserSummary)
list backend rows = elim (summaries backend rows) [
  | none ↦ none
  | some users ↦ some (sort_by is_before users)
]

is_before-IsOrder : IsOrder is_before
is_before-IsOrder = record {
  total = λ a b. text_leb_total a.username b.username;
  trans = λ a b c. text_leb_trans a.username b.username c.username;
}

-- The list is in the order of the names, and has each user of the store as often as the store.
pub list-IsSorted :
    (backend : UserStoreBackend) (rows : Option (List SqliteRow)) (users : List UserSummary)
    → summaries backend rows ≡ some users
    → (shown : List UserSummary) × (list backend rows ≡ some shown)
      × IsSorted is_before shown
      × ((p : UserSummary → Bool) → count_by p shown ≡ count_by p users)
unfolding list
list-IsSorted backend rows users h = (
  sort_by is_before users,
  rw (h, list) refl,
  sort_by-IsSorted is_before is_before-IsOrder users,
  (λ p. count-sort_by is_before p users),
)
