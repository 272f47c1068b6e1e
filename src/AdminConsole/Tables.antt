-- ===== src/AdminConsole/Tables.antt =====
-- src/admin_console/views.rs: what the lists of clients and of users show, without the HTML around
-- it. A row that the filter leaves out is in the page, but hidden.
use pocket_oid.AdminConsole.Selection.{Selection, matches_client, matches_user, sort_of}
use pocket_oid.AdminConsole.Summary.{ClientSummary}
use pocket_oid.Base.{
  ℕ, ◌+◌, Bool, true, ◌||◌, not, List, [], ◌∷◌, Option, none, some, is_none, ltb, nat_beq,
  if◌then◌else◌, is_empty, map, ◌==◌,
}
use pocket_oid.Sorting.{sort_by, count_by}
use pocket_oid.Text.{Text, text_eq, text_beq, codes}
use pocket_oid.Text.Order.{folded_leb, text_leb}
use pocket_oid.Users.{UserSummary}

module _ {ℓ} {A : Type ℓ} where
  -- `enumerate`.
  abbrev pub enumerate_from : ℕ → List A → List (ℕ × A)
  enumerate_from n [] = []
  enumerate_from n (x ∷ xs) = (n, x) ∷ enumerate_from (n + 1) xs

  abbrev pub reverse_onto : List A → List A → List A
  reverse_onto done [] = done
  reverse_onto done (x ∷ xs) = reverse_onto (x ∷ done) xs

pub record TableRow {ℓ} (A : Type ℓ) : Type ℓ where
  pub rank : ℕ
  pub item : A
  pub hidden : Bool

-- The rows, the number that is said to be found, and which parts of the page are hidden: the table,
-- the note that the list is empty, the note that nothing matches, and the error.
pub record Table {ℓ} (A : Type ℓ) : Type ℓ where
  pub rows : List (TableRow A)
  pub found : ℕ
  pub hides_table : Bool
  pub hides_empty : Bool
  pub hides_no_results : Bool
  pub hides_error : Bool

abbrev pub row_of {ℓ} : {A : Type ℓ} → (A → Bool) → ℕ × A → TableRow A
row_of matches (rank, item) = record { rank = rank; item = item; hidden = not (matches item) }

-- The ranks are those of the ascending order.
unfoldable pub ranked {ℓ} : {A : Type ℓ} → (A → A → Bool) → Selection → List A → List (ℕ × A)
ranked le selection items =
    let numbered = enumerate_from 0 (sort_by le items) in
    if sort_of selection == codes "desc" then reverse_onto [] numbered else numbered

module _ (to_lowercase : Text → Text) where
  abbrev pub alphabetical : Text → Text → Bool
  alphabetical a b = folded_leb to_lowercase a b

  abbrev pub client_before : ClientSummary → ClientSummary → Bool
  client_before a b = alphabetical a.id b.id

  -- By name, and by identifier where the names are the same.
  abbrev pub user_before : UserSummary → UserSummary → Bool
  user_before a b =
      if text_beq a.username b.username
      then text_leb a.id b.id
      else alphabetical a.username b.username

  -- The list, where no client is selected; it has no error to show.
  unfoldable pub clients_table : List ClientSummary → Selection → Table ClientSummary
  unfolding ranked
  clients_table clients selection =
      let count = count_by (matches_client to_lowercase selection) clients in
      record {
        rows =
            map (row_of (matches_client to_lowercase selection))
              (ranked client_before selection clients);
        found = count;
        hides_table = nat_beq count 0;
        hides_empty = not (is_empty clients);
        hides_no_results = ltb 0 count || is_empty clients;
        hides_error = true;
      }

  abbrev pub records_of : Option (List UserSummary) → List UserSummary
  records_of none = []
  records_of (some users) = users

  unfoldable pub users_table : Option (List UserSummary) → Selection → Table UserSummary
  unfolding ranked
  users_table users selection =
      let error = is_none users in
      let records = records_of users in
      let count = count_by (matches_user to_lowercase selection) records in
      record {
        rows =
            map (row_of (matches_user to_lowercase selection))
              (ranked user_before selection records);
        found = count;
        hides_table = error || nat_beq count 0;
        hides_empty = error || not (is_empty records);
        hides_no_results = error || ltb 0 count || is_empty records;
        hides_error = not error;
      }
