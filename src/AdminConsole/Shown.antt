-- ===== src/AdminConsole/Shown.antt =====
-- src/admin_console/views.rs: the number that a list says to be found, and the one part of the page
-- that is shown.
use pocket_oid.AdminConsole.Selection.{Selection, matches_client, matches_user}
use pocket_oid.AdminConsole.Summary.{ClientSummary}
use pocket_oid.AdminConsole.Tables.{
  TableRow, Table, row_of, ranked, enumerate_from, reverse_onto, clients_table, users_table,
  client_before, user_before,
}
use pocket_oid.Base.{
  ℕ, ◌+◌, ◌≡◌, refl, Bool, not, List, [], ◌∷◌, Option, none, some, arith, if◌then◌else◌, map,
}
use pocket_oid.Sorting.{sort_by, count_by, count-sort_by}
use pocket_oid.Text.{Text}
use pocket_oid.Users.{UserSummary}

abbrev shown_if : Bool → ℕ
shown_if hidden = if hidden then 0 else 1

module _ {ℓ} {A : Type ℓ} where
  abbrev is_shown : TableRow A → Bool
  is_shown row = not row.hidden

  -- The number of rows that are not hidden.
  abbrev shown_rows : Table A → ℕ
  shown_rows table = count_by is_shown table.rows

  -- How many of the table, the two notes and the error are shown.
  abbrev shown_parts : Table A → ℕ
  shown_parts table =
      shown_if table.hides_table
      + shown_if table.hides_empty
      + shown_if table.hides_no_results
      + shown_if table.hides_error

  -- The rows that are shown are as many as the page says, and one part of the page is shown.
  abbrev pub IsConsistent : Table A → Type 0
  IsConsistent table = (shown_rows table ≡ table.found) × (shown_parts table ≡ 1)

  module _ (matches : A → Bool) where
    abbrev shown_among : List (ℕ × A) → ℕ
    shown_among numbered = count_by is_shown (map (row_of matches) numbered)

    enumerated :
        (n : ℕ) (items : List A) → shown_among (enumerate_from n items) ≡ count_by matches items
    enumerated n [] = refl
    enumerated n (x ∷ xs) = ground (arith, enumerated (n + 1) xs)

    reversed :
        (done numbered : List (ℕ × A))
        → shown_among (reverse_onto done numbered) ≡ shown_among done + shown_among numbered
    reversed done [] = omega arith
    reversed done (x ∷ xs) = ground (arith, reversed (x ∷ done) xs)

    shown_rows-ranked :
        (le : A → A → Bool) (selection : Selection) (items : List A)
        → shown_among (ranked le selection items) ≡ count_by matches items
    unfolding ranked
    shown_rows-ranked le selection items = ground (
      arith,
      enumerated 0 (sort_by le items),
      reversed [] (enumerate_from 0 (sort_by le items)),
      count-sort_by le matches items,
    )

module _ (to_lowercase : Text → Text) where
  -- The list of clients has as many rows that are not hidden as it says to have found, whatever the
  -- filter and the order, and it shows either the table or one of the two notes.
  pub clients_table-IsConsistent :
      (clients : List ClientSummary) (selection : Selection)
      → IsConsistent (clients_table to_lowercase clients selection)
  unfolding clients_table
  clients_table-IsConsistent [] selection = (
    shown_rows-ranked (matches_client to_lowercase selection) (client_before to_lowercase) selection
        [],
    omega arith,
  )
  clients_table-IsConsistent (client ∷ clients) selection =
      let p = matches_client to_lowercase selection in
      (shown_rows-ranked p (client_before to_lowercase) selection (client ∷ clients), ground arith)

  -- The page of the users has as many rows that are not hidden as it says to have found, whatever
  -- the filter and the order, and it shows exactly one of the table, the note that there are no
  -- users, the note that none matches and the error.
  pub users_table-IsConsistent :
      (users : Option (List UserSummary)) (selection : Selection)
      → IsConsistent (users_table to_lowercase users selection)
  unfolding users_table
  users_table-IsConsistent none selection = (
    shown_rows-ranked (matches_user to_lowercase selection) (user_before to_lowercase) selection [],
    omega arith,
  )
  users_table-IsConsistent (some []) selection = (
    shown_rows-ranked (matches_user to_lowercase selection) (user_before to_lowercase) selection [],
    omega arith,
  )
  users_table-IsConsistent (some (user ∷ users)) selection =
      let p = matches_user to_lowercase selection in
      (shown_rows-ranked p (user_before to_lowercase) selection (user ∷ users), ground arith)
