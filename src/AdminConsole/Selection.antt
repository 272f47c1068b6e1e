-- ===== src/AdminConsole/Selection.antt =====
-- src/admin_console/mod.rs: `Selection`, the filter of the lists. `str::to_lowercase` and the encoding
-- of a query are those of crates, and arguments.
use pocket_oid.AdminConsole.Summary.{ClientSummary}
use pocket_oid.Base.{
  Bool, true, false, ◌&&◌, ◌||◌, not, List, [], ◌∷◌, ◌++◌, Option, none, some, if◌then◌else◌,
  is_empty, is_some, ◌==◌, map,
}
use pocket_oid.Text.{to_ascii_lowercase, Text, text_eq, codes, trim, strip_prefix, join}
use pocket_oid.Users.{UserSummary}

pub record Selection : Type 0 where
  pub q : Text
  pub id : Option Text
  pub status : Text
  pub auth : Text
  pub sort : Text

unfoldable pub status_of : Selection → Text
status_of selection =
    if selection.status == codes "enabled"
    then codes "enabled"
    else if selection.status == codes "disabled"
    then codes "disabled"
    else codes "all"

unfoldable pub auth_of : Selection → Text
auth_of selection =
    if selection.auth == codes "local"
    then codes "local"
    else if selection.auth == codes "upstream"
    then codes "upstream"
    else codes "all"

unfoldable pub sort_of : Selection → Text
sort_of selection = if selection.sort == codes "desc" then codes "desc" else codes "asc"

-- `str::contains`.
unfoldable pub contains_text : Text → Text → Bool
unfolding strip_prefix
contains_text needle [] = is_empty needle
contains_text needle (c ∷ s) = is_some (strip_prefix needle (c ∷ s)) || contains_text needle s

-- `str::eq_ignore_ascii_case`.
unfoldable pub eq_ignore_ascii_case : Text → Text → Bool
eq_ignore_ascii_case s t = map to_ascii_lowercase s == map to_ascii_lowercase t

module _ (to_lowercase : Text → Text) where
  unfoldable pub matches : Selection → Text → Bool → Bool
  unfolding contains_text status_of
  matches selection text enabled =
      contains_text (to_lowercase (trim selection.q)) (to_lowercase text)
      && (if status_of selection == codes "enabled"
          then enabled
          else if status_of selection == codes "disabled"
          then not enabled
          else true)

  unfoldable pub matches_client : Selection → ClientSummary → Bool
  unfolding matches auth_of eq_ignore_ascii_case
  matches_client selection client =
      matches selection (client.id ++ (b' ' ∷ join (b' ' ∷ []) client.scopes)) client.enabled
      && (auth_of selection == codes "all" || eq_ignore_ascii_case (auth_of selection) client.mode)

  unfoldable pub matches_user : Selection → UserSummary → Bool
  unfolding matches
  matches_user selection user = matches selection (user.username ++ (b' ' ∷ user.id)) user.enabled

-- `append_pair` of `form_urlencoded`, by the encoding of one text.
module _ (byte_serialize : Text → Text) where
  abbrev pair_if : Bool → Text → Text → List Text
  pair_if true name value = (byte_serialize name ++ (b'=' ∷ byte_serialize value)) ∷ []
  pair_if false name value = []

  abbrev id_pair : Option Text → List Text
  id_pair none = []
  id_pair (some id) = pair_if true (codes "id") id

  unfoldable pub params : Selection → Text → Option Text → List Text
  unfolding status_of auth_of sort_of
  params selection section id =
      id_pair id
      ++ (pair_if (not (is_empty selection.q)) (codes "q") selection.q
          ++ (pair_if (not (status_of selection == codes "all")) (codes "status")
                (status_of selection)
              ++ (pair_if (section == codes "clients" && not (auth_of selection == codes "all"))
                    (codes "auth") (auth_of selection)
                  ++ pair_if (not (sort_of selection == codes "asc")) (codes "sort")
                      (sort_of selection))))

  unfoldable pub url : Selection → Text → Option Text → Text
  unfolding params
  url selection section id =
      let query = join (b'&' ∷ []) (params selection section id) in
      if is_empty query
      then codes "/admin/" ++ section
      else codes "/admin/" ++ (section ++ (b'?' ∷ query))
