-- ===== src/App/Scopes.antt =====
-- src/app.rs: the scopes that the discovery document lists.
use pocket_oid.Base.{◌≡◌, refl, ◌||◌, List, [], ◌∷◌, arith, any, contains}
use pocket_oid.App.{insert_scopes, collect_from, collect_scopes}
use pocket_oid.BTreeSet.{insert}
use pocket_oid.BTreeSet.Laws.{contains-insert}
use pocket_oid.Config.{Client}
use pocket_oid.HashMap.{HashMap, values}
use pocket_oid.Text.{Text, text_eq}

contains-insert_scopes :
    (s : Text) (scopes set : List Text)
    → contains (insert_scopes scopes set) s ≡ (contains scopes s || contains set s)
unfolding insert_scopes
contains-insert_scopes s [] set = refl
contains-insert_scopes s (t ∷ ts) set =
    ground (arith, contains-insert_scopes s ts (insert t set), contains-insert t s set)

contains-collect_from :
    (s : Text) (cs : List Client) (set : List Text)
    → contains (collect_from cs set) s
      ≡ (any (λ c. contains c.allowed_scopes s) cs || contains set s)
unfolding collect_from
contains-collect_from s [] set = refl
contains-collect_from s (c ∷ cs) set = ground (
  arith,
  contains-collect_from s cs (insert_scopes c.allowed_scopes set),
  contains-insert_scopes s c.allowed_scopes set,
)

-- The discovery document lists exactly the scopes that some registered client is allowed.
pub contains-collect_scopes :
    (s : Text) (clients : HashMap Client)
    → contains (collect_scopes clients) s ≡ any (λ c. contains c.allowed_scopes s) (values clients)
unfolding collect_scopes
contains-collect_scopes s clients = ground (arith, contains-collect_from s (values clients) [])
