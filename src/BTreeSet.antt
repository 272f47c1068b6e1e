-- ===== src/BTreeSet.antt =====
-- `BTreeSet<String>`: a list in ascending order, each text once.
pub mod Laws
use Prim.Native.Nat.{compare, Ordering}
use pocket_oid.Base.{List, [], ◌∷◌, ◌≡◌}
use pocket_oid.Text.{Text}

-- `Ord` for `str`: the order of the code points is that of their UTF-8 bytes.
unfoldable pub compare_text : Text → Text → Ordering
compare_text [] [] = Ordering.eq
compare_text [] (d ∷ t) = Ordering.lt
compare_text (c ∷ s) [] = Ordering.gt
compare_text (c ∷ s) (d ∷ t) =
    let rest = compare_text s t in
    elim (compare c d) [
      | Ordering.lt ↦ Ordering.lt
      | Ordering.eq ↦ rest
      | Ordering.gt ↦ Ordering.gt
    ]

unfoldable pub insert : Text → List Text → List Text
unfolding compare_text
insert x [] = x ∷ []
insert x (y ∷ ys) =
    let rest = insert x ys in
    elim (compare_text x y) [
      | Ordering.lt ↦ x ∷ y ∷ ys
      | Ordering.eq ↦ y ∷ ys
      | Ordering.gt ↦ y ∷ rest
    ]

-- `into_iter().collect()`.
unfoldable pub collect : List Text → List Text
unfolding insert
collect [] = []
collect (x ∷ xs) = insert x (collect xs)
