-- ===== src/BTreeSet/Laws.antt =====
-- A collected set has the members of the list that it was collected from.
use Prim.Native.Nat.{Ordering}
use pocket_oid.Base.{◌≡◌, refl, ◌||◌, List, [], ◌∷◌, arith, ◌==◌, contains}
use pocket_oid.Text.{Text, text_eq, text_beq_iff}
use pocket_oid.BTreeSet.{compare_text, insert, collect}

pub compare_text-eq : (s t : Text) → compare_text s t ≡ Ordering.eq → s ≡ t
unfolding compare_text
compare_text-eq [] [] h = refl
compare_text-eq [] (d ∷ t) h = cc
compare_text-eq (c ∷ s) [] h = cc
compare_text-eq (c ∷ s) (d ∷ t) h = ground (arith, compare_text-eq s t)

pub contains-insert :
    (x y : Text) (s : List Text) → contains (insert x s) y ≡ (x == y || contains s y)
unfolding insert
contains-insert x y [] = refl
contains-insert x y (z ∷ s) =
    ground (arith, contains-insert x y s, compare_text-eq x z, text_beq_iff x y, text_beq_iff z y)

pub contains-collect : (y : Text) (s : List Text) → contains (collect s) y ≡ contains s y
unfolding collect
contains-collect y [] = refl
contains-collect y (x ∷ s) = ground (arith, contains-insert x y (collect s), contains-collect y s)
