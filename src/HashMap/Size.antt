-- ===== src/HashMap/Size.antt =====
-- The number of a map's entries after each operation.
use pocket_oid.Base.{suc, ◌≤◌, Bool, List, [], ◌∷◌, arith, length, keep}
use pocket_oid.HashMap.{HashMap, remove, insert, retain}
use pocket_oid.Text.{Text, text_eq}

module _ {ℓ} {V : Type ℓ} where
  pub length-remove : (k : Text) (m : HashMap V) → length (remove k m) ≤ length m
  unfolding remove
  length-remove k [] = omega arith
  length-remove k ((j, v) ∷ m) = ground (arith, length-remove k m)

  pub length-retain : (p : V → Bool) (m : HashMap V) → length (retain p m) ≤ length m
  unfolding retain
  length-retain p [] = omega arith
  length-retain p ((j, v) ∷ m) = ground (arith, length-retain p m)

  pub length-insert : (k : Text) (v : V) (m : HashMap V) → length (insert k v m) ≤ suc (length m)
  unfolding insert
  length-insert k v m = omega (arith, length-remove k m)

pub length-keep {ℓ} : {A : Type ℓ} (p : A → Bool) (xs : List A) → length (keep p xs) ≤ length xs
length-keep p [] = omega arith
length-keep p (x ∷ xs) = ground (arith, length-keep p xs)
