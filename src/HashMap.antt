-- ===== src/HashMap.antt =====
-- `std::collections::HashMap` from texts: an association list in which a key stands once. The
-- program nowhere depends on the order of its iteration.
pub mod Laws
pub mod Size
use pocket_oid.Base.{
  Bool, List, [], ◌∷◌, Option, none, some, ◌==◌, if◌then◌else◌, is_some, ◌≡◌, ◌≢◌, All, map,
}
use pocket_oid.Text.{Text, text_eq}

abbrev pub HashMap {ℓ} : Type ℓ → Type ℓ
HashMap V = List (Text × V)

-- `Option::filter`.
abbrev pub filter {ℓ} : {A : Type ℓ} → (A → Bool) → Option A → Option A
filter p none = none
filter p (some a) = if p a then some a else none

module _ {ℓ} {V : Type ℓ} where
  unfoldable pub get : Text → HashMap V → Option V
  get k [] = none
  get k ((j, v) ∷ m) = if j == k then some v else get k m

  abbrev pub contains_key : Text → HashMap V → Bool
  contains_key k m = is_some (get k m)

  unfoldable pub remove : Text → HashMap V → HashMap V
  remove k [] = []
  remove k ((j, v) ∷ m) = let rest = remove k m in if j == k then rest else (j, v) ∷ rest

  unfoldable pub insert : Text → V → HashMap V → HashMap V
  unfolding remove
  insert k v m = (k, v) ∷ remove k m

  -- `retain` with a test on the values.
  unfoldable pub retain : (V → Bool) → HashMap V → HashMap V
  retain p [] = []
  retain p ((j, v) ∷ m) = let rest = retain p m in if p v then (j, v) ∷ rest else rest

  abbrev pub values : HashMap V → List V
  values m = map (λ e. e.1) m

  -- No key stands twice.
  abbrev pub IsUnique : HashMap V → Type ℓ
  IsUnique [] = Unit
  IsUnique ((j, v) ∷ m) = (get j m ≡ none) × IsUnique m

  -- Every entry satisfies `P`.
  abbrev pub Entries {κ} : (Text → V → Type κ) → HashMap V → Type κ
  Entries P m = All (λ e. P e.0 e.1) m
