-- ===== src/HashMap/Laws.antt =====
-- Reading a map after each operation, and what the operations keep.
use mathlib.Core.Path.{subst₂}
use pocket_oid.Base.{
  ◌≡◌, ◌↔◌, Option, refl, Bool, true, [], ◌∷◌, none, some, arith, ◌==◌, if◌then◌else◌, Bool-cases,
  inl, inr, All, subst,
}
use pocket_oid.Text.{Text, text_eq, text_beq_iff}
use pocket_oid.HashMap.{HashMap, filter, get, remove, insert, retain, values, IsUnique, Entries}

module _ {ℓ} {V : Type ℓ} where
  pub get-remove :
      (k j : Text) (m : HashMap V) → get j (remove k m) ≡ (if k == j then none else get j m)
  unfolding get remove
  get-remove k j [] = ground arith
  get-remove k j ((i, v) ∷ m) =
      ground (arith, text_beq_iff k j, text_beq_iff i k, text_beq_iff i j, get-remove k j m)

  pub get-insert :
      (k j : Text) (v : V) (m : HashMap V)
      → get j (insert k v m) ≡ (if k == j then some v else get j m)
  unfolding get insert
  get-insert k j v m = ground (arith, text_beq_iff k j, get-remove k j m)

  pub get-retain_absent :
      (p : V → Bool) (j : Text) (m : HashMap V) → get j m ≡ none → get j (retain p m) ≡ none
  unfolding get retain
  get-retain_absent p j [] h = refl
  get-retain_absent p j ((i, v) ∷ m) h = ground (arith, text_beq_iff i j, get-retain_absent p j m)

  -- Where no key stands twice, `retain` filters each lookup.
  pub get-retain :
      (p : V → Bool) (j : Text) (m : HashMap V)
      → IsUnique m
      → get j (retain p m) ≡ filter p (get j m)
  unfolding get retain
  get-retain p j [] u = refl
  get-retain p j ((i, v) ∷ m) (new, u) =
      ground (arith, text_beq_iff i j, get-retain p j m u, get-retain_absent p j m)

  pub retain-IsUnique : (p : V → Bool) (m : HashMap V) → IsUnique m → IsUnique (retain p m)
  unfolding retain
  retain-IsUnique p [] u = tt
  retain-IsUnique p ((i, v) ∷ m) (new, u) = elim (Bool-cases (p v)) [
    | inl e ↦ rw e (get-retain_absent p i m new, retain-IsUnique p m u)
    | inr e ↦ rw e (retain-IsUnique p m u)
  ]

  pub remove-IsUnique : (k : Text) (m : HashMap V) → IsUnique m → IsUnique (remove k m)
  unfolding remove
  remove-IsUnique k [] u = tt
  remove-IsUnique k ((i, v) ∷ m) (new, u) = elim (Bool-cases (i == k)) [
    | inl e ↦ rw e (remove-IsUnique k m u)
    | inr e ↦ rw e (ground (arith, get-remove k i m), remove-IsUnique k m u)
  ]

  pub insert-IsUnique : (k : Text) (v : V) (m : HashMap V) → IsUnique m → IsUnique (insert k v m)
  unfolding insert
  insert-IsUnique k v m u =
      (ground (arith, get-remove k k m, text_beq_iff k k), remove-IsUnique k m u)

  module _ {κ} (P : Text → V → Type κ) where
    pub retain-Entries : (p : V → Bool) (m : HashMap V) → Entries P m → Entries P (retain p m)
    unfolding retain
    retain-Entries p [] h = tt
    retain-Entries p ((i, v) ∷ m) (h, hs) = elim (Bool-cases (p v)) [
      | inl e ↦ rw e (h, retain-Entries p m hs)
      | inr e ↦ rw e (retain-Entries p m hs)
    ]

    pub remove-Entries : (k : Text) (m : HashMap V) → Entries P m → Entries P (remove k m)
    unfolding remove
    remove-Entries k [] h = tt
    remove-Entries k ((i, v) ∷ m) (h, hs) = elim (Bool-cases (i == k)) [
      | inl e ↦ rw e (remove-Entries k m hs)
      | inr e ↦ rw e (h, remove-Entries k m hs)
    ]

    pub insert-Entries :
        (k : Text) (v : V) (m : HashMap V) → P k v → Entries P m → Entries P (insert k v m)
    unfolding insert
    insert-Entries k v m p h = (p, remove-Entries k m h)

    pub get-Entries : (k : Text) {v : V} (m : HashMap V) → Entries P m → get k m ≡ some v → P k v
    unfolding get
    get-Entries k [] h e = cc
    get-Entries k {v} ((i, w) ∷ m) (h, hs) e = elim (Bool-cases (i == k)) [
      | inl same ↦
          let here : some w ≡ some v = rw same at e in
          let value : w ≡ v = cc here in subst₂ P ((text_beq_iff i k).0 same) value h
      | inr other ↦ get-Entries k m hs (rw other at e)
    ]

-- What holds of every value holds of a value that is found.
pub get-All_values {ℓ κ} :
    {V : Type ℓ} (P : V → Type κ) (k : Text) {v : V} (m : HashMap V)
    → All P (values m)
    → get k m ≡ some v
    → P v
unfolding get
get-All_values P k [] h e = cc
get-All_values P k {v} ((i, w) ∷ m) (h, hs) e = elim (Bool-cases (i == k)) [
  | inl same ↦
      let here : some w ≡ some v = rw same at e in let value : w ≡ v = cc here in subst P value h
  | inr other ↦ get-All_values P k m hs (rw other at e)
]

pub filter_iff {ℓ} :
    {A : Type ℓ} (p : A → Bool) (o : Option A) (v : A)
    → (filter p o ≡ some v) ↔ ((o ≡ some v) × (p v ≡ true))
filter_iff p none v = ((λ h. cc), (λ h. cc))
filter_iff p (some w) v = ground arith
