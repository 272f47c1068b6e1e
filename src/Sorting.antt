-- ===== src/Sorting.antt =====
-- `sort_by` of a `Vec`, and `ORDER BY` of a query: both sort by the order of a Boolean test, and keep
-- equal elements in their order.
use pocket_oid.Base.{
  ℕ, ◌+◌, ◌≡◌, refl, Bool, true, ◌||◌, List, [], ◌∷◌, arith, if◌then◌else◌, All, inl, inr,
  Bool-cases,
}

module _ {ℓ} {A : Type ℓ} where
  abbrev insert_by : (A → A → Bool) → A → List A → List A
  insert_by le x [] = x ∷ []
  insert_by le x (y ∷ ys) = let rest = insert_by le x ys in if le x y then x ∷ y ∷ ys else y ∷ rest

  unfoldable pub sort_by : (A → A → Bool) → List A → List A
  sort_by le [] = []
  sort_by le (x ∷ xs) = insert_by le x (sort_by le xs)

  -- How many elements pass a test.
  abbrev pub count_by : (A → Bool) → List A → ℕ
  count_by p [] = 0
  count_by p (x ∷ xs) = (if p x then 1 else 0) + count_by p xs

  abbrev pub IsSorted : (A → A → Bool) → List A → Type ℓ
  IsSorted le [] = Unit
  IsSorted le (x ∷ xs) = All (λ y. le x y ≡ true) xs × IsSorted le xs

  pub record IsOrder (le : A → A → Bool) : Type ℓ where
    pub total : (x y : A) → (le x y || le y x) ≡ true
    pub trans : (x y z : A) → le x y ≡ true → le y z ≡ true → le x z ≡ true

  module _ (le : A → A → Bool) where
    count-insert_by :
        (p : A → Bool) (x : A) (xs : List A) → count_by p (insert_by le x xs) ≡ count_by p (x ∷ xs)
    count-insert_by p x [] = refl
    count-insert_by p x (y ∷ ys) = ground (arith, count-insert_by p x ys)

    -- A sorted list has the elements of the list.
    pub count-sort_by : (p : A → Bool) (xs : List A) → count_by p (sort_by le xs) ≡ count_by p xs
    unfolding sort_by
    count-sort_by p [] = refl
    count-sort_by p (x ∷ xs) =
        ground (arith, count-insert_by p x (sort_by le xs), count-sort_by p xs)

    module _ (o : IsOrder le) where
      All-trans :
          (x y : A) (ys : List A)
          → le x y ≡ true
          → All (λ z. le y z ≡ true) ys
          → All (λ z. le x z ≡ true) ys
      All-trans x y [] h below = tt
      All-trans x y (z ∷ zs) h (first, below) = (o.trans x y z h first, All-trans x y zs h below)

      All-insert_by :
          (x y : A) (ys : List A)
          → le y x ≡ true
          → All (λ z. le y z ≡ true) ys
          → All (λ z. le y z ≡ true) (insert_by le x ys)
      All-insert_by x y [] h below = (h, tt)
      All-insert_by x y (z ∷ zs) h (first, below) =
          ground (arith, h, first, below, All-insert_by x y zs h below)

      insert_by-IsSorted : (x : A) (ys : List A) → IsSorted le ys → IsSorted le (insert_by le x ys)
      insert_by-IsSorted x [] h = (tt, tt)
      insert_by-IsSorted x (y ∷ ys) (below, h) = elim (Bool-cases (le x y)) [
        | inl e ↦ ground (arith, e, below, h, All-trans x y ys e below)
        | inr e ↦ ground (
          arith,
          e,
          o.total x y,
          insert_by-IsSorted x ys h,
          All-insert_by x y ys (ground (arith, e, o.total x y)) below,
        )
      ]

      -- It is sorted.
      pub sort_by-IsSorted : (xs : List A) → IsSorted le (sort_by le xs)
      unfolding sort_by
      sort_by-IsSorted [] = tt
      sort_by-IsSorted (x ∷ xs) = insert_by-IsSorted x (sort_by le xs) (sort_by-IsSorted xs)
