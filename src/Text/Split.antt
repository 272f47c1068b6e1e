-- ===== src/Text/Split.antt =====
-- Splitting undoes joining, and what splitting guarantees of the pieces.
use pocket_oid.Base.{
  ℕ, ◌≡◌, refl, ap, ◌∙◌, subst, Bool, true, false, not, List, [], ◌∷◌, ◌++◌, some, nat_beq,
  nat_beq_iff, is_empty, keep, All, Bool-cases, inl, inr, Option-cases,
}
use pocket_oid.Text.{Text, extend, split_by, split_whitespace, is_whitespace, split_once, join}

-- No character of the text satisfies the test.
abbrev pub IsFree : (ℕ → Bool) → Text → Type 0
IsFree p s = All (λ c. p c ≡ false) s

-- A word: not empty, and without white space.
pub record IsWord (w : Text) : Type 0 where
  pub nonempty : is_empty w ≡ false
  pub free : IsFree is_whitespace w

module _ (p : ℕ → Bool) where
  split_by_free : (w : Text) → IsFree p w → split_by p w ≡ w ∷ []
  unfolding split_by
  split_by_free [] h = refl
  split_by_free (c ∷ w) (h, hs) = rw (h, split_by_free w hs)

  split_by-append :
      (w : Text) (c : ℕ) (s : Text)
      → IsFree p w
      → p c ≡ true
      → split_by p (w ++ c ∷ s) ≡ w ∷ split_by p s
  unfolding split_by
  split_by-append [] c s h e = rw e
  split_by-append (x ∷ w) c s (h, hs) e = rw (h, split_by-append w c s hs e)

  -- Pieces that hold no separator come back from the joined text.
  pub split_by-join :
      (c : ℕ) (w : Text) (ws : List Text)
      → p c ≡ true
      → All (IsFree p) (w ∷ ws)
      → split_by p (join (c ∷ []) (w ∷ ws)) ≡ w ∷ ws
  unfolding join
  split_by-join c w [] e (h, hs) = split_by_free w h
  split_by-join c w (v ∷ ws) e (h, hs) =
      split_by-append w c (join (c ∷ []) (v ∷ ws)) h e ∙ ap (◌∷◌ w) (split_by-join c v ws e hs)

  extend-All :
      (c : ℕ) (ws : List Text) → p c ≡ false → All (IsFree p) ws → All (IsFree p) (extend c ws)
  extend-All c [] e h = ((e, tt), tt)
  extend-All c (w ∷ ws) e (h, hs) = ((e, h), hs)

  -- No piece holds a separator.
  pub split_by-All : (s : Text) → All (IsFree p) (split_by p s)
  unfolding split_by
  split_by-All [] = (tt, tt)
  split_by-All (c ∷ s) = elim (Bool-cases (p c)) [
    | inl e ↦ rw e (tt, split_by-All s)
    | inr e ↦ rw e (extend-All c (split_by p s) e (split_by-All s))
  ]

keep_words :
    (ws : List Text) → All (IsFree is_whitespace) ws → All IsWord (keep (λ w. not (is_empty w)) ws)
keep_words [] h = tt
keep_words ([] ∷ ws) (h, hs) = keep_words ws hs
keep_words ((c ∷ w) ∷ ws) (h, hs) = (record { nonempty = refl; free = h }, keep_words ws hs)

-- `split_whitespace` yields words.
pub split_whitespace-All : (s : Text) → All IsWord (split_whitespace s)
split_whitespace-All s = keep_words (split_by is_whitespace s) (split_by-All is_whitespace s)

keep_all_words : (ws : List Text) → All IsWord ws → keep (λ w. not (is_empty w)) ws ≡ ws
keep_all_words [] h = refl
keep_all_words ([] ∷ ws) (h, hs) = cc h.nonempty
keep_all_words ((c ∷ w) ∷ ws) (h, hs) = ap (◌∷◌ (c ∷ w)) (keep_all_words ws hs)

words-All : (ws : List Text) → All IsWord ws → All (IsFree is_whitespace) ws
words-All [] h = tt
words-All (w ∷ ws) (h, hs) = (h.free, words-All ws hs)

-- Words joined by a blank come back.
pub split_whitespace-join :
    (ws : List Text) → All IsWord ws → split_whitespace (join (b' ' ∷ []) ws) ≡ ws
unfolding join is_whitespace split_by
split_whitespace-join [] h = refl
split_whitespace-join (w ∷ ws) h =
    ap (keep (λ v. not (is_empty v)))
      (split_by-join is_whitespace b' ' w ws refl (words-All (w ∷ ws) h))
    ∙ keep_all_words (w ∷ ws) h

-- The first separator splits.
pub split_once-append :
    (sep : ℕ) (k v : Text)
    → IsFree (λ c. nat_beq c sep) k
    → split_once sep (k ++ sep ∷ v) ≡ some (k, v)
unfolding split_once
split_once-append sep [] v h = rw ((nat_beq_iff sep sep).1 refl)
split_once-append sep (c ∷ k) v (h, hs) = rw (h, split_once-append sep k v hs)

-- What `split_once` returns makes up the text, and the key holds no separator.
pub split_once_sound :
    (sep : ℕ) (s k v : Text)
    → split_once sep s ≡ some (k, v)
    → (s ≡ k ++ sep ∷ v) × IsFree (λ c. nat_beq c sep) k
unfolding split_once
split_once_sound sep [] k v h = cc
split_once_sound sep (c ∷ s) k v h = elim (Bool-cases (nat_beq c sep)) [
  | inl e ↦
      let found : some ([], s) ≡ some (k, v) = rw e at h in
      let key : [] ≡ k = cc found in
      (cc (found, (nat_beq_iff c sep).0 e), subst (IsFree (λ d. nat_beq d sep)) key tt)
  | inr e ↦ elim (Option-cases (split_once sep s)) [
    | inl missed ↦ cc (rw (e, missed, split_once) at h)
    | inr ((k', v'), rest) ↦
        let found : some (c ∷ k', v') ≡ some (k, v) = rw (e, rest, split_once) at h in
        let (made, free) = split_once_sound sep s k' v' rest in
        let key : c ∷ k' ≡ k = cc found in
        (cc (found, made), subst (IsFree (λ d. nat_beq d sep)) key (e, free))
  ]
]
