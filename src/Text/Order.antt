-- ===== src/Text/Order.antt =====
-- The order of texts: `Ord for str`, and SQLite's `BINARY` and `NOCASE`. The order of the bytes of
-- UTF-8 is that of the code points.
use pocket_oid.Base.{
  ◌≡◌, refl, Bool, true, false, ◌&&◌, ◌||◌, not, [], ◌∷◌, arith, ltb, nat_beq, map,
}
use pocket_oid.Text.{Text, to_ascii_lowercase, text_beq, text_beq_iff}

unfoldable pub text_leb : Text → Text → Bool
text_leb [] t = true
text_leb (c ∷ s) [] = false
text_leb (c ∷ s) (d ∷ t) = ltb c d || (nat_beq c d && text_leb s t)

-- The order of what `fold` makes of the texts, and of the texts themselves where that is the same.
unfoldable pub folded_leb : (Text → Text) → Text → Text → Bool
unfolding text_leb
folded_leb fold s t =
    text_leb (fold s) (fold t) && (not (text_beq (fold s) (fold t)) || text_leb s t)

-- `COLLATE NOCASE`, and then the text itself.
abbrev pub nocase_leb : Text → Text → Bool
nocase_leb s t = folded_leb (map to_ascii_lowercase) s t

pub text_leb_total : (s t : Text) → (text_leb s t || text_leb t s) ≡ true
unfolding text_leb
text_leb_total [] t = refl
text_leb_total (c ∷ s) [] = refl
text_leb_total (c ∷ s) (d ∷ t) = ground (arith, text_leb_total s t)

pub text_leb_trans :
    (s t u : Text) → text_leb s t ≡ true → text_leb t u ≡ true → text_leb s u ≡ true
unfolding text_leb
text_leb_trans [] t u h k = refl
text_leb_trans (c ∷ s) [] u h k = absurd (ground (arith, h))
text_leb_trans (c ∷ s) (d ∷ t) [] h k = absurd (ground (arith, k))
text_leb_trans (c ∷ s) (d ∷ t) (e ∷ u) h k = ground (arith, text_leb_trans s t u)

pub text_leb_antisym : (s t : Text) → text_leb s t ≡ true → text_leb t s ≡ true → s ≡ t
unfolding text_leb
text_leb_antisym [] [] h k = refl
text_leb_antisym [] (d ∷ t) h k = absurd (ground (arith, k))
text_leb_antisym (c ∷ s) [] h k = absurd (ground (arith, h))
text_leb_antisym (c ∷ s) (d ∷ t) h k = ground (arith, text_leb_antisym s t)

module _ (fold : Text → Text) where
  pub folded_leb_total : (s t : Text) → (folded_leb fold s t || folded_leb fold t s) ≡ true
  unfolding folded_leb
  folded_leb_total s t = ground (
    arith,
    text_leb_total s t,
    text_leb_total (fold s) (fold t),
    text_beq_iff (fold s) (fold t),
    text_beq_iff (fold t) (fold s),
  )

  pub folded_leb_trans :
      (s t u : Text)
      → folded_leb fold s t ≡ true
      → folded_leb fold t u ≡ true
      → folded_leb fold s u ≡ true
  unfolding folded_leb
  folded_leb_trans s t u h k = ground (
    arith,
    text_leb_trans s t u,
    text_leb_trans (fold s) (fold t) (fold u),
    text_leb_antisym (fold s) (fold t),
    text_leb_antisym (fold t) (fold u),
    text_beq_iff (fold s) (fold t),
    text_beq_iff (fold t) (fold u),
    text_beq_iff (fold s) (fold u),
  )
