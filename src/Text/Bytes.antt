-- ===== src/Text/Bytes.antt =====
-- UTF-8, by which the program compares and measures texts: `str::as_bytes` and `str::len`.
use native.Mathlib.Decide.{dec_lt}
use pocket_oid.Base.{
  All, Bool, true, all, ◌<◌, ◌≤◌, Bool-cases, inl, inr, ℕ, ◌+◌, ◌/◌, ◌%◌, ◌≡◌, refl, sym, ◌≢◌, ap₂,
  List, [], ◌∷◌, ◌++◌, arith, ltb, if◌then◌else◌, length,
}
use pocket_oid.Text.{Text}

utf8 : ℕ → List ℕ
utf8 c =
    if ltb c 128
    then c ∷ []
    else if ltb c 2048
    then (192 + c / 64) ∷ (128 + c % 64) ∷ []
    else if ltb c 65536
    then (224 + c / 4096) ∷ (128 + c / 64 % 64) ∷ (128 + c % 64) ∷ []
    else (240 + c / 262144) ∷ (128 + c / 4096 % 64) ∷ (128 + c / 64 % 64) ∷ (128 + c % 64) ∷ []

unfoldable pub as_bytes : Text → List ℕ
unfolding utf8
as_bytes [] = []
as_bytes (c ∷ s) = utf8 c ++ as_bytes s

-- `str::len` counts bytes.
unfoldable pub len : Text → ℕ
unfolding as_bytes
len s = length (as_bytes s)

-- UTF-8 is uniquely decodable.
utf8-inj : (c d : ℕ) (xs ys : List ℕ) → utf8 c ++ xs ≡ utf8 d ++ ys → (c ≡ d) × (xs ≡ ys)
unfolding utf8
utf8-inj c d xs ys h = ground arith

utf8-ne-nil : (c : ℕ) (xs : List ℕ) → utf8 c ++ xs ≢ []
unfolding utf8
utf8-ne-nil c xs = ground arith

-- Texts with the same bytes are the same text.
pub as_bytes-inj : (s t : Text) → as_bytes s ≡ as_bytes t → s ≡ t
unfolding as_bytes
as_bytes-inj [] [] h = refl
as_bytes-inj [] (d ∷ t) h = absurd (utf8-ne-nil d (as_bytes t) (sym h))
as_bytes-inj (c ∷ s) [] h = absurd (utf8-ne-nil c (as_bytes s) h)
as_bytes-inj (c ∷ s) (d ∷ t) h =
    let (same, rest) = utf8-inj c d (as_bytes s) (as_bytes t) h in
    ap₂ ◌∷◌ same (as_bytes-inj s t rest)

utf8_ascii : (c : ℕ) → c < 128 → utf8 c ≡ c ∷ []
unfolding utf8
utf8_ascii c h = ground arith

utf8_wide :
    (c : ℕ) (xs : List ℕ) → 128 ≤ c → (b : ℕ) × (ys : List ℕ) × (utf8 c ++ xs ≡ b ∷ ys) × (128 ≤ b)
unfolding utf8
utf8_wide c xs h = elim (Bool-cases (ltb c 2048)) [
  | inl two ↦ (192 + c / 64, (128 + c % 64) ∷ xs, ground arith, omega arith)
  | inr more ↦ elim (Bool-cases (ltb c 65536)) [
    | inl three ↦
        (224 + c / 4096, (128 + c / 64 % 64) ∷ (128 + c % 64) ∷ xs, ground arith, omega arith)
    | inr four ↦ (
      240 + c / 262144,
      (128 + c / 4096 % 64) ∷ (128 + c / 64 % 64) ∷ (128 + c % 64) ∷ xs,
      ground arith,
      omega arith,
    )
  ]
]

-- A text whose bytes all pass a test that only ASCII passes is its own bytes.
pub as_bytes_of_ascii :
    (p : ℕ → Bool)
    → ((b : ℕ) → p b ≡ true → b < 128)
    → (s : Text) → all p (as_bytes s) ≡ true
    → as_bytes s ≡ s
unfolding as_bytes
as_bytes_of_ascii p ascii [] h = refl
as_bytes_of_ascii p ascii (c ∷ s) h = elim (dec_lt c 128) [
  | yes small ↦
      let rest : all p (as_bytes s) ≡ true = narrow small (rw (utf8_ascii c small) at h) in
      rw (utf8_ascii c small, as_bytes_of_ascii p ascii s rest)
  | no large ↦
      let (b, ys, e, big) = utf8_wide c (as_bytes s) (omega arith) in
      let first : p b ≡ true = wide b ys (rw e at h) in absurd (omega (arith, ascii b first))
]
  where
    narrow : c < 128 → all p (c ∷ as_bytes s) ≡ true → all p (as_bytes s) ≡ true
    narrow _ k = ground arith

    wide : (b : ℕ) (ys : List ℕ) → all p (b ∷ ys) ≡ true → p b ≡ true
    wide b ys k = ground arith

-- An ASCII text is its own bytes.
pub as_bytes_of_small : (s : Text) → All (λ c. c < 128) s → as_bytes s ≡ s
unfolding as_bytes
as_bytes_of_small [] h = refl
as_bytes_of_small (c ∷ s) (h, hs) = rw (utf8_ascii c h, as_bytes_of_small s hs)
