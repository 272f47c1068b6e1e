-- ===== src/Uri/Escape.antt =====
-- What survives the escaping of a query component.
use pocket_oid.Base.{
  ℕ, ◌≡◌, refl, sym, ap, ap₂, ◌∙◌, ◌⊎◌, false, [], ◌∷◌, ◌++◌, arith, nat_beq, nat_beq_iff,
  Bool-cases, inl, inr,
}
use pocket_oid.Text.{Text}
use pocket_oid.Text.Split.{IsFree}
use pocket_oid.Uri.{encode_uri_component, decode_uri_component, is_escape}

-- `%20` stands nowhere in the text.
abbrev pub HasNoEscape : Text → Type 0
HasNoEscape [] = Unit
HasNoEscape (a ∷ []) = Unit
HasNoEscape (a ∷ b ∷ []) = Unit
HasNoEscape (a ∷ b ∷ c ∷ s) = (is_escape a b c ≡ false) × HasNoEscape (b ∷ c ∷ s)

pub HasNoEscape-tail : (c : ℕ) (s : Text) → HasNoEscape (c ∷ s) → HasNoEscape s
HasNoEscape-tail c [] h = tt
HasNoEscape-tail c (d ∷ []) h = tt
HasNoEscape-tail c (d ∷ e ∷ s) h = h.1

-- A character before an escaped text is not the start of an escape.
decode-cons_encode :
    (c : ℕ) (s : Text)
    → HasNoEscape (c ∷ s)
    → decode_uri_component (c ∷ encode_uri_component s)
      ≡ c ∷ decode_uri_component (encode_uri_component s)
unfolding encode_uri_component decode_uri_component
decode-cons_encode c [] h = refl
decode-cons_encode c (d ∷ []) h = ground arith
decode-cons_encode c (d ∷ e ∷ s) h = ground (arith, h.0)

decode_blank :
    (s : Text) → decode_uri_component (b'%' ∷ b'2' ∷ b'0' ∷ s) ≡ b' ' ∷ decode_uri_component s
unfolding decode_uri_component
decode_blank s = refl

decode_nil : decode_uri_component [] ≡ []
unfolding decode_uri_component
decode_nil = refl

-- A text without `%20` comes back.
pub decode-encode : (s : Text) → HasNoEscape s → decode_uri_component (encode_uri_component s) ≡ s
unfolding encode_uri_component
decode-encode [] h = decode_nil
decode-encode (c ∷ s) h =
    let back = decode-encode s (HasNoEscape-tail c s h) in
    elim (Bool-cases (nat_beq c b' ')) [
      | inl e ↦
          rw (e, encode_uri_component)
            (decode_blank (encode_uri_component s) ∙ ap₂ ◌∷◌ (sym ((nat_beq_iff c b' ').0 e)) back)
      | inr e ↦ rw (e, encode_uri_component) (decode-cons_encode c s h ∙ ap (◌∷◌ c) back)
    ]

-- A decoded text starts with its first character, or with the blank of an escape.
decode_head :
    (c : ℕ) (s : Text)
    → (d : ℕ) × (t : Text) × (decode_uri_component (c ∷ s) ≡ d ∷ t) × ((d ≡ c) ⊎ (d ≡ b' '))
unfolding decode_uri_component
decode_head c [] = (c, [], refl, inl refl)
decode_head c (d ∷ []) = (c, d ∷ [], refl, inl refl)
decode_head c (d ∷ e ∷ s) = elim (Bool-cases (is_escape c d e)) [
  | inl yes_escape ↦ (b' ', decode_uri_component s, rw yes_escape, inr refl)
  | inr not_escape ↦ (c, decode_uri_component (d ∷ e ∷ s), rw not_escape, inl refl)
]

HasNoEscape-blank : (t : Text) → HasNoEscape t → HasNoEscape (b' ' ∷ t)
HasNoEscape-blank [] h = tt
HasNoEscape-blank (a ∷ []) h = tt
HasNoEscape-blank (a ∷ b ∷ t) h = (refl, h)

HasNoEscape-cons :
    (a b c : ℕ) (t : Text)
    → is_escape a b c ≡ false
    → HasNoEscape (b ∷ c ∷ t)
    → HasNoEscape (a ∷ b ∷ c ∷ t)
HasNoEscape-cons a b c t e h = (e, h)

decode-HasNoEscape_plain :
    (a b c : ℕ) (s : Text)
    → is_escape a b c ≡ false
    → HasNoEscape (decode_uri_component (b ∷ c ∷ s))
    → HasNoEscape (a ∷ decode_uri_component (b ∷ c ∷ s))
unfolding decode_uri_component
decode-HasNoEscape_plain a b c [] e h = (e, tt)
decode-HasNoEscape_plain a b c (d ∷ s) e h = elim (Bool-cases (is_escape b c d)) [
  | inl blank ↦
      rw (blank, decode_uri_component)
        (after_blank (decode_uri_component s) (rw (blank, decode_uri_component) at h))
  | inr plain ↦
      let (x, t, made, origin) = decode_head c (d ∷ s) in
      rw (plain, made, decode_uri_component)
        (HasNoEscape-cons a b x t (ground arith) (rw (plain, made, decode_uri_component) at h))
]
  where
    after_blank : (t : Text) → HasNoEscape (b' ' ∷ t) → HasNoEscape (a ∷ b' ' ∷ t)
    after_blank [] k = tt
    after_blank (x ∷ t) k = (ground arith, k)

-- Decoding leaves no `%20` behind.
pub decode-HasNoEscape : (s : Text) → HasNoEscape (decode_uri_component s)
unfolding decode_uri_component
decode-HasNoEscape [] = tt
decode-HasNoEscape (a ∷ []) = tt
decode-HasNoEscape (a ∷ b ∷ []) = tt
decode-HasNoEscape (a ∷ b ∷ c ∷ s) = elim (Bool-cases (is_escape a b c)) [
  | inl e ↦ rw e (HasNoEscape-blank _ (decode-HasNoEscape s))
  | inr e ↦ rw e (decode-HasNoEscape_plain a b c s e (decode-HasNoEscape (b ∷ c ∷ s)))
]

pub encode-IsFree :
    (s : Text)
    → IsFree (λ c. nat_beq c b'&') s
    → IsFree (λ c. nat_beq c b'&') (encode_uri_component s)
unfolding encode_uri_component
encode-IsFree [] h = tt
encode-IsFree (c ∷ s) (h, hs) = elim (Bool-cases (nat_beq c b' ')) [
  | inl e ↦ rw e (refl, (refl, (refl, encode-IsFree s hs)))
  | inr e ↦ rw e (h, encode-IsFree s hs)
]

-- Decoding brings in no `&`.
pub decode-IsFree :
    (s : Text)
    → IsFree (λ c. nat_beq c b'&') s
    → IsFree (λ c. nat_beq c b'&') (decode_uri_component s)
unfolding decode_uri_component
decode-IsFree [] h = tt
decode-IsFree (a ∷ []) h = h
decode-IsFree (a ∷ b ∷ []) h = h
decode-IsFree (a ∷ b ∷ c ∷ s) (ha, (hb, (hc, hs))) = elim (Bool-cases (is_escape a b c)) [
  | inl e ↦ rw e (refl, decode-IsFree s hs)
  | inr e ↦ rw e (ha, decode-IsFree (b ∷ c ∷ s) (hb, (hc, hs)))
]

pub HasNoEscape-prefix : (s t : Text) → HasNoEscape (s ++ t) → HasNoEscape s
HasNoEscape-prefix [] t h = tt
HasNoEscape-prefix (a ∷ []) t h = tt
HasNoEscape-prefix (a ∷ b ∷ []) t h = tt
HasNoEscape-prefix (a ∷ b ∷ c ∷ s) t (h, hs) = (h, HasNoEscape-prefix (b ∷ c ∷ s) t hs)

-- A blank between two texts makes no escape.
pub HasNoEscape-join : (s t : Text) → HasNoEscape s → HasNoEscape t → HasNoEscape (s ++ b' ' ∷ t)
HasNoEscape-join [] t h k = HasNoEscape-blank t k
HasNoEscape-join (a ∷ []) [] h k = tt
HasNoEscape-join (a ∷ []) (x ∷ t) h k = (ground arith, HasNoEscape-blank (x ∷ t) k)
HasNoEscape-join (a ∷ b ∷ []) t h k = (ground arith, HasNoEscape-join (b ∷ []) t tt k)
HasNoEscape-join (a ∷ b ∷ c ∷ s) t (h, hs) k = (h, HasNoEscape-join (b ∷ c ∷ s) t hs k)
