-- ===== src/Uri/Prompts.antt =====
-- The prompts of a request, and those of them that are left after a login.
use pocket_oid.Base.{
  ℕ, ◌≡◌, refl, ap, subst, Bool, true, false, not, List, [], ◌∷◌, ◌++◌, Option, none, some, arith,
  nat_beq, All, any, keep, length, is_empty, ◌==◌, Bool-cases, inl, inr, if◌then◌else◌, ◌≤◌,
}
use pocket_oid.Text.{Text, codes, text_eq, split_by, join}
use pocket_oid.Text.Split.{IsFree, IsWord, split_whitespace-join}
use pocket_oid.Uri.{AuthorizeRequest, requests_fresh_authentication}
use pocket_oid.Uri.Escape.{HasNoEscape, HasNoEscape-tail, HasNoEscape-prefix, HasNoEscape-join}
use pocket_oid.Uri.RoundTrip.{IsCarried, IsCarriedOption, AreCarried}
use pocket_oid.Uri.Parsed.{blank-IsCarried}

-- The words of a carried text, joined again, can be carried.
split_by-prefix :
    (p : ℕ → Bool) (s : Text)
    → (w : Text) × (ws : List Text) × (rest : Text) × (split_by p s ≡ w ∷ ws) × (s ≡ w ++ rest)
unfolding split_by
split_by-prefix p [] = ([], [], [], refl, refl)
split_by-prefix p (c ∷ s) =
    let (w, ws, rest, e, made) = split_by-prefix p s in
    elim (Bool-cases (p c)) [
      | inl yes_sep ↦ ([], split_by p s, c ∷ s, rw (yes_sep, split_by), refl)
      | inr not_sep ↦ (c ∷ w, ws, rest, rw (not_sep, e, split_by), ap (◌∷◌ c) made)
    ]

extend-IsCarried :
    (c : ℕ) (w : Text) (ws : List Text) (rest s : Text)
    → s ≡ w ++ rest
    → IsCarried (c ∷ s)
    → All IsCarried (w ∷ ws)
    → All IsCarried ((c ∷ w) ∷ ws)
extend-IsCarried c w ws rest s made h (k, ks) =
    let whole : HasNoEscape ((c ∷ w) ++ rest) = subst (λ t. HasNoEscape (c ∷ t)) made h.no_escape in
    (
      record {
        no_escape = HasNoEscape-prefix (c ∷ w) rest whole;
        no_separator = (h.no_separator.0, k.no_separator);
      },
      ks,
    )

pub split_by-IsCarried : (p : ℕ → Bool) (s : Text) → IsCarried s → All IsCarried (split_by p s)
unfolding split_by
split_by-IsCarried p [] h = (h, tt)
split_by-IsCarried p (c ∷ s) h =
    let tail : IsCarried s = record {
      no_escape = HasNoEscape-tail c s h.no_escape;
      no_separator = h.no_separator.1;
    } in
    let pieces = split_by-IsCarried p s tail in
    let (w, ws, rest, e, made) = split_by-prefix p s in
    elim (Bool-cases (p c)) [
      | inl yes_sep ↦ rw (yes_sep, split_by) (blank-IsCarried, pieces)
      | inr not_sep ↦
          rw (not_sep, e, split_by) (extend-IsCarried c w ws rest s made h (rw e at pieces))
    ]

pub keep-All {ℓ κ} :
    {A : Type ℓ} (P : A → Type κ) (p : A → Bool) (xs : List A) → All P xs → All P (keep p xs)
keep-All P p [] h = tt
keep-All P p (x ∷ xs) (h, hs) = elim (Bool-cases (p x)) [
  | inl e ↦ rw e (h, keep-All P p xs hs)
  | inr e ↦ rw e (keep-All P p xs hs)
]

append_blank-IsFree :
    (s t : Text)
    → IsFree (λ c. nat_beq c b'&') s
    → IsFree (λ c. nat_beq c b'&') t
    → IsFree (λ c. nat_beq c b'&') (s ++ b' ' ∷ t)
append_blank-IsFree [] t h k = (refl, k)
append_blank-IsFree (c ∷ s) t (h, hs) k = (h, append_blank-IsFree s t hs k)

join-IsCarried : (ws : List Text) → All IsCarried ws → IsCarried (join (b' ' ∷ []) ws)
unfolding join
join-IsCarried [] h = blank-IsCarried
join-IsCarried (w ∷ []) (h, _) = h
join-IsCarried (w ∷ v ∷ ws) (h, hs) =
    let rest = join-IsCarried (v ∷ ws) hs in
    record {
      no_escape = HasNoEscape-join w (join (b' ' ∷ []) (v ∷ ws)) h.no_escape rest.no_escape;
      no_separator =
          append_blank-IsFree w (join (b' ' ∷ []) (v ∷ ws)) h.no_separator rest.no_separator;
    }

-- The prompts but `login`.
abbrev pub others : List Text → List Text
others = keep (λ w. not (w == codes "login"))

pub any-others : (ws : List Text) → any (λ w. w == codes "login") (others ws) ≡ false
any-others [] = refl
any-others (w ∷ ws) = elim (Bool-cases (w == codes "login")) [
  | inl e ↦ rw e (any-others ws)
  | inr e ↦ rw e (rw (any-others ws, e))
]

length-others-le : (ws : List Text) → length (others ws) ≤ length ws
length-others-le [] = omega arith
length-others-le (w ∷ ws) = ground (arith, length-others-le ws)

-- If nothing was left out, `login` was not among them.
pub any_of_length :
    (ws : List Text)
    → nat_beq (length (others ws)) (length ws) ≡ true
    → any (λ w. w == codes "login") ws ≡ false
any_of_length [] h = refl
any_of_length (w ∷ ws) h = ground (arith, length-others-le ws, any_of_length ws)

-- The prompt that is put into the new address.
abbrev pub left_over : List Text → Option Text
left_over [] = none
left_over (w ∷ ws) = some (join (b' ' ∷ []) (w ∷ ws))

pub left_over-eq :
    (ws : List Text) → (if is_empty ws then none else some (join (b' ' ∷ []) ws)) ≡ left_over ws
left_over-eq [] = refl
left_over-eq (w ∷ ws) = refl

pub left_over-IsCarried : (ws : List Text) → All IsCarried ws → IsCarriedOption (left_over ws)
left_over-IsCarried [] h = tt
left_over-IsCarried (w ∷ ws) h = join-IsCarried (w ∷ ws) h

pub fresh-left_over :
    (ws : List Text)
    → All IsWord ws
    → requests_fresh_authentication (left_over ws) ≡ any (λ w. w == codes "login") ws
unfolding requests_fresh_authentication
fresh-left_over [] h = refl
fresh-left_over (w ∷ ws) h = ap (any (λ v. v == codes "login")) (split_whitespace-join (w ∷ ws) h)

pub with_prompt-AreCarried :
    (r : AuthorizeRequest) (o : Option Text)
    → AreCarried r
    → IsCarriedOption o
    → AreCarried (record r { prompt = o })
with_prompt-AreCarried r o h k = record {
  response_type = h.response_type;
  client_id = h.client_id;
  redirect_uri = h.redirect_uri;
  scope = h.scope;
  state = h.state;
  nonce = h.nonce;
  code_challenge = h.code_challenge;
  code_challenge_method = h.code_challenge_method;
  prompt = k;
}
