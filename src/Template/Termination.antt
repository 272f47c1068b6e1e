-- ===== src/Template/Termination.antt =====
-- The substitution ends if no value that it puts in holds a `$`, and need not end otherwise.
use pocket_oid.Base.{
  ℕ, zero, suc, ◌+◌, ◌<◌, ◌≡◌, ◌≢◌, ◌⊎◌, refl, true, ◌&&◌, List, [], ◌∷◌, ◌++◌, some, arith,
  nat_beq, if◌then◌else◌, Bool-cases, Option-cases, inl, inr,
}
use pocket_oid.Base.Int.{ℤ}
use pocket_oid.Json.{
  Value, null, bool, number, string, array, object, Items, nil, cons, Members, end, member,
}
use pocket_oid.Template.{
  TokenContext, TemplateError, Rendered, ok, err, running, ◌>>=◌, extract_placeholder,
  resolve_metadata_value, resolve_placeholder, find_open, inline_text, render_inline,
  substitute_text, substitute_value, substitute_items, substitute_members, ensure_required_claims,
  check_claims, required_claims, render,
}
use pocket_oid.Text.{Text, split_once}
use pocket_oid.Text.Split.{split_once_sound}

-- How often `$` stands in a text.
abbrev pub dollars : Text → ℕ
dollars [] = 0
dollars (c ∷ s) = if nat_beq c b'$' then suc (dollars s) else dollars s

dollars-append : (s t : Text) → dollars (s ++ t) ≡ dollars s + dollars t
dollars-append [] t = omega arith
dollars-append (c ∷ s) t = ground (arith, dollars-append s t)

both : (c d : ℕ) → (nat_beq c b'$' && nat_beq d b'{') ≡ true → (c ≡ b'$') × (d ≡ b'{')
both c d e = (ground arith, ground arith)

find_open_sound :
    (s before after : Text)
    → find_open s ≡ some (before, after)
    → s ≡ before ++ (b'$' ∷ b'{' ∷ after)
unfolding find_open
find_open_sound [] before after h = cc
find_open_sound (c ∷ []) before after h = cc
find_open_sound (c ∷ d ∷ s) before after h = elim (Bool-cases (nat_beq c b'$' && nat_beq d b'{')) [
  | inl e ↦
      let found : some ([], s) ≡ some (before, after) = rw e at h in
      let (first, second) = both c d e in cc (found, first, second)
  | inr e ↦ elim (Option-cases (find_open (d ∷ s))) [
    | inl missed ↦ cc (rw (e, missed, find_open) at h)
    | inr ((b, a), later) ↦
        let found : some (c ∷ b, a) ≡ some (before, after) = rw (e, later, find_open) at h in
        cc (found, find_open_sound (d ∷ s) b a later)
  ]
]

resolve-ne-running : (name : Text) (ctx : TokenContext) → resolve_placeholder name ctx ≢ running
unfolding resolve_placeholder resolve_metadata_value
resolve-ne-running name ctx h = ground arith

Rendered-cases {ℓ} :
    {A : Type ℓ} (r : Rendered A)
    → ((a : A) × (r ≡ ok a)) ⊎ (((e : TemplateError) × (r ≡ err e)) ⊎ (r ≡ running))
Rendered-cases (ok a) = inl (a, refl)
Rendered-cases (err e) = inr (inl (e, refl))
Rendered-cases running = inr (inr refl)

-- A placeholder that is replaced by a text without `$` leaves one `$` less, or more.
shrinks :
    (rendered before after name rest replacement : Text)
    → rendered ≡ before ++ (b'$' ∷ b'{' ∷ after)
    → after ≡ name ++ b'}' ∷ rest
    → dollars replacement ≡ 0
    → dollars (before ++ (replacement ++ rest)) < dollars rendered
shrinks rendered before after name rest replacement e f none_left =
    rw (e, f)
      (omega (
        arith,
        dollars-append before (replacement ++ rest),
        dollars-append replacement rest,
        dollars-append before (b'$' ∷ b'{' ∷ name ++ b'}' ∷ rest),
        dollars-append name (b'}' ∷ rest),
      ))

module _ (print_number : ℤ → Text) (ctx : TokenContext) where
  inline_text-ne-running : (name : Text) → inline_text print_number name ctx ≢ running
  unfolding inline_text
  inline_text-ne-running name h = ground (arith, resolve-ne-running name ctx)

  -- No value that an inline placeholder stands for holds a `$`.
  abbrev pub IsPlain : Type 0
  IsPlain =
      (name replacement : Text)
      → inline_text print_number name ctx ≡ ok replacement
      → dollars replacement ≡ 0

  render_inline_total :
      (fuel : ℕ) (text rendered : Text)
      → IsPlain
      → dollars rendered < fuel
      → render_inline print_number fuel text rendered ctx ≢ running
  unfolding render_inline
  render_inline_total zero text rendered plain enough h = elim enough [ ]
  render_inline_total (suc fuel) text rendered plain enough h =
      elim (Option-cases (find_open rendered)) [
        | inl missed ↦ cc (rw (missed, render_inline) at h)
        | inr ((before, after), opened) ↦ elim (Option-cases (split_once b'}' after)) [
          | inl unclosed ↦ cc (rw (opened, unclosed, render_inline) at h)
          | inr ((name, rest), closed) ↦
              let made = find_open_sound rendered before after opened in
              let (tail, _) = split_once_sound b'}' after name rest closed in
              elim (Rendered-cases (inline_text print_number name ctx)) [
                | inl (t, put) ↦
                    let less =
                      shrinks rendered before after name rest t made tail (plain name t put) in
                    render_inline_total fuel text (before ++ (t ++ rest)) plain (omega arith)
                      (rw (opened, closed, put, render_inline) at h)
                | inr (inl (e, failed)) ↦ cc (rw (opened, closed, failed, render_inline) at h)
                | inr (inr stuck) ↦ inline_text-ne-running name stuck
              ]
        ]
      ]

  substitute_text_total :
      (fuel : ℕ) (text : Text)
      → IsPlain
      → dollars text < fuel
      → substitute_text print_number fuel text ctx ≢ running
  unfolding substitute_text
  substitute_text_total fuel text plain enough h = elim (Option-cases (extract_placeholder text)) [
    | inr (name, whole) ↦ resolve-ne-running name ctx (rw (whole, substitute_text) at h)
    | inl inlined ↦ elim (Rendered-cases (render_inline print_number fuel text text ctx)) [
      | inl (t, e) ↦ cc (rw (inlined, e, substitute_text) at h)
      | inr (inl (f, e)) ↦ cc (rw (inlined, e, substitute_text) at h)
      | inr (inr e) ↦ render_inline_total fuel text text plain enough e
    ]
  ]

unfoldable mutual
  -- The number of `$` in all texts of a template.
  pub dollars_value : Value → ℕ
  dollars_value (string text) = dollars text
  dollars_value (object members) = dollars_members members
  dollars_value (array items) = dollars_items items
  dollars_value (number n) = 0
  dollars_value (bool b) = 0
  dollars_value null = 0

  pub dollars_items : Items → ℕ
  dollars_items nil = 0
  dollars_items (cons item items) = dollars_value item + dollars_items items

  pub dollars_members : Members → ℕ
  dollars_members end = 0
  dollars_members (member key value members) = dollars_value value + dollars_members members

bind-eq-running :
    {A B : Type 0} (m : Rendered A) (f : A → B) → (m >>= λ a. ok (f a)) ≡ running → m ≡ running
bind-eq-running (ok a) f h = cc
bind-eq-running (err e) f h = cc
bind-eq-running running f h = refl

bind₂-eq-running :
    {A B C : Type 0} (m : Rendered A) (n : Rendered B) (f : A → B → C)
    → (m >>= λ a. n >>= λ b. ok (f a b)) ≡ running
    → (m ≡ running) ⊎ (n ≡ running)
bind₂-eq-running (ok a) n f h = inr (bind-eq-running n (f a) h)
bind₂-eq-running (err e) n f h = cc
bind₂-eq-running running n f h = inl refl

module _ (print_number : ℤ → Text) (ctx : TokenContext) (plain : IsPlain print_number ctx)
    (fuel : ℕ) where
  mutual
    unfolding substitute_value dollars_value

    substitute_value_total :
        (v : Value) → dollars_value v < fuel → substitute_value print_number fuel v ctx ≢ running
    substitute_value_total (object members) enough h =
        substitute_members_total members enough
          (bind-eq-running (substitute_members print_number fuel members ctx) object h)
    substitute_value_total (array items) enough h =
        substitute_items_total items enough
          (bind-eq-running (substitute_items print_number fuel items ctx) array h)
    substitute_value_total (string text) enough h =
        substitute_text_total print_number ctx fuel text plain enough h
    substitute_value_total (number n) enough h = cc
    substitute_value_total (bool b) enough h = cc
    substitute_value_total null enough h = cc

    substitute_items_total :
        (items : Items)
        → dollars_items items < fuel
        → substitute_items print_number fuel items ctx ≢ running
    substitute_items_total nil enough h = cc
    substitute_items_total (cons item items) enough h =
        elim (bind₂-eq-running (substitute_value print_number fuel item ctx)
          (substitute_items print_number fuel items ctx) cons h) [
            | inl e ↦ substitute_value_total item (omega arith) e
            | inr e ↦ substitute_items_total items (omega arith) e
          ]

    substitute_members_total :
        (members : Members)
        → dollars_members members < fuel
        → substitute_members print_number fuel members ctx ≢ running
    substitute_members_total end enough h = cc
    substitute_members_total (member key value members) enough h =
        elim (bind₂-eq-running (substitute_value print_number fuel value ctx)
          (substitute_members print_number fuel members ctx) (member key) h) [
            | inl e ↦ substitute_value_total value (omega arith) e
            | inr e ↦ substitute_members_total members (omega arith) e
          ]

  check_claims-ne-running :
      (claims : List Text) (members : Members) → check_claims claims members ≢ running
  unfolding check_claims
  check_claims-ne-running [] members h = cc
  check_claims-ne-running (claim ∷ claims) members h =
      ground (arith, check_claims-ne-running claims members)

  ensure-ne-running : (v : Value) → ensure_required_claims v ≢ running
  unfolding ensure_required_claims
  ensure-ne-running (object members) h = check_claims-ne-running required_claims members h
  ensure-ne-running (array items) h = cc
  ensure-ne-running (string text) h = cc
  ensure-ne-running (number n) h = cc
  ensure-ne-running (bool b) h = cc
  ensure-ne-running null h = cc

  -- Rendering ends: if no value that an inline placeholder stands for holds a `$`, then fuel for
  -- more rounds than there are `$` in the template is enough.
  pub render_total :
      (raw : Value) → dollars_value raw < fuel → render print_number fuel raw ctx ≢ running
  unfolding render
  render_total raw enough h = elim (Rendered-cases (substitute_value print_number fuel raw ctx)) [
    | inl (v, e) ↦ elim (Rendered-cases (ensure_required_claims v)) [
      | inl (u, f) ↦ cc (rw (e, render, f) at h)
      | inr (inl (x, f)) ↦ cc (rw (e, render, f) at h)
      | inr (inr f) ↦ ensure-ne-running v f
    ]
    | inr (inl (x, e)) ↦ cc (rw (e, render) at h)
    | inr (inr e) ↦ substitute_value_total raw enough e
  ]

-- If the text that replaces a template's first inline placeholder makes the same template again,
-- as metadata does that holds its own placeholder, then the loop has not ended for any fuel.
pub render_inline_diverges :
    (print_number : ℤ → Text) (ctx : TokenContext) (name text before after rest r : Text) (fuel : ℕ)
    (rendered : Text)
    → find_open rendered ≡ some (before, after)
    → split_once b'}' after ≡ some (name, rest)
    → inline_text print_number name ctx ≡ ok r
    → before ++ (r ++ rest) ≡ rendered
    → render_inline print_number fuel text rendered ctx ≡ running
unfolding render_inline
render_inline_diverges print_number ctx name text before after rest r zero rendered opened closed
      put same =
    refl
render_inline_diverges print_number ctx name text before after rest r (suc fuel) rendered opened
      closed put same =
    rw (opened, render_inline, closed, put, same)
      (render_inline_diverges print_number ctx name text before after rest r fuel rendered opened
        closed put same)
