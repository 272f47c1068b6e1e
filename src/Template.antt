-- ===== src/Template.antt =====
-- src/token.rs: the token template and its placeholders.
pub mod Claims
pub mod Termination
use pocket_oid.Base.{
  ℕ, zero, suc, ◌<◌, Bool, true, false, not, ◌&&◌, List, [], ◌∷◌, ◌++◌, Option, none, some, nat_beq,
  ltb, ◌==◌, if◌then◌else◌, is_empty,
}
use pocket_oid.Base.Int.{ℤ}
use pocket_oid.Config.{Client}
use pocket_oid.HashMap.{HashMap, get}
use pocket_oid.Json.{
  Value, null, bool, number, string, array, object, Items, nil, cons, Members, end, member,
}
use pocket_oid.Text.{Text, text_eq, codes, strip_prefix, split_once}
use pocket_oid.Text.Bytes.{len}

pub record TokenContext : Type 0 where
  pub client : Client
  pub scope : Option Text
  pub subject : Text
  pub issued_at : ℤ
  pub expires_at : ℤ
  pub audience : Option Text
  pub uuid : Text

-- The messages of `AppError::Template`.
pub data TemplateError : Type 0 where
  unterminated not_inline : Text → TemplateError
  audience_required : TemplateError
  unsupported missing_metadata : Text → TemplateError
  not_an_object : TemplateError
  missing_claim : Text → TemplateError

-- `running` stands for a computation that has not ended within the fuel.
pub data Rendered {ℓ} (A : Type ℓ) : Type ℓ where
  ok : A → Rendered A
  err : TemplateError → Rendered A
  running : Rendered A

infixl 5 ◌>>=◌
abbrev pub ◌>>=◌ {κ μ} : {T : Type κ} {U : Type μ} → Rendered T → (T → Rendered U) → Rendered U
running >>= next = running
err cause >>= next = err cause
ok value >>= next = next value

infixl 5 ◌>>◌
abbrev pub ◌>>◌ {κ} : {U : Type κ} → Rendered (Unit {0}) → Rendered U → Rendered U
checked >> next = checked >>= λ _. next

abbrev pub ok_or {ℓ} : {A : Type ℓ} → Option A → TemplateError → Rendered A
ok_or none e = err e
ok_or (some a) e = ok a

-- The text without its last character, if that is a closing brace.
unfoldable pub before_brace : Text → Option Text
before_brace [] = none
before_brace (c ∷ []) = if nat_beq c b'}' then some [] else none
before_brace (c ∷ d ∷ s) = elim (before_brace (d ∷ s)) [ none ↦ none | some t ↦ some (c ∷ t) ]

unfoldable pub extract_placeholder : Text → Option Text
extract_placeholder value = elim (strip_prefix (codes "${") value) [
  | none ↦ none
  | some rest ↦ elim (before_brace rest) [
    | none ↦ none
    | some name ↦ if ltb 3 (len value) then some name else none
  ]
]

unfoldable pub resolve_metadata_value : Text → HashMap Value → Rendered Value
resolve_metadata_value key metadata = ok_or (get key metadata) (missing_metadata key)

-- `ctx.scope.unwrap_or("")`.
abbrev pub text_or_empty : Option Text → Text
text_or_empty none = []
text_or_empty (some t) = t

abbrev audience_value : Option Text → Rendered Value
audience_value none = err audience_required
audience_value (some aud) = ok (string aud)

abbrev other_value : Option Text → Text → TokenContext → Rendered Value
other_value none name ctx = err (unsupported name)
other_value (some key) name ctx = resolve_metadata_value key ctx.client.metadata

unfoldable pub resolve_placeholder : Text → TokenContext → Rendered Value
resolve_placeholder name ctx =
    if name == codes "client_id"
    then ok (string ctx.client.client_id)
    else if name == codes "subject"
    then ok (string ctx.subject)
    else if name == codes "audience"
    then audience_value ctx.audience
    else if name == codes "scope"
    then ok (string (text_or_empty ctx.scope))
    else if name == codes "issued_at"
    then ok (number ctx.issued_at)
    else if name == codes "expires_at"
    then ok (number ctx.expires_at)
    else if name == codes "uuid"
    then ok (string ctx.uuid)
    else other_value (strip_prefix (codes "metadata.") name) name ctx

-- `rendered.find("${")`: what stands before and after the first one.
unfoldable pub find_open : Text → Option (Text × Text)
find_open [] = none
find_open (c ∷ []) = none
find_open (c ∷ d ∷ s) =
    let later = find_open (d ∷ s) in
    if nat_beq c b'$' && nat_beq d b'{'
    then some ([], s)
    else elim later [ none ↦ none | some (before, after) ↦ some (c ∷ before, after) ]

-- `Number`'s decimal notation is `serde_json`'s.
module _ (print_number : ℤ → Text) where
  unfoldable pub value_to_string : Value → Option Text
  value_to_string (string s) = some s
  value_to_string (number n) = some (print_number n)
  value_to_string (bool true) = some (codes "true")
  value_to_string (bool false) = some (codes "false")
  value_to_string null = none
  value_to_string (array items) = none
  value_to_string (object members) = none

  -- What one inline placeholder becomes.
  unfoldable pub inline_text : Text → TokenContext → Rendered Text
  unfolding value_to_string
  inline_text name ctx = do
    replacement ← resolve_placeholder name ctx
    ok_or (value_to_string replacement) (not_inline name)

  -- The `while let` loop. A replacement is searched for placeholders again.
  unfoldable pub render_inline : ℕ → Text → Text → TokenContext → Rendered Text
  render_inline zero text rendered ctx = running
  render_inline (suc fuel) text rendered ctx = elim (find_open rendered) [
    | none ↦ ok rendered
    | some (before, after) ↦ elim (split_once b'}' after) [
      | none ↦ err (unterminated text)
      | some (name, rest) ↦ elim (inline_text name ctx) [
        | ok replacement ↦ render_inline fuel text (before ++ (replacement ++ rest)) ctx
        | err e ↦ err e
        | running ↦ running
      ]
    ]
  ]

  unfoldable pub substitute_text : ℕ → Text → TokenContext → Rendered Value
  unfolding render_inline
  substitute_text fuel text ctx = elim (extract_placeholder text) [
    | some placeholder ↦ resolve_placeholder placeholder ctx
    | none ↦ do rendered ← render_inline fuel text text ctx; ok (string rendered)
  ]

  unfoldable mutual
    pub substitute_value : ℕ → Value → TokenContext → Rendered Value
    substitute_value fuel (object members) ctx = do
      done ← substitute_members fuel members ctx
      ok (object done)
    substitute_value fuel (array items) ctx = do
      done ← substitute_items fuel items ctx
      ok (array done)
    substitute_value fuel (string text) ctx = substitute_text fuel text ctx
    substitute_value fuel null ctx = ok null
    substitute_value fuel (bool b) ctx = ok (bool b)
    substitute_value fuel (number n) ctx = ok (number n)

    pub substitute_items : ℕ → Items → TokenContext → Rendered Items
    substitute_items fuel nil ctx = ok nil
    substitute_items fuel (cons item items) ctx = do
      first ← substitute_value fuel item ctx
      rest ← substitute_items fuel items ctx
      ok (cons first rest)

    pub substitute_members : ℕ → Members → TokenContext → Rendered Members
    substitute_members fuel end ctx = ok end
    substitute_members fuel (member key value members) ctx = do
      first ← substitute_value fuel value ctx
      rest ← substitute_members fuel members ctx
      ok (member key first rest)

unfoldable pub contains_claim : Text → Members → Bool
contains_claim claim end = false
contains_claim claim (member key value members) =
    if key == claim then true else contains_claim claim members

-- The claims that a token must have.
abbrev pub required_claims : List Text
required_claims =
    codes "iss" ∷ codes "sub" ∷ codes "aud" ∷ codes "iat" ∷ codes "exp" ∷ codes "jti" ∷ []

-- The loop over the required claims.
unfoldable pub check_claims : List Text → Members → Rendered (Unit {0})
unfolding contains_claim
check_claims [] members = ok tt
check_claims (claim ∷ claims) members =
    let rest = check_claims claims members in
    if contains_claim claim members then rest else err (missing_claim claim)

unfoldable pub ensure_required_claims : Value → Rendered (Unit {0})
unfolding check_claims
ensure_required_claims (object members) = check_claims required_claims members
ensure_required_claims (array items) = err not_an_object
ensure_required_claims (string text) = err not_an_object
ensure_required_claims (number n) = err not_an_object
ensure_required_claims (bool b) = err not_an_object
ensure_required_claims null = err not_an_object

-- `TokenTemplate::render`.
unfoldable pub render : (ℤ → Text) → ℕ → Value → TokenContext → Rendered Value
render print_number fuel raw ctx = do
  value ← substitute_value print_number fuel raw ctx
  ensure_required_claims value
  ok value
