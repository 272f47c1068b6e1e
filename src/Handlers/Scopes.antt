-- ===== src/Handlers/Scopes.antt =====
-- src/handlers.rs: `validate_scopes` and `scope_includes_openid`.
use pocket_oid.Base.{
  ◌≡◌, refl, subst, ◌↔◌, inl, inr, Bool, true, false, List, [], ◌∷◌, Option, none, some, arith, All,
  any, contains, is_empty, ◌==◌, if◌then◌else◌, Bool-cases, nat_eq,
}
use pocket_oid.Config.{Client}
use pocket_oid.Handlers.Messages.{scope_empty, scope_not_permitted}
use pocket_oid.Http.{invalid_scope, ApiResult, ok, err, ◌>>◌}
use pocket_oid.Text.{Text, text_eq, text_beq_iff, codes, split_whitespace, join}
use pocket_oid.Text.Split.{IsWord, split_whitespace-All, split_whitespace-join}

-- The loop over the requested scopes.
unfoldable pub check_scopes : List Text → List Text → ApiResult (Unit {0})
check_scopes allowed [] = ok tt
check_scopes allowed (scope ∷ scopes) =
    let rest = check_scopes allowed scopes in
    if contains allowed scope then rest else err (invalid_scope (scope_not_permitted scope))

unfoldable pub validate_scopes : Option Text → Client → ApiResult (Option Text)
unfolding check_scopes
validate_scopes (some scopes) client =
    let parsed = split_whitespace scopes in
    if is_empty parsed
    then err (invalid_scope scope_empty)
    else do check_scopes client.allowed_scopes parsed; ok (some (join (b' ' ∷ []) parsed))
validate_scopes none client =
    if is_empty client.allowed_scopes
    then ok none
    else ok (some (join (b' ' ∷ []) client.allowed_scopes))

unfoldable pub scope_includes_openid : Option Text → Bool
scope_includes_openid none = false
scope_includes_openid (some scope_text) =
    any (λ s. s == codes "openid") (split_whitespace scope_text)

check_scopes_iff :
    (allowed scopes : List Text)
    → (check_scopes allowed scopes ≡ ok tt) ↔ All (λ s. contains allowed s ≡ true) scopes
unfolding check_scopes
check_scopes_iff allowed [] = ((λ _. tt), (λ _. refl))
check_scopes_iff allowed (s ∷ ss) = ground (arith, check_scopes_iff allowed ss)

-- The words of a granted scope.
abbrev pub granted : Option Text → List Text
granted none = []
granted (some scope_text) = split_whitespace scope_text

-- Requested scopes are granted exactly when there is one and the client is allowed each, and
-- then the grant has the requested words in their order.
pub validate_scopes_iff :
    (scopes : Text) (client : Client) (scope_text : Option Text)
    → (validate_scopes (some scopes) client ≡ ok scope_text) ↔ (
        (is_empty (split_whitespace scopes) ≡ false)
        × All (λ s. contains client.allowed_scopes s ≡ true) (split_whitespace scopes)
        × (scope_text ≡ some (join (b' ' ∷ []) (split_whitespace scopes))))
unfolding validate_scopes
validate_scopes_iff scopes client scope_text =
    ground (arith, check_scopes_iff client.allowed_scopes (split_whitespace scopes))

All-contains_cons :
    (a : Text) (allowed ss : List Text)
    → All (λ s. contains allowed s ≡ true) ss
    → All (λ s. contains (a ∷ allowed) s ≡ true) ss
All-contains_cons a allowed [] h = tt
All-contains_cons a allowed (s ∷ ss) (h, hs) = (ground arith, All-contains_cons a allowed ss hs)

All-contains_self : (ss : List Text) → All (λ s. contains ss s ≡ true) ss
All-contains_self [] = tt
All-contains_self (s ∷ ss) =
    (ground (arith, text_beq_iff s s), All-contains_cons s ss ss (All-contains_self ss))

granted-join :
    (client : Client) (words : List Text) (scope_text : Option Text)
    → All IsWord words
    → scope_text ≡ some (join (b' ' ∷ []) words)
    → All (λ s. contains client.allowed_scopes s ≡ true) words
    → All (λ s. contains client.allowed_scopes s ≡ true) (granted scope_text)
granted-join client words scope_text h e allowed = rw (e, split_whitespace-join words h) allowed

-- No grant exceeds the client's scopes, whether scopes were requested or not, if the client's
-- own scopes are words.
pub validate_scopes-granted :
    (requested : Option Text) (client : Client) (scope_text : Option Text)
    → All IsWord client.allowed_scopes
    → validate_scopes requested client ≡ ok scope_text
    → All (λ s. contains client.allowed_scopes s ≡ true) (granted scope_text)
unfolding validate_scopes
validate_scopes-granted (some scopes) client scope_text words h =
    let (_, allowed, made) = (validate_scopes_iff scopes client scope_text).0 h in
    granted-join client (split_whitespace scopes) scope_text (split_whitespace-All scopes) made
      allowed
validate_scopes-granted none client scope_text words h =
    elim (Bool-cases (is_empty client.allowed_scopes)) [
      | inl e ↦
          let made : none ≡ scope_text = ground arith in
          subst (λ o. All (λ s. contains client.allowed_scopes s ≡ true) (granted o)) made tt
      | inr e ↦
          granted-join client client.allowed_scopes scope_text words (ground arith)
            (All-contains_self client.allowed_scopes)
    ]
