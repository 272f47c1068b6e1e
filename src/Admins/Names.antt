-- ===== src/Admins/Names.antt =====
-- src/admins.rs: the errors of the administrators' store, and the checks of a new administrator's
-- name and password.
use pocket_oid.Base.{
  ℕ, ◌≤◌, ◌<◌, ◌≡◌, refl, ◌↔◌, ◌⊎◌, Bool, false, ◌&&◌, ◌||◌, not, List, [], ◌∷◌, arith, leb, ltb,
  if◌then◌else◌, is_empty, any, length, ◌==◌, All, inl, inr,
}
use pocket_oid.Text.{Text, text_eq, text_beq_iff, trim}

pub data AdminError : Type 0 where
  empty_username padded_username control_in_username long_username : AdminError
  empty_password hashing_failed database_failed : AdminError
  already_exists : Text → AdminError

pub data AdminResult {κ} (T : Type κ) : Type κ where
  ok : T → AdminResult T
  err : AdminError → AdminResult T

infixl 5 ◌>>=◌
abbrev pub ◌>>=◌ {κ μ} :
    {T : Type κ} {U : Type μ} → AdminResult T → (T → AdminResult U) → AdminResult U
ok value >>= next = next value
err cause >>= next = err cause

infixl 5 ◌>>◌
abbrev pub ◌>>◌ {κ} : {U : Type κ} → AdminResult (Unit {0}) → AdminResult U → AdminResult U
checked >> next = checked >>= λ _. next

pub AdminResult-cases {ℓ} :
    {T : Type ℓ} (r : AdminResult T)
    → ((cause : AdminError) × (r ≡ err cause)) ⊎ ((t : T) × (r ≡ ok t))
AdminResult-cases (err cause) = inl (cause, refl)
AdminResult-cases (ok t) = inr (t, refl)

-- `char::is_control`.
unfoldable pub is_control : ℕ → Bool
is_control c = ltb c 32 || (leb 127 c && leb c 159)

unfoldable pub validate_username : Text → AdminResult (Unit {0})
validate_username username =
    if is_empty (trim username)
    then err empty_username
    else if not (username == trim username)
    then err padded_username
    else if any is_control username
    then err control_in_username
    else if ltb 128 (length username)
    then err long_username
    else ok tt

unfoldable pub validate_password : Text → AdminResult (Unit {0})
validate_password password = if is_empty password then err empty_password else ok tt

any_iff_All : (p : ℕ → Bool) (s : List ℕ) → (any p s ≡ false) ↔ All (λ c. p c ≡ false) s
any_iff_All p [] = ((λ _. tt), (λ _. refl))
any_iff_All p (c ∷ s) = ground (arith, any_iff_All p s)

filled_iff : (s : Text) → (is_empty s ≡ false) ↔ (0 < length s)
filled_iff [] = ((λ h. cc), (λ h. absurd (omega (arith, h))))
filled_iff (c ∷ s) = ((λ _. omega arith), (λ _. refl))

-- A name is accepted exactly when it has from 1 to 128 characters, none of them a control
-- character, and no white space at its ends.
pub validate_username_iff :
    (s : Text)
    → (validate_username s ≡ ok tt)
      ↔ ((0 < length s) × (length s ≤ 128) × (trim s ≡ s) × All (λ c. is_control c ≡ false) s)
unfolding validate_username
validate_username_iff s =
    ground (arith, text_beq_iff s (trim s), any_iff_All is_control s, filled_iff s)
