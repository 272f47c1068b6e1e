-- ===== src/Handlers/Reauth/Subjects.antt =====
-- src/handlers.rs: the identifier of a user who logs in at an upstream provider.
use pocket_oid.Base.{ℕ, ◌≡◌, ap, false, [], ◌∷◌, arith, contains, nat_beq, nat_eq}
use pocket_oid.Handlers.Reauth.{reauth_user_id}
use pocket_oid.Text.{Text, text_eq, split_once}
use pocket_oid.Text.Split.{IsFree, split_once-append}

contains-IsFree : (c : ℕ) (s : Text) → contains s c ≡ false → IsFree (λ d. nat_beq d c) s
contains-IsFree c [] h = tt
contains-IsFree c (d ∷ s) h = (ground arith, contains-IsFree c s (ground arith))

-- Two upstream identities have the same user identifier only if they are the same, since a trusted
-- provider's identifier holds no colon.
pub reauth_user_id-inj :
    (provider_id other subject subject' : Text)
    → contains provider_id b':' ≡ false
    → contains other b':' ≡ false
    → reauth_user_id provider_id subject ≡ reauth_user_id other subject'
    → (provider_id ≡ other) × (subject ≡ subject')
reauth_user_id-inj provider_id other subject subject' free free' e =
    let here = split_once-append b':' provider_id subject (contains-IsFree b':' provider_id free) in
    let there = split_once-append b':' other subject' (contains-IsFree b':' other free') in
    let same : split_once b':' (reauth_user_id provider_id subject)
        ≡ split_once b':' (reauth_user_id other subject') =
      ap (split_once b':') e in
    (cc, cc)
