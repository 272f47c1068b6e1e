-- ===== src/Admins/Versions.antt =====
-- src/admins.rs: how large a credential version gets. It is an `INTEGER` of 63 bits and a sign, and
-- the model's number is that integer below its limit.
use pocket_oid.Admins.{AdminRow, PasswordUpdate, update_row}
use pocket_oid.Admins.Races.{Statement, run, perform, perform_cases}
use pocket_oid.Base.{ℕ, ◌+◌, ◌≤◌, ◌≡◌, ◌<◌, List, [], ◌∷◌, arith, All, length, map, subst}
use pocket_oid.Outside.{Argon2}

abbrev pub IsUpTo : ℕ → List AdminRow → Type 0
IsUpTo n rs = All (λ r. r.credential_version ≤ n) rs

IsUpTo-next : (n : ℕ) (rs : List AdminRow) → IsUpTo n rs → IsUpTo (n + 1) rs
IsUpTo-next n [] h = tt
IsUpTo-next n (r ∷ rs) (h, hs) = (omega (arith, h), IsUpTo-next n rs hs)

IsUpTo-updated :
    (n : ℕ) (now : List ℕ) (u : PasswordUpdate) (rs : List AdminRow)
    → IsUpTo n rs
    → IsUpTo (n + 1) (map (update_row now u) rs)
unfolding update_row
IsUpTo-updated n now u [] h = tt
IsUpTo-updated n now u (r ∷ rs) (h, hs) = ground (arith, h, IsUpTo-updated n now u rs hs)

-- No version grows by more than one at a statement, so it takes more than 2 ^ 63 - 2 changes of a
-- password to leave the range of the integer.
pub run-IsUpTo :
    (argon2 : Argon2) (ss : List Statement) (n : ℕ) (rs : List AdminRow)
    → 0 < n
    → IsUpTo n rs
    → IsUpTo (n + length ss) (run argon2 ss rs)
unfolding run
run-IsUpTo argon2 [] n rs positive h = ground (arith, h)
run-IsUpTo argon2 (s ∷ ss) n rs positive h =
    let next : IsUpTo (n + 1) (perform argon2 s rs) =
      perform_cases (IsUpTo (n + 1)) argon2 s rs (IsUpTo-next n rs h)
        (λ r free first. (omega (arith, first, positive), IsUpTo-next n rs h))
        (λ now u filled. IsUpTo-updated n now u rs h) in
    let rest = run-IsUpTo argon2 ss (n + 1) (perform argon2 s rs) (omega arith) next in
    let same : n + 1 + length ss ≡ n + length (s ∷ ss) = omega arith in
    subst (λ k. IsUpTo k (run argon2 ss (perform argon2 s rs))) same rest
