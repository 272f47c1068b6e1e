-- ===== src/AdminConsole/Attempts.antt =====
-- src/admin_console/mod.rs: the limit on sign-ins and password changes, over any sequence of attempts.
use pocket_oid.AdminConsole.{admit, is_recent}
use pocket_oid.Base.{
  ℕ, ◌≤◌, ◌≡◌, refl, Bool, List, [], ◌∷◌, ◌++◌, arith, keep, length, if◌then◌else◌,
}

-- The times of the attempts that are allowed, the last one first, after those of `log`.
unfoldable pub allowed_log : List ℕ → List ℕ → List ℕ → List ℕ
allowed_log [] attempts log = log
allowed_log (at ∷ times) attempts log =
    let (kept, allowed) = admit at attempts in
    allowed_log times kept (if allowed then at ∷ log else log)

abbrev pub IsLimited : List ℕ → Type 0
IsLimited [] = Unit
IsLimited (at ∷ log) = (length (keep (is_recent at) (at ∷ log)) ≤ 30) × IsLimited log

abbrev pub IsAscendingFrom : ℕ → List ℕ → Type 0
IsAscendingFrom now [] = Unit
IsAscendingFrom now (at ∷ times) = (now ≤ at) × IsAscendingFrom at times

-- What was recent then and is recent later.
keep_later :
    (now later : ℕ) (xs : List ℕ)
    → now ≤ later
    → length (keep (is_recent later) (keep (is_recent now) xs)) ≡ length (keep (is_recent later) xs)
keep_later now later [] h = refl
keep_later now later (x ∷ xs) h = ground (arith, keep_later now later xs h)

keep-append :
    (p : ℕ → Bool) (xs : List ℕ) (x : ℕ)
    → length (keep p (xs ++ (x ∷ []))) ≡ length (keep p (x ∷ xs))
keep-append p [] x = refl
keep-append p (y ∷ xs) x = ground (arith, keep-append p xs x)

-- From now on the attempts that are kept count as the whole log does.
Counts : ℕ → List ℕ → List ℕ → Type 0
Counts now attempts log =
    (later : ℕ)
    → now ≤ later
    → length (keep (is_recent later) attempts) ≡ length (keep (is_recent later) log)

after_admit : Bool → ℕ → List ℕ → List ℕ
after_admit allowed at log = if allowed then at ∷ log else log

admit-Counts :
    (now at : ℕ) (attempts log : List ℕ)
    → now ≤ at
    → Counts now attempts log
    → Counts at (admit at attempts).0 (after_admit (admit at attempts).1 at log)
unfolding Counts after_admit admit
admit-Counts now at attempts log order h later after = ground (
  arith,
  h later,
  keep_later at later attempts after,
  keep-append (is_recent later) (keep (is_recent at) attempts) at,
)

admit-IsLimited :
    (now at : ℕ) (attempts log : List ℕ)
    → now ≤ at
    → Counts now attempts log
    → IsLimited log
    → IsLimited (after_admit (admit at attempts).1 at log)
unfolding Counts after_admit admit
admit-IsLimited now at attempts log order h limited = ground (arith, h at)

log-IsLimited :
    (now : ℕ) (times attempts log : List ℕ)
    → IsAscendingFrom now times
    → Counts now attempts log
    → IsLimited log
    → IsLimited (allowed_log times attempts log)
unfolding allowed_log after_admit
log-IsLimited now [] attempts log order h limited = limited
log-IsLimited now (at ∷ times) attempts log (first, order) h limited =
    log-IsLimited at times (admit at attempts).0 (after_admit (admit at attempts).1 at log) order
      (admit-Counts now at attempts log first h)
      (admit-IsLimited now at attempts log first h limited)

-- However attempts arrive, as long as the clock does not run backwards, each that is allowed is at
-- most the 30th that was allowed in the 60 seconds that end with it.
pub allowed_log-IsLimited :
    (now : ℕ) (times : List ℕ) → IsAscendingFrom now times → IsLimited (allowed_log times [] [])
unfolding Counts
allowed_log-IsLimited now times order = log-IsLimited now times [] [] order (λ later h. refl) tt
