-- ===== src/Outside.antt =====
-- What the program takes from crates and from the system. Each is a record of functions and of
-- the documented behaviour that a proof relies on; the definitions take them as arguments.
use pocket_oid.Base.{ℕ, ◌+◌, ◌*◌, ◌≤◌, ◌≡◌, ◌↔◌, Bool, true, false, List, Option, some, is_empty}
use pocket_oid.Base.Int.{ℤ, pos}
use pocket_oid.Text.{Text, codes}

-- `subtle`, `sha2` and `base64`.
pub record Crypto : Type 0 where
  -- `ConstantTimeEq::ct_eq` on byte slices.
  pub ct_eq : List ℕ → List ℕ → Bool
  pub ct_eq_iff : (a b : List ℕ) → (ct_eq a b ≡ true) ↔ (a ≡ b)
  -- `Sha256::digest`.
  pub digest : List ℕ → List ℕ
  -- `URL_SAFE_NO_PAD.encode`.
  pub base64url : List ℕ → Text

abbrev pub nanos : ℕ
nanos = 1_000_000_000

-- `chrono`: a `DateTime<Utc>` is its distance in nanoseconds from the earliest one.
pub record Chrono : Type 0 where
  -- `Duration::seconds` returns: it panics on a number of seconds beyond `i64::MAX / 1000`.
  pub in_range : ℤ → Bool
  pub in_range_pos : (s : ℕ) → s ≤ 9_223_372_036_854_775 → in_range (pos s) ≡ true
  -- `checked_add_signed` of a duration in seconds.
  pub checked_add : ℕ → ℤ → Option ℕ
  pub checked_add_pos : (t s u : ℕ) → checked_add t (pos s) ≡ some u → u ≡ t + s * nanos
  -- `DateTime::timestamp`.
  pub timestamp : ℕ → ℤ

-- `url::Url`: what the program reads of a parsed address.
pub record ParsedUrl : Type 0 where
  pub scheme : Text
  pub host : Option Text
  pub fragment : Option Text

-- `argon2`: a hash is a text in the PHC form.
pub record Argon2 : Type 0 where
  -- `PasswordHash::new`, and the name of the algorithm; `none` where the text is not a hash.
  pub algorithm : Text → Option Text
  -- `verify_password` of a password against a hash.
  pub verify_password : Text → Text → Bool
  -- `Argon2::default().hash_password` with a salt, printed.
  pub hash_password : List ℕ → Text → Option Text
  pub hash_password_lem :
      (salt : List ℕ) (password hash : Text)
      → hash_password salt password ≡ some hash
      → (algorithm hash ≡ some (codes "argon2id"))
        × (verify_password password hash ≡ true)
        × (is_empty hash ≡ false)

-- What `PasswordHash::new` and `Params::try_from` read of a hash, and the defaults of the crate.
pub record ParsedHash : Type 0 where
  pub algorithm : Text
  pub version : Option ℕ
  pub has_salt : Bool
  pub output_len : Option ℕ
  -- The memory and the time costs, unless they are out of range.
  pub costs : Option (ℕ × ℕ)

pub record HashParser : Type 0 where
  pub parse : Text → Option ParsedHash
  pub default_m_cost : ℕ
  pub default_t_cost : ℕ
  pub default_output_len : ℕ
