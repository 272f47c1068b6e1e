-- ===== src/Config/Settings.antt =====
-- src/config.rs: `validate_provider_settings` and `key_path_for`.
use pocket_oid.Base.{
  ℕ, suc, ◌≡◌, refl, ap, ◌↔◌, ◌<◌, Bool, true, false, ◌&&◌, ◌||◌, List, [], ◌∷◌, ◌++◌, Option, none,
  some, arith, leb, nat_beq, nat_beq_iff, if◌then◌else◌, is_empty, all, length, ◌==◌, Bool-cases,
  inl, inr, All, Option-cases, ◌⊎◌,
}
use pocket_oid.Config.{
  SigningAlgorithm, algorithm_eq, ProviderSettings, empty_log_dir, empty_key_path,
  invalid_background_color, missing_key_path, Result, ok, err, ◌>>◌,
}
use pocket_oid.Text.{Text, strip_prefix, codes}
use pocket_oid.Text.Bytes.{as_bytes, len, as_bytes_of_ascii, as_bytes_of_small}

-- `u8::is_ascii_hexdigit`.
unfoldable pub is_ascii_hexdigit : ℕ → Bool
is_ascii_hexdigit b =
    (leb b'0' b && leb b b'9') || (leb b'a' b && leb b b'f') || (leb b'A' b && leb b b'F')

-- `color` is tested by its length in bytes and by the bytes after its `#`.
pub is_hex_color : Text → Bool
unfolding is_ascii_hexdigit strip_prefix len
is_hex_color color =
    let n = len color in
    let valid_length = nat_beq n 4 || nat_beq n 5 || nat_beq n 7 || nat_beq n 9 in
    let valid_hex : Bool = elim (strip_prefix (b'#' ∷ []) color) [
      | none ↦ false
      | some hex ↦ all is_ascii_hexdigit (as_bytes hex)
    ] in
    valid_length && valid_hex

-- The loop over `signing_key_paths`.
check_key_paths : List (SigningAlgorithm × Text) → Result (Unit {0})
check_key_paths [] = ok tt
check_key_paths ((algorithm, path) ∷ paths) =
    let rest = check_key_paths paths in
    if is_empty path then err (empty_key_path algorithm) else rest

check_color : Option Text → Result (Unit {0})
check_color none = ok tt
check_color (some color) = if is_hex_color color then ok tt else err invalid_background_color

unfoldable pub validate_provider_settings : ProviderSettings → Result (Unit {0})
unfolding check_key_paths check_color
validate_provider_settings provider =
    let later =
      check_key_paths provider.signing_key_paths >> check_color provider.login_background_color in
    elim provider.log_dir [
      | none ↦ later
      | some dir ↦ if is_empty dir then err empty_log_dir else later
    ]

ends_with_slash : Text → Bool
ends_with_slash [] = false
ends_with_slash (c ∷ []) = nat_beq c b'/'
ends_with_slash (c ∷ d ∷ s) = ends_with_slash (d ∷ s)

-- `Path::join`: an absolute path replaces the base.
unfoldable pub join_path : Text → Text → Text
unfolding strip_prefix ends_with_slash
join_path base path = elim (strip_prefix (b'/' ∷ []) path) [
  | some _ ↦ path
  | none ↦ if is_empty base || ends_with_slash base then base ++ path else base ++ (b'/' ∷ path)
]

-- `BTreeMap::get` at an algorithm.
unfoldable pub get_algorithm {ℓ} :
    {A : Type ℓ} → SigningAlgorithm → List (SigningAlgorithm × A) → Option A
get_algorithm k [] = none
get_algorithm k ((a, v) ∷ m) = if a == k then some v else get_algorithm k m

unfoldable pub key_path_for : Text → ProviderSettings → SigningAlgorithm → Result Text
unfolding join_path get_algorithm
key_path_for config_root provider algorithm =
    elim (get_algorithm algorithm provider.signing_key_paths) [
      | some path ↦ ok (join_path config_root path)
      | none ↦
          if algorithm == provider.signing_algorithm
          then ok (join_path (join_path config_root (codes "keys")) (codes "signing-key.pem"))
          else err (missing_key_path algorithm)
    ]

hex-lt : (b : ℕ) → is_ascii_hexdigit b ≡ true → b < 128
unfolding is_ascii_hexdigit
hex-lt b h = ground arith

all-All : (p : ℕ → Bool) (s : Text) → all p s ≡ true → All (λ c. p c ≡ true) s
all-All p [] h = tt
all-All p (c ∷ s) h = (ground arith, all-All p s (ground arith))

-- `#` with three, four, six or eight hexadecimal digits.
pub record IsHexColor (color : Text) : Type 0 where
  pub digits : Text
  pub shape : color ≡ b'#' ∷ digits
  pub hex : All (λ c. is_ascii_hexdigit c ≡ true) digits
  pub size :
      (length digits ≡ 3) ⊎ ((length digits ≡ 4) ⊎ ((length digits ≡ 6) ⊎ (length digits ≡ 8)))

All-all : (p : ℕ → Bool) (s : Text) → All (λ c. p c ≡ true) s → all p s ≡ true
All-all p [] h = refl
All-all p (c ∷ s) h = ground (arith, All-all p s h.1)

hash_color :
    (ds : Text) → all is_ascii_hexdigit (as_bytes ds) ≡ true → len (b'#' ∷ ds) ≡ suc (length ds)
unfolding len
hash_color ds h = rw (as_bytes_of_ascii is_ascii_hexdigit hex-lt ds h)

is_hex_color-IsHexColor : (color : Text) → is_hex_color color ≡ true → IsHexColor color
unfolding is_hex_color
is_hex_color-IsHexColor [] h = cc
is_hex_color-IsHexColor (c ∷ ds) h = elim (Bool-cases (nat_beq c b'#')) [
  | inl e ↦
      let hash = (nat_beq_iff c b'#').0 e in
      let hex : all is_ascii_hexdigit (as_bytes ds) ≡ true = ground arith in
      let ascii = as_bytes_of_ascii is_ascii_hexdigit hex-lt ds hex in
      let plain : all is_ascii_hexdigit ds ≡ true = rw ascii at hex in
      record {
        digits = ds;
        shape = ap (λ d. d ∷ ds) hash;
        hex = all-All is_ascii_hexdigit ds plain;
        size = measure (rw (hash, hash_color ds hex) at (sized c ds h));
      }
  | inr e ↦ absurd (ground arith)
]
  where
    sized :
        (c : ℕ) (ds : Text)
        → is_hex_color (c ∷ ds) ≡ true
        → (len (c ∷ ds) ≡ 4) ⊎ ((len (c ∷ ds) ≡ 5) ⊎ ((len (c ∷ ds) ≡ 7) ⊎ (len (c ∷ ds) ≡ 9)))
    sized c ds k = ground arith

    measure :
        {n : ℕ}
        → (suc n ≡ 4) ⊎ ((suc n ≡ 5) ⊎ ((suc n ≡ 7) ⊎ (suc n ≡ 9)))
        → (n ≡ 3) ⊎ ((n ≡ 4) ⊎ ((n ≡ 6) ⊎ (n ≡ 8)))
    measure k = ground arith

small-All : (s : Text) → All (λ c. is_ascii_hexdigit c ≡ true) s → All (λ c. c < 128) s
small-All [] h = tt
small-All (c ∷ s) (h, hs) = (hex-lt c h, small-All s hs)

IsHexColor-is_hex_color : (color : Text) → IsHexColor color → is_hex_color color ≡ true
unfolding is_hex_color
IsHexColor-is_hex_color color h =
    let ds = h.digits in
    let ascii = as_bytes_of_small ds (small-All ds h.hex) in
    let plain = All-all is_ascii_hexdigit ds h.hex in
    let hex : all is_ascii_hexdigit (as_bytes ds) ≡ true = rw ascii plain in
    rw (h.shape, hash_color ds hex, ascii) (ground (arith, h.size))

-- The colour is absent or a hexadecimal colour.
abbrev pub IsColor : Option Text → Type 0
IsColor none = Unit
IsColor (some color) = IsHexColor color

abbrev pub IsLogDir : Option Text → Type 0
IsLogDir none = Unit
IsLogDir (some dir) = is_empty dir ≡ false

check_key_paths_iff :
    (paths : List (SigningAlgorithm × Text))
    → (check_key_paths paths ≡ ok tt) ↔ All (λ e. is_empty e.1 ≡ false) paths
unfolding check_key_paths
check_key_paths_iff [] = ((λ _. tt), (λ _. refl))
check_key_paths_iff ((a, path) ∷ paths) = ground (arith, check_key_paths_iff paths)

check_color_iff : (o : Option Text) → (check_color o ≡ ok tt) ↔ IsColor o
unfolding check_color
check_color_iff none = ((λ _. tt), (λ _. refl))
check_color_iff (some color) = (
  (λ h. is_hex_color-IsHexColor color (ground arith)),
  (λ h. rw (IsHexColor-is_hex_color color h)),
)

check_both_iff :
    (p : ProviderSettings)
    → ((check_key_paths p.signing_key_paths >> check_color p.login_background_color) ≡ ok tt)
      ↔ (All (λ e. is_empty e.1 ≡ false) p.signing_key_paths × IsColor p.login_background_color)
check_both_iff p =
    let (to_paths, from_paths) = check_key_paths_iff p.signing_key_paths in
    let (to_color, from_color) = check_color_iff p.login_background_color in
    (
      (λ h. (to_paths (first h), to_color (rw (first h) at h))),
      (λ h. rw (from_paths h.0) (from_color h.1)),
    )
  where
    first :
        (check_key_paths p.signing_key_paths >> check_color p.login_background_color) ≡ ok tt
        → check_key_paths p.signing_key_paths ≡ ok tt
    first h = ground arith

-- The settings are accepted exactly when no configured path is empty and the login page's
-- background is absent or a hexadecimal colour.
pub validate_provider_settings_iff :
    (p : ProviderSettings)
    → (validate_provider_settings p ≡ ok tt) ↔ (
        IsLogDir p.log_dir
        × All (λ e. is_empty e.1 ≡ false) p.signing_key_paths
        × IsColor p.login_background_color)
unfolding validate_provider_settings
validate_provider_settings_iff p =
    let (to, from) = check_both_iff p in
    elim (Option-cases p.log_dir) [
      | inl unset ↦ rw unset ((λ h. let (a, b) = to h in (tt, a, b)), (λ h. from (h.1, h.2)))
      | inr (dir, set) ↦ elim (Bool-cases (is_empty dir)) [
        | inl empty ↦ rw (set, empty) ((λ h. cc), (λ h. cc (h.0)))
        | inr full ↦
            rw (set, full) ((λ h. let (a, b) = to h in (refl, a, b)), (λ h. from (h.1, h.2)))
      ]
    ]
