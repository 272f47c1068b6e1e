-- ===== src/Users/Credentials.antt =====
-- src/users.rs: the reading of a credential, and the check of a password against it.
use pocket_oid.Base.{
  ℕ, ◌+◌, ◌-◌, ◌/◌, ◌%◌, ◌≤◌, ◌≡◌, ◌↔◌, Bool, true, false, ◌||◌, not, List, [], ◌∷◌, Option, none,
  some, arith, ltb, nat_beq, if◌then◌else◌, is_none, is_some, all, map, ◌==◌, Option-cases, inl,
  inr,
}
use pocket_oid.Config.{
  Result, ok, err, invalid_hash, incomplete_hash, wrong_hash_version, invalid_costs, weak_hash,
  unknown_hash, invalid_digest, two_credentials, no_credential,
}
use pocket_oid.Config.Settings.{is_ascii_hexdigit}
use pocket_oid.Handlers.Pkce.{constant_time_eq}
use pocket_oid.Outside.{Argon2, Crypto, HashParser, ParsedHash}
use pocket_oid.Text.{Text, codes, text_eq, text_beq_iff, strip_prefix, to_ascii_lowercase}
use pocket_oid.Text.Bytes.{as_bytes, len}
use pocket_oid.Users.{PasswordCredential, argon2id, sha256, plain}

pub record UserConfig : Type 0 where
  pub id : Text
  pub username : Text
  pub password_hash : Option Text
  pub password_plain : Option Text

-- `{byte:02x}`.
abbrev hex_digit : ℕ → ℕ
hex_digit n = if ltb n 10 then b'0' + n else b'a' + (n - 10)

unfoldable pub hex : List ℕ → Text
hex [] = []
hex (b ∷ bytes) = hex_digit (b / 16) ∷ hex_digit (b % 16) ∷ hex bytes

unfoldable pub sha256_hex : Crypto → Text → Text
unfolding hex
sha256_hex crypto value = hex (crypto.digest (as_bytes value))

-- `none` where the text is no hash of a password.
unfoldable pub verify_password : Argon2 → Crypto → PasswordCredential → Text → Bool
verify_password argon2 crypto (argon2id phc) password = elim (argon2.algorithm phc) [
  | none ↦ false
  | some name ↦ argon2.verify_password password phc
]
verify_password argon2 crypto (sha256 digest) password =
    constant_time_eq crypto digest (sha256_hex crypto password)
verify_password argon2 crypto (plain value) password = constant_time_eq crypto value password

abbrev is_less : Option ℕ → ℕ → Bool
is_less none n = true
is_less (some m) n = ltb m n

abbrev is_version : Option ℕ → Bool
is_version none = false
is_version (some v) = nat_beq v 19

module _ (parser : HashParser) where
  abbrev is_weak : ℕ × ℕ → ParsedHash → Bool
  is_weak (m_cost, t_cost) parsed =
      ltb m_cost parser.default_m_cost
      || ltb t_cost parser.default_t_cost
      || is_less parsed.output_len parser.default_output_len

  unfoldable pub check_costs : Text → Text → ParsedHash → Result PasswordCredential
  check_costs username hash parsed = elim parsed.costs [
    | none ↦ err (invalid_costs username)
    | some costs ↦ if is_weak costs parsed then err (weak_hash username) else ok (argon2id hash)
  ]

  unfoldable pub check_hash : Text → Text → ParsedHash → Result PasswordCredential
  unfolding check_costs
  check_hash username hash parsed =
      if not (parsed.algorithm == codes "argon2id")
        || not parsed.has_salt
        || is_none parsed.output_len
      then err (incomplete_hash username)
      else if not (is_version parsed.version)
      then err (wrong_hash_version username)
      else check_costs username hash parsed

  unfoldable pub parse_argon2id_hash : Text → Text → Result PasswordCredential
  unfolding check_hash
  parse_argon2id_hash username hash = elim (parser.parse hash) [
    | none ↦ err (invalid_hash username)
    | some parsed ↦ check_hash username hash parsed
  ]

  unfoldable pub parse_legacy_sha256_hash : Text → Text → Result PasswordCredential
  parse_legacy_sha256_hash username hash = elim (strip_prefix (codes "sha256:") hash) [
    | none ↦ err (unknown_hash username)
    | some digest ↦
        if not (nat_beq (len digest) 64) || not (all is_ascii_hexdigit (as_bytes digest))
        then err (invalid_digest username)
        else ok (sha256 (map to_ascii_lowercase digest))
  ]

  abbrev parse_hash : Text → Text → Result PasswordCredential
  parse_hash username hash =
      if is_some (strip_prefix (codes "$argon2id$") hash)
      then parse_argon2id_hash username hash
      else parse_legacy_sha256_hash username hash

  unfoldable pub credential_from : Text → Option Text → Option Text → Result PasswordCredential
  unfolding parse_argon2id_hash parse_legacy_sha256_hash
  credential_from username (some hash) (some password) = err (two_credentials username)
  credential_from username (some hash) none = parse_hash username hash
  credential_from username none (some password) = ok (plain password)
  credential_from username none none = err (no_credential username)

  unfoldable pub file_user_credential : UserConfig → Result PasswordCredential
  unfolding credential_from
  file_user_credential user = credential_from user.username user.password_hash user.password_plain

  -- What an accepted hash has: the algorithm, a salt, the version, and costs and an output that are
  -- at least the defaults.
  abbrev pub IsStrong : ParsedHash → Type 0
  IsStrong p =
      (m : ℕ) × (t : ℕ) × (n : ℕ) × (p.algorithm ≡ codes "argon2id")
      × (p.has_salt ≡ true)
      × (p.version ≡ some 19)
      × (p.costs ≡ some (m, t))
      × (p.output_len ≡ some n)
      × (parser.default_m_cost ≤ m)
      × (parser.default_t_cost ≤ t)
      × (parser.default_output_len ≤ n)

  is_version_iff : (v : Option ℕ) → (is_version v ≡ true) ↔ (v ≡ some 19)
  is_version_iff none = ((λ h. cc), (λ h. cc))
  is_version_iff (some v) = ground arith

  check_hash_iff :
      (username hash : Text) (p : ParsedHash) (c : PasswordCredential)
      → (check_hash username hash p ≡ ok c) ↔ (IsStrong p × (c ≡ argon2id hash))
  unfolding check_hash check_costs
  check_hash_iff username hash p c = elim (Option-cases p.costs) [
    | inl e ↦ ((λ h. absurd (ground (arith, e, h))), (λ h. absurd (ground (arith, e, h.0.6))))
    | inr ((m, t), e) ↦ elim (Option-cases p.output_len) [
      | inl f ↦ ((λ h. absurd (ground (arith, f, h))), (λ h. absurd (ground (arith, f, h.0.7))))
      | inr (n, f) ↦ (
        (λ h. (
          (
            m,
            t,
            n,
            ground (
              arith,
              e,
              f,
              is_version_iff p.version,
              text_beq_iff p.algorithm (codes "argon2id"),
            ),
            ground (
              arith,
              e,
              f,
              is_version_iff p.version,
              text_beq_iff p.algorithm (codes "argon2id"),
            ),
            ground (
              arith,
              e,
              f,
              is_version_iff p.version,
              text_beq_iff p.algorithm (codes "argon2id"),
            ),
            e,
            f,
            ground (
              arith,
              e,
              f,
              is_version_iff p.version,
              text_beq_iff p.algorithm (codes "argon2id"),
            ),
            ground (
              arith,
              e,
              f,
              is_version_iff p.version,
              text_beq_iff p.algorithm (codes "argon2id"),
            ),
            ground (
              arith,
              e,
              f,
              is_version_iff p.version,
              text_beq_iff p.algorithm (codes "argon2id"),
            ),
          ),
          ground
              (arith, e, f, is_version_iff p.version, text_beq_iff p.algorithm (codes "argon2id")),
        )),
        (λ ((m', t', n', named, salted, version, costs, out, enough_m, enough_t, enough_n), same).
            ground
              (arith, e, f, is_version_iff p.version, text_beq_iff p.algorithm (codes "argon2id"))),
      )
    ]
  ]

  -- A hash is accepted exactly when it is an argon2id hash of version 19 with a salt, whose costs
  -- and whose output are at least the defaults.
  pub parse_argon2id_hash_iff :
      (username hash : Text) (c : PasswordCredential)
      → (parse_argon2id_hash username hash ≡ ok c)
        ↔ ((p : ParsedHash) × (parser.parse hash ≡ some p) × IsStrong p × (c ≡ argon2id hash))
  unfolding parse_argon2id_hash
  parse_argon2id_hash_iff username hash c = elim (Option-cases (parser.parse hash)) [
    | inl e ↦ ((λ h. absurd (ground (arith, e, h))), (λ h. absurd (ground (arith, e, h.1))))
    | inr (p, e) ↦
        let (to, from) = check_hash_iff username hash p c in
        (
          (λ h. let (strong, same) = to (ground (arith, e, h)) in (p, e, strong, same)),
          (λ (q, f, strong, same).
              let row : q ≡ p = cc in rw (e, parse_argon2id_hash) (from (rw (← row) strong, same))),
        )
  ]
