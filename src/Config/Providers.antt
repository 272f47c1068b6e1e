-- ===== src/Config/Providers.antt =====
-- src/config.rs: `build_trusted_providers` and `validate_reauth_clients`.
use pocket_oid.Base.{
  ◌≡◌, refl, ◌↔◌, true, false, ◌||◌, List, [], ◌∷◌, Option, none, some, arith, if◌then◌else◌,
  is_some, is_none, is_empty, contains, nat_eq, inl, inr, subst, All, Option-cases,
}
use pocket_oid.Config.{
  Client, TrustedProviderConfig, ClientAuthMode, ReAuthClientConfig, blank_provider_id,
  provider_id_with_colon, duplicate_provider_id, no_signing_algorithms, invalid_url, relative_url,
  blank_provider_client_id, empty_provider_client_secret, local_client_with_re_auth,
  client_without_re_auth, unknown_provider, upstream_scopes_without_openid, Result, ok, err, ◌>>◌,
}
use pocket_oid.HashMap.{HashMap, get, contains_key, insert, values, IsUnique, Entries}
use pocket_oid.HashMap.Laws.{insert-IsUnique, insert-Entries}
use pocket_oid.Outside.{ParsedUrl}
use pocket_oid.Text.{Text, text_eq, trim, codes}

-- `Url::parse`.
module _ (parse_url : Text → Option ParsedUrl) where
  unfoldable pub validate_absolute_url : Text → Text → Result (Unit {0})
  validate_absolute_url value field_name = elim (parse_url value) [
    | none ↦ err (invalid_url field_name)
    | some parsed ↦
        if is_empty parsed.scheme || is_none parsed.host
        then err (relative_url field_name)
        else ok tt
  ]

  unfoldable pub validate_trusted_provider : TrustedProviderConfig → Result (Unit {0})
  unfolding validate_absolute_url
  validate_trusted_provider p =
      if is_empty p.allowed_signing_algorithms
      then err (no_signing_algorithms p.provider_id)
      else do
        validate_absolute_url p.issuer (codes "issuer")
        validate_absolute_url p.redirect_uri (codes "redirect_uri")
        if is_empty (trim p.client_id)
            then err (blank_provider_client_id p.provider_id)
            else if is_empty p.client_secret
            then err (empty_provider_client_secret p.provider_id)
            else ok tt

  -- The loop, from the map built so far.
  insert_providers :
      HashMap TrustedProviderConfig
      → List TrustedProviderConfig
      → Result (HashMap TrustedProviderConfig)
  insert_providers m [] = ok m
  insert_providers m (p ∷ ps) =
      let rest = insert_providers (insert p.provider_id p m) ps in
      if is_empty (trim p.provider_id)
      then err blank_provider_id
      else if contains p.provider_id b':'
      then err (provider_id_with_colon p.provider_id)
      else if contains_key p.provider_id m
      then err (duplicate_provider_id p.provider_id)
      else (validate_trusted_provider p >> rest)

  unfoldable pub build_trusted_providers :
      List TrustedProviderConfig → Result (HashMap TrustedProviderConfig)
  unfolding insert_providers
  build_trusted_providers ps = insert_providers [] ps

  -- What every registered provider satisfies.
  pub record IsRegistered (k : Text) (p : TrustedProviderConfig) : Type 0 where
    pub keyed : k ≡ p.provider_id
    pub named : is_empty (trim k) ≡ false
    pub colon_free : contains k b':' ≡ false
    pub checked : validate_trusted_provider p ≡ ok tt

  -- What one successful round of the loop has tested.
  insert_providers_step :
      (m m' : HashMap TrustedProviderConfig) (p : TrustedProviderConfig)
      (ps : List TrustedProviderConfig)
      → insert_providers m (p ∷ ps) ≡ ok m'
      → (is_empty (trim p.provider_id) ≡ false)
        × (contains p.provider_id b':' ≡ false)
        × (get p.provider_id m ≡ none)
        × (validate_trusted_provider p ≡ ok tt)
        × (insert_providers (insert p.provider_id p m) ps ≡ ok m')
  unfolding insert_providers
  insert_providers_step m m' p ps e =
      (ground arith, ground arith, ground arith, ground arith, ground arith)

  insert_providers-Entries :
      (m m' : HashMap TrustedProviderConfig) (ps : List TrustedProviderConfig)
      → insert_providers m ps ≡ ok m'
      → Entries IsRegistered m × IsUnique m
      → Entries IsRegistered m' × IsUnique m'
  unfolding insert_providers
  insert_providers-Entries m m' [] e h =
      let same : m ≡ m' = cc e in subst (λ n. Entries IsRegistered n × IsUnique n) same h
  insert_providers-Entries m m' (p ∷ ps) e (h, u) =
      let (named, colon_free, new, checked, rest) = insert_providers_step m m' p ps e in
      let entry : IsRegistered p.provider_id p = record {
        keyed = refl;
        named = named;
        colon_free = colon_free;
        checked = checked;
      } in
      insert_providers-Entries (insert p.provider_id p m) m' ps rest
        (insert-Entries IsRegistered p.provider_id p m entry h, insert-IsUnique p.provider_id p m u)

  -- In the table of trusted providers each entry stands under its own identifier, which is not
  -- blank and holds no colon, and has passed `validate_trusted_provider`; no identifier stands
  -- twice.
  pub build_trusted_providers-IsRegistered :
      (ps : List TrustedProviderConfig) (m : HashMap TrustedProviderConfig)
      → build_trusted_providers ps ≡ ok m
      → Entries IsRegistered m × IsUnique m
  unfolding build_trusted_providers
  build_trusted_providers-IsRegistered ps m e = insert_providers-Entries [] m ps e (tt, tt)

-- The loop of `validate_reauth_clients` over the registered clients.
module _ (providers : HashMap TrustedProviderConfig) where
  check_upstream : Text → ReAuthClientConfig → Result (Unit {0})
  check_upstream client_id r =
      if is_some (get r.provider_id providers)
      then (if contains r.upstream_scopes (codes "openid")
          then ok tt
          else err (upstream_scopes_without_openid client_id))
      else err (unknown_provider client_id r.provider_id)

  check_reauth : Text → ClientAuthMode → Option ReAuthClientConfig → Result (Unit {0})
  unfolding check_upstream
  check_reauth client_id ClientAuthMode.local none = ok tt
  check_reauth client_id ClientAuthMode.local (some r) = err (local_client_with_re_auth client_id)
  check_reauth client_id ClientAuthMode.re_auth none = err (client_without_re_auth client_id)
  check_reauth client_id ClientAuthMode.re_auth (some r) = check_upstream client_id r

  check_clients : List Client → Result (Unit {0})
  unfolding check_reauth
  check_clients [] = ok tt
  check_clients (c ∷ cs) = check_reauth c.client_id c.auth_mode c.re_auth >> check_clients cs

  unfoldable pub validate_reauth_clients : HashMap Client → Result (Unit {0})
  unfolding check_clients
  validate_reauth_clients clients = check_clients (values clients)

  -- A local client has no re-authentication settings; a re-authenticating one has them, for a
  -- known provider, and asks it for the scope `openid`.
  pub data IsRoutable (c : Client) : Type 0 where
    stays_local : c.auth_mode ≡ ClientAuthMode.local → c.re_auth ≡ none → IsRoutable c
    goes_upstream :
        (r : ReAuthClientConfig) (p : TrustedProviderConfig)
        → c.auth_mode ≡ ClientAuthMode.re_auth
        → c.re_auth ≡ some r
        → get r.provider_id providers ≡ some p
        → contains r.upstream_scopes (codes "openid") ≡ true
        → IsRoutable c

  check_reauth-IsRoutable :
      (c : Client) (mode : ClientAuthMode) (r : Option ReAuthClientConfig)
      → c.auth_mode ≡ mode
      → c.re_auth ≡ r
      → check_reauth c.client_id mode r ≡ ok tt
      → IsRoutable c
  unfolding check_reauth
  check_reauth-IsRoutable c ClientAuthMode.local none em er h = stays_local em er
  check_reauth-IsRoutable c ClientAuthMode.local (some r) em er h = cc
  check_reauth-IsRoutable c ClientAuthMode.re_auth none em er h = cc
  check_reauth-IsRoutable c ClientAuthMode.re_auth (some r) em er h =
      elim (Option-cases (get r.provider_id providers)) [
        | inl unknown ↦ cc (rw unknown at h)
        | inr (p, known) ↦ goes_upstream r p em er known (ground arith)
      ]

  IsRoutable-check_reauth :
      {c : Client} → IsRoutable c → check_reauth c.client_id c.auth_mode c.re_auth ≡ ok tt
  unfolding check_reauth
  IsRoutable-check_reauth (stays_local em er) = rw (em, er)
  IsRoutable-check_reauth (goes_upstream r p em er known open_id) = rw (em, er, known, open_id)

  check_clients_iff : (cs : List Client) → (check_clients cs ≡ ok tt) ↔ All IsRoutable cs
  unfolding check_clients
  check_clients_iff [] = ((λ _. tt), (λ _. refl))
  check_clients_iff (c ∷ cs) =
      let (to, from) = check_clients_iff cs in
      (
        (λ h. (
          check_reauth-IsRoutable c c.auth_mode c.re_auth refl refl (first h),
          to (rw (first h) at h),
        )),
        (λ h. rw (IsRoutable-check_reauth h.0) (from h.1)),
      )
    where
      first :
          check_clients (c ∷ cs) ≡ ok tt → check_reauth c.client_id c.auth_mode c.re_auth ≡ ok tt
      first h = ground arith

  -- Validation accepts exactly the registries in which every client either authenticates here and
  -- has no upstream settings, or names a trusted provider and asks it for the scope `openid`.
  pub validate_reauth_clients_iff :
      (clients : HashMap Client)
      → (validate_reauth_clients clients ≡ ok tt) ↔ All IsRoutable (values clients)
  unfolding validate_reauth_clients
  validate_reauth_clients_iff clients = check_clients_iff (values clients)
