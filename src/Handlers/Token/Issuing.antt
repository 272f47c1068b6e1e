-- ===== src/Handlers/Token/Issuing.antt =====
-- src/handlers.rs: `issue_token` answers with a token.
use pocket_oid.Handlers.Token.Chains.{bind-ok, required-ok, from_rendered-ok}
use pocket_oid.Base.{
  ℕ, ◌+◌, ◌*◌, ◌<◌, ◌≤◌, ◌≡◌, refl, true, false, Option, none, some, arith, nat_beq, Bool, ◌↔◌,
  Option-cases, inl, inr, subst, ap, ◌∙◌,
}
use pocket_oid.Base.Int.{pos, as_i64}
use pocket_oid.Config.{Client}
use pocket_oid.Handlers.State.{AppState, KeyMaterial, key_for}
use pocket_oid.Handlers.Token.{
  Crates, TokenDraws, TokenResponse, unwrap_or, id_token_claims, build_id_token, issue_token,
  sign_token, maybe_id_token, add_ttl, positive, from_rendered,
}
use pocket_oid.Http.{ok, required, internal}
use pocket_oid.Json.{Value, object, member, string, number, end}
use pocket_oid.Outside.{nanos}
use pocket_oid.Template.{Rendered, render, TokenContext}
use pocket_oid.Text.{Text, codes}

as_i64_small : (x : ℕ) → x ≤ 9_223_372_036_854_775 → as_i64 x ≡ pos x
unfolding as_i64
as_i64_small x h = ground arith

made-ok :
    (access_token : Text) (id_token : Option Text) (ttl : ℕ) (scope : Option Text)
    (response : TokenResponse)
    → ok (record {
      access_token = access_token;
      token_type = codes "Bearer";
      expires_in = ttl;
      id_token = id_token;
      scope = scope;
    })
      ≡ ok response
    → (access_token ≡ response.access_token)
      × (id_token ≡ response.id_token)
      × (response.token_type ≡ codes "Bearer")
      × (response.expires_in ≡ ttl)
      × (response.scope ≡ scope)
made-ok access_token id_token ttl scope response h =
    (ground arith, ground arith, ground arith, ground arith, ground arith)

module _ (crates : Crates) (fuel : ℕ) (state : AppState) (draws : TokenDraws)
    (client : Client) where
  -- The lifetime that applies to the client.
  abbrev pub lifetime : ℕ
  lifetime = unwrap_or client.token_ttl_seconds state.provider.token_ttl_seconds

  sign_token-found :
      (key : KeyMaterial) (claims : Value)
      → key_for
          (unwrap_or client.signing_algorithm state.provider.signing_algorithm)
          state.signing_keys
        ≡ some key
      → sign_token crates fuel state client claims ≡ required (crates.encode key claims) internal
  unfolding sign_token
  sign_token-found key claims found = rw (found, sign_token) refl

  signed-found :
      (claims : Value) (token : Text)
      → sign_token crates fuel state client claims ≡ ok token
      → (key : KeyMaterial) × (key_for
            (unwrap_or client.signing_algorithm state.provider.signing_algorithm)
            state.signing_keys
          ≡ some key)
  unfolding sign_token
  signed-found claims token h =
      elim (Option-cases (
        key_for (unwrap_or client.signing_algorithm state.provider.signing_algorithm)
          state.signing_keys)) [ inl e ↦ absurd (ground (arith, e, h)) | inr (key, e) ↦ (key, e) ]

  -- The claims of an identity token: of this issuer, for the subject and the client, from the time
  -- of issue to the expiry, with the nonce if there is one.
  abbrev identity_claims : Text → Option Text → ℕ → Value
  identity_claims subject (some given) expires_at = object (
      member (codes "iss") (string state.provider.issuer) (
        member (codes "sub") (string subject) (
          member (codes "aud") (string client.client_id) (
            member (codes "iat") (number (crates.chrono.timestamp draws.issued_at)) (
              member (codes "exp") (number (crates.chrono.timestamp expires_at))
                (member (codes "nonce") (string given) end))))))
  identity_claims subject none expires_at = object (
      member (codes "iss") (string state.provider.issuer) (
        member (codes "sub") (string subject) (
          member (codes "aud") (string client.client_id) (
            member (codes "iat") (number (crates.chrono.timestamp draws.issued_at))
              (member (codes "exp") (number (crates.chrono.timestamp expires_at)) end)))))

  -- What the template is rendered with.
  abbrev issue_context : Option Text → Text → ℕ → TokenContext
  issue_context scope_text subject expires_at = record {
    client = client;
    scope = scope_text;
    subject = subject;
    issued_at = crates.chrono.timestamp draws.issued_at;
    expires_at = crates.chrono.timestamp expires_at;
    audience = client.audience;
    uuid = draws.uuid;
  }

  -- An identity token that the key signs, or none.
  abbrev pub IsIdentity : Bool → Text → Option Text → ℕ → KeyMaterial → Option Text → Type 0
  IsIdentity true subject n expires_at key id_token =
      (text : Text) × (id_token ≡ some text)
      × (crates.encode key (identity_claims subject n expires_at) ≡ some text)
  IsIdentity false subject n expires_at key id_token = id_token ≡ none

  -- What a response has to be: both tokens are signed with the key of the client's algorithm, the
  -- access token over the rendered template, and both end the lifetime after the time of issue.
  pub record IsIssued (scope_text : Option Text) (subject : Text) (n : Option Text)
      (include_id_token : Bool) (response : TokenResponse) : Type 0 where
    pub expires_at : ℕ
    pub claims : Value
    pub key : KeyMaterial
    pub some_time : 0 < lifetime
    pub expires : crates.chrono.checked_add draws.issued_at (pos lifetime) ≡ some expires_at
    pub ends : expires_at ≡ draws.issued_at + lifetime * nanos
    pub rendered :
        render crates.print_number fuel state.token_template
          (issue_context scope_text subject expires_at)
        ≡ Rendered.ok claims
    pub found :
        key_for
          (unwrap_or client.signing_algorithm state.provider.signing_algorithm)
          state.signing_keys
        ≡ some key
    pub signed : crates.encode key claims ≡ some response.access_token
    pub identity : IsIdentity include_id_token subject n expires_at key response.id_token
    pub token_type : response.token_type ≡ codes "Bearer"
    pub expires_in : response.expires_in ≡ lifetime
    pub scope : response.scope ≡ scope_text

  identity-claims :
      (subject : Text) (n : Option Text) (expires_at : ℕ)
      → id_token_claims crates fuel state client subject n draws.issued_at expires_at
        ≡ identity_claims subject n expires_at
  identity-claims subject none expires_at = refl
  identity-claims subject (some given) expires_at = refl

  maybe_id_token_iff :
      (include_id_token : Bool) (subject : Text) (n : Option Text) (expires_at : ℕ)
      (key : KeyMaterial) (id_token : Option Text)
      → key_for
          (unwrap_or client.signing_algorithm state.provider.signing_algorithm)
          state.signing_keys
        ≡ some key
      → (maybe_id_token crates fuel state include_id_token client subject n draws.issued_at
            expires_at
          ≡ ok id_token)
        ↔ IsIdentity include_id_token subject n expires_at key id_token
  unfolding build_id_token
  maybe_id_token_iff false subject n expires_at key id_token found = ((λ h. cc), (λ h. cc))
  maybe_id_token_iff true subject n expires_at key id_token found =
      let claims = identity_claims subject n expires_at in
      let made : build_id_token crates fuel state client subject n draws.issued_at expires_at
          ≡ required (crates.encode key claims) internal =
        rw (identity-claims subject n expires_at) (sign_token-found key claims found) in
      elim (Option-cases (crates.encode key claims)) [
        | inl e ↦ (
          (λ h. absurd (ground (arith, made, e, h))),
          (λ (text, _, there). absurd (ground (arith, e, there))),
        )
        | inr (t, e) ↦ (
          (λ h. (t, ground (arith, made, e, h), e)),
          (λ (text, same, there). ground (arith, made, e, there, same)),
        )
      ]

  add_ttl-required :
      lifetime ≤ 9_223_372_036_854_775
      → add_ttl crates fuel state draws.issued_at lifetime
        ≡ required (crates.chrono.checked_add draws.issued_at (pos lifetime)) internal
  add_ttl-required short =
      let whole = as_i64_small lifetime short in
      let held = crates.chrono.in_range_pos lifetime short in rw (whole, held) refl

  issue_token_sound :
      (scope_text : Option Text) (subject : Text) (n : Option Text) (include_id_token : Bool)
      (response : TokenResponse)
      → lifetime ≤ 9_223_372_036_854_775
      → issue_token crates fuel state draws client scope_text subject n include_id_token
        ≡ ok response
      → IsIssued scope_text subject n include_id_token response
  unfolding issue_token
  issue_token_sound scope_text subject n include_id_token response short h =
      let (t, e1, h1) = bind-ok (positive crates fuel state lifetime) _ response h in
      let (expires_at, e2, h2) =
        bind-ok (add_ttl crates fuel state draws.issued_at lifetime) _ response h1 in
      let (claims, e3, h3) =
        bind-ok
          (from_rendered (
            render crates.print_number fuel state.token_template
              (issue_context scope_text subject expires_at)))
          _ response h2 in
      let (access_token, e4, h4) =
        bind-ok (sign_token crates fuel state client claims) _ response h3 in
      let (id_token, e5, h5) =
        bind-ok
          (maybe_id_token crates fuel state include_id_token client subject n draws.issued_at
            expires_at)
          _ response h4 in
      let (access, identity, token_type, expires_in, scope) =
        made-ok access_token id_token lifetime scope_text response h5 in
      let at =
        required-ok (crates.chrono.checked_add draws.issued_at (pos lifetime)) internal expires_at
          (rw (← add_ttl-required short) e2) in
      let (key, found) = signed-found claims access_token e4 in
      let signs : crates.encode key claims ≡ some access_token =
        required-ok (crates.encode key claims) internal access_token
          (rw (← sign_token-found key claims found) e4) in
      record {
        expires_at = expires_at;
        claims = claims;
        key = key;
        some_time = ground (arith, e1);
        expires = at;
        ends = crates.chrono.checked_add_pos draws.issued_at lifetime expires_at at;
        rendered = from_rendered-ok _ claims e3;
        found = found;
        signed = signs ∙ ap some access;
        identity =
            subst (IsIdentity include_id_token subject n expires_at key) identity
              ((maybe_id_token_iff include_id_token subject n expires_at key id_token found).0 e5);
        token_type = token_type;
        expires_in = expires_in;
        scope = scope;
      }

  -- For a client whose lifetime `Duration` can hold, `issue_token` answers with a response exactly
  -- when the lifetime is at least a second, the calendar has its end, the template renders, the
  -- client's algorithm has a key, and the key signs what it has to: the response has the signed
  -- template as its access token, an identity token with the issuer, the subject, the client, both
  -- times and the nonce exactly if one is asked for, the lifetime, and the scope; and the end is the
  -- lifetime after the time of issue.
  pub issue_token_iff :
      (scope_text : Option Text) (subject : Text) (n : Option Text) (include_id_token : Bool)
      (response : TokenResponse)
      → lifetime ≤ 9_223_372_036_854_775
      → (issue_token crates fuel state draws client scope_text subject n include_id_token
          ≡ ok response)
        ↔ IsIssued scope_text subject n include_id_token response
  unfolding issue_token
  issue_token_iff scope_text subject n include_id_token response short = (
    issue_token_sound scope_text subject n include_id_token response short,
    (λ d.
        let some_time = d.some_time in
        let positive_is : nat_beq lifetime 0 ≡ false = ground arith in
        let whole = as_i64_small lifetime short in
        let held = crates.chrono.in_range_pos lifetime short in
        let at = d.expires in
        let rendered = d.rendered in
        let signs = sign_token-found d.key d.claims d.found in
        let access = d.signed in
        let identity =
          (maybe_id_token_iff include_id_token subject n d.expires_at d.key response.id_token
              d.found).1
            d.identity in
        let kind = d.token_type in
        let ttl = d.expires_in in
        let scope = d.scope in
        rw (issue_token, positive_is, whole, held, at, rendered, signs, access, identity)
          (rw (← kind, ← ttl, ← scope) refl)),
  )
