-- ===== src/Handlers/Reauth/Identity.antt =====
-- src/handlers.rs: whose codes the upstream login leads to.
use pocket_oid.Base.{
  ℕ, ◌<◌, ◌≡◌, refl, ◌∙◌, ◌⊎◌, inl, inr, none, some, arith, ◌==◌, Option-cases, Bool-cases, nat_eq,
}
use pocket_oid.AuthStore.{
  AuthContext, AuthStore, PendingReauthTransaction, PendingReauthConsent, ConsumePendingReauth,
  consume_pending_reauth, create_pending_reauth_consent, consume_pending_reauth_consent,
}
use pocket_oid.AuthStore.Invariant.{IsWellFormed}
use pocket_oid.AuthStore.Laws.{consume_pending_reauth-found_iff, consume_pending_reauth_consent_iff}
use pocket_oid.Config.{ReAuthConsent, TrustedProviderConfig}
use pocket_oid.Handlers.Authorize.{Draws}
use pocket_oid.Handlers.Issue.{issue_authorization_code_redirect_for_downstream}
use pocket_oid.Handlers.Reauth.{
  ReauthCallbackRequest, reauth_user_id, accept_identity, finish_reauth, reauth_callback,
  reauth_consent,
}
use pocket_oid.Handlers.State.{AppState}
use pocket_oid.HashMap.{get, contains_key}
use pocket_oid.Outside.{Chrono}
use pocket_oid.Text.{Text, text_eq, text_beq_iff, codes}
use pocket_oid.Upstream.{UpstreamClient, ValidatedUpstreamIdentity}

Taken-cases :
    (c : ConsumePendingReauth)
    → ((t : PendingReauthTransaction) × (c ≡ ConsumePendingReauth.found t))
      ⊎ ((c ≡ ConsumePendingReauth.not_found) ⊎ (c ≡ ConsumePendingReauth.provider_mismatch))
Taken-cases (ConsumePendingReauth.found t) = inl (t, refl)
Taken-cases ConsumePendingReauth.not_found = inr (inl refl)
Taken-cases ConsumePendingReauth.provider_mismatch = inr (inr refl)

ReAuthConsent-cases : (c : ReAuthConsent) → (c ≡ ReAuthConsent.skip) ⊎ (c ≡ ReAuthConsent.local)
ReAuthConsent-cases ReAuthConsent.skip = inl refl
ReAuthConsent-cases ReAuthConsent.local = inr refl

consume_pending_reauth-auth_codes :
    (now : ℕ) (upstream_state provider_id : Text) (store : AuthStore)
    → (consume_pending_reauth now upstream_state provider_id store).0.auth_codes ≡ store.auth_codes
unfolding consume_pending_reauth
consume_pending_reauth-auth_codes now upstream_state provider_id store = ground arith

module _ (chrono : Chrono) (upstream : UpstreamClient) (state : AppState) (draws : Draws)
    (provider_id : Text) (callback : ReauthCallbackRequest) where
  -- The case in which the callback issues a code at once: it carries the state of a transaction
  -- of this provider that is stored and alive, no error, and a code that the provider exchanges for
  -- a token; the token is valid for the nonce of the transaction and has an identity; the client
  -- skips the consent; and the code is that identity's.
  pub record IsVouched (store : AuthStore) : Type 0 where
    pub upstream_state : Text
    pub code : Text
    pub transaction : PendingReauthTransaction
    pub provider : TrustedProviderConfig
    pub id_token : Text
    pub identity : ValidatedUpstreamIdentity
    pub trusted : get provider_id state.trusted_providers ≡ some provider
    pub returned : callback.state ≡ some upstream_state
    pub stored : get upstream_state store.pending_reauth ≡ some transaction
    pub alive : draws.now < transaction.expires_at
    pub own_provider : transaction.provider_id ≡ provider_id
    pub succeeded : callback.error ≡ none
    pub carried : callback.code ≡ some code
    pub exchanged :
        upstream.exchange_code provider transaction.provider_metadata code transaction.pkce_verifier
        ≡ some id_token
    pub vouched :
        upstream.validate_id_token transaction.provider_metadata provider id_token
          transaction.upstream_nonce
        ≡ some identity
    pub skipped : transaction.consent ≡ ReAuthConsent.skip
    pub issued :
        reauth_callback chrono upstream state draws provider_id callback store
        ≡ issue_authorization_code_redirect_for_downstream chrono draws.later draws.uuid
            transaction.downstream
            (reauth_user_id provider_id identity.subject)
            (AuthContext.re_auth provider_id identity.issuer)
            (consume_pending_reauth draws.now upstream_state provider_id store).0

  accept-auth_codes :
      (transaction : PendingReauthTransaction) (identity : ValidatedUpstreamIdentity)
      (store : AuthStore)
      → transaction.consent ≡ ReAuthConsent.local
      → (accept_identity chrono draws provider_id transaction identity store).0.auth_codes
        ≡ store.auth_codes
  unfolding accept_identity create_pending_reauth_consent
  accept-auth_codes transaction identity store e = ground arith

  taken-auth_codes :
      (store : AuthStore) (upstream_state : Text)
      → (consume_pending_reauth draws.now upstream_state provider_id store).0.auth_codes
        ≡ store.auth_codes
  taken-auth_codes store upstream_state =
      consume_pending_reauth-auth_codes draws.now upstream_state provider_id store

  -- From the transaction on: an error, no code or no identity leaves the codes as they are.
  finish_cases :
      (transaction : PendingReauthTransaction) (store : AuthStore)
      → ((finish_reauth chrono upstream state draws provider_id callback transaction
            store).0.auth_codes
          ≡ store.auth_codes)
        ⊎ ((code : Text) × (provider : TrustedProviderConfig) × (id_token : Text)
            × (identity : ValidatedUpstreamIdentity) × (callback.error ≡ none)
            × (callback.code ≡ some code)
            × (get provider_id state.trusted_providers ≡ some provider)
            × (upstream.exchange_code provider transaction.provider_metadata code
                  transaction.pkce_verifier
                ≡ some id_token)
            × (upstream.validate_id_token transaction.provider_metadata provider id_token
                  transaction.upstream_nonce
                ≡ some identity)
            × (transaction.consent ≡ ReAuthConsent.skip)
            × (finish_reauth chrono upstream state draws provider_id callback transaction store
                ≡ issue_authorization_code_redirect_for_downstream chrono draws.later draws.uuid
                    transaction.downstream
                    (reauth_user_id provider_id identity.subject)
                    (AuthContext.re_auth provider_id identity.issuer)
                    store))
  unfolding finish_reauth accept_identity
  finish_cases transaction store = elim (Option-cases callback.error) [
    | inr (error, e) ↦ inl (rw (e, finish_reauth) refl)
    | inl e ↦ elim (Option-cases callback.code) [
      | inl f ↦ inl (rw (e, f, finish_reauth) refl)
      | inr (code, f) ↦ elim (Option-cases (get provider_id state.trusted_providers)) [
        | inl p ↦ inl (rw (e, f, p, finish_reauth) refl)
        | inr (provider, p) ↦
            elim (Option-cases (
              upstream.exchange_code provider transaction.provider_metadata code
                transaction.pkce_verifier)) [
                  | inl x ↦ inl (rw (e, f, p, x, finish_reauth) refl)
                  | inr (id_token, x) ↦
                      elim (Option-cases (
                        upstream.validate_id_token transaction.provider_metadata provider id_token
                          transaction.upstream_nonce)) [
                            | inl g ↦ inl (rw (e, f, p, x, g, finish_reauth) refl)
                            | inr (identity, g) ↦ elim (ReAuthConsent-cases transaction.consent) [
                              | inr c ↦ inl (
                                  rw (e, f, p, x, g, finish_reauth)
                                    (accept-auth_codes transaction identity store c))
                              | inl c ↦ inr (
                                code,
                                provider,
                                id_token,
                                identity,
                                e,
                                f,
                                p,
                                x,
                                g,
                                c,
                                ground (arith, e, f, p, x, g, c),
                              )
                            ]
                          ]
                ]
      ]
    ]
  ]

  -- The callback leaves the codes of a well-formed store as they are, or it issues a code because it
  -- carries the state of a live transaction of this trusted provider, no error and a code that the
  -- upstream client exchanges, with the transaction's verifier, for a token that it validates for
  -- this provider and the transaction's nonce, and the client skips the consent; the code is for the
  -- user of the identity that the token has.
  pub reauth_callback-IsVouched :
      (store : AuthStore)
      → IsWellFormed store
      → ((reauth_callback chrono upstream state draws provider_id callback store).0.auth_codes
          ≡ store.auth_codes)
        ⊎ IsVouched store
  unfolding reauth_callback
  reauth_callback-IsVouched store w =
      elim (Bool-cases (contains_key provider_id state.trusted_providers)) [
        | inr e ↦ inl (rw (e, reauth_callback) refl)
        | inl e ↦ elim (Option-cases callback.state) [
          | inl f ↦ inl (rw (e, f, reauth_callback) refl)
          | inr (upstream_state, f) ↦
              let kept = taken-auth_codes store upstream_state in
              elim (Taken-cases
                (consume_pending_reauth draws.now upstream_state provider_id store).1) [
                  | inr (inl g) ↦ inl (rw (e, f, reauth_callback, g) kept)
                  | inr (inr g) ↦ inl (rw (e, f, reauth_callback, g) kept)
                  | inl (t, g) ↦
                      let (stored, alive, own) =
                        (consume_pending_reauth-found_iff draws.now w upstream_state provider_id
                            t).0
                          g in
                      let after =
                        (consume_pending_reauth draws.now upstream_state provider_id store).0 in
                      let step : reauth_callback chrono upstream state draws provider_id callback
                            store
                          ≡ finish_reauth chrono upstream state draws provider_id callback t after =
                        ground (arith, e, f, g) in
                      elim (finish_cases t after) [
                        | inl same ↦ inl (rw step (same ∙ kept))
                        | inr (code, provider, id_token, identity, h1, h2, h3, h4, h5, h6, made) ↦
                            inr (record {
                              upstream_state = upstream_state;
                              code = code;
                              transaction = t;
                              provider = provider;
                              id_token = id_token;
                              identity = identity;
                              trusted = h3;
                              returned = f;
                              stored = stored;
                              alive = alive;
                              own_provider = own;
                              succeeded = h1;
                              carried = h2;
                              exchanged = h4;
                              vouched = h5;
                              skipped = h6;
                              issued = step ∙ made;
                            })
                      ]
                ]
        ]
      ]

module _ (chrono : Chrono) (draws : Draws) (decision transaction_id : Text) where
  -- The case in which the local consent issues a code: its transaction is stored and alive, the
  -- user approves, and the code is the transaction's user's.
  pub record IsConsented (store : AuthStore) : Type 0 where
    pub transaction : PendingReauthConsent
    pub stored : get transaction_id store.pending_reauth_consents ≡ some transaction
    pub alive : draws.now < transaction.expires_at
    pub approved : decision ≡ codes "approve"
    pub issued :
        reauth_consent chrono draws decision transaction_id store
        ≡ issue_authorization_code_redirect_for_downstream chrono draws.later draws.uuid
            transaction.downstream transaction.user_id transaction.auth_context
            (consume_pending_reauth_consent draws.now transaction_id store).0

  -- The local consent leaves the codes of a well-formed store as they are, or it issues a code
  -- because its transaction is stored and alive and the decision is `approve`, and the code is for
  -- the user and the request of the transaction.
  pub reauth_consent-IsConsented :
      (store : AuthStore)
      → IsWellFormed store
      → ((reauth_consent chrono draws decision transaction_id store).0.auth_codes
          ≡ store.auth_codes)
        ⊎ IsConsented store
  unfolding reauth_consent consume_pending_reauth_consent
  reauth_consent-IsConsented store w =
      elim (Option-cases (consume_pending_reauth_consent draws.now transaction_id store).1) [
        | inl e ↦ inl (ground (arith, e))
        | inr (t, e) ↦ elim (Bool-cases (decision == codes "approve")) [
          | inr f ↦ inl (ground (arith, e, f))
          | inl f ↦
              let (stored, alive) =
                (consume_pending_reauth_consent_iff draws.now w transaction_id t).0 e in
              inr (record {
                transaction = t;
                stored = stored;
                alive = alive;
                approved = (text_beq_iff decision (codes "approve")).0 f;
                issued = ground (arith, e, f);
              })
        ]
      ]
