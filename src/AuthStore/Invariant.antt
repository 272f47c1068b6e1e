-- ===== src/AuthStore/Invariant.antt =====
-- The store's invariant: in each map a key stands once, over the entry that carries it.
use pocket_oid.Base.{ℕ, ◌≡◌, refl, Bool, ltb, Option-cases, Bool-cases, inl, inr, ◌==◌}
use pocket_oid.Base.Int.{ℤ}
use pocket_oid.AuthStore.{
  Session, AuthorizationCodeRecord, NewAuthorizationCode, PendingReauthTransaction,
  NewPendingReauthTransaction, PendingReauthConsent, NewPendingReauthConsent, AuthStore,
  empty_store, create_session, issue_authorization_code, create_pending_reauth,
  create_pending_reauth_consent, get_session, consume_authorization_code, consume_pending_reauth,
  get_pending_reauth_consent, consume_pending_reauth_consent,
}
use pocket_oid.HashMap.{HashMap, get, contains_key, insert, remove, retain, IsUnique, Entries}
use pocket_oid.HashMap.Laws.{
  retain-IsUnique, remove-IsUnique, insert-IsUnique, retain-Entries, remove-Entries, insert-Entries,
}
use pocket_oid.Outside.{Chrono}
use pocket_oid.Text.{Text, text_eq}

module _ {V : Type 0} (key : V → Text) where
  pub record IsKeyed (m : HashMap V) : Type 0 where
    pub unique : IsUnique m
    pub own : Entries (λ k v. key v ≡ k) m

  retain-IsKeyed : (p : V → Bool) {m : HashMap V} → IsKeyed m → IsKeyed (retain p m)
  retain-IsKeyed p {m} h = record {
    unique = retain-IsUnique p m h.unique;
    own = retain-Entries (λ k v. key v ≡ k) p m h.own;
  }

  remove-IsKeyed : (k : Text) {m : HashMap V} → IsKeyed m → IsKeyed (remove k m)
  remove-IsKeyed k {m} h = record {
    unique = remove-IsUnique k m h.unique;
    own = remove-Entries (λ k v. key v ≡ k) k m h.own;
  }

  insert-IsKeyed :
      (k : Text) (v : V) {m : HashMap V} → key v ≡ k → IsKeyed m → IsKeyed (insert k v m)
  insert-IsKeyed k v {m} e h = record {
    unique = insert-IsUnique k v m h.unique;
    own = insert-Entries (λ k v. key v ≡ k) k v m e h.own;
  }

pub record IsWellFormed (store : AuthStore) : Type 0 where
  pub sessions : IsKeyed (λ s. s.session_id) store.sessions
  pub auth_codes : IsKeyed (λ r. r.code) store.auth_codes
  pub pending_reauth : IsKeyed (λ t. t.upstream_state) store.pending_reauth
  pub pending_reauth_consents : IsKeyed (λ t. t.transaction_id) store.pending_reauth_consents

pub empty_store-IsWellFormed : IsWellFormed empty_store
empty_store-IsWellFormed = record {
  sessions = record { unique = tt; own = tt };
  auth_codes = record { unique = tt; own = tt };
  pending_reauth = record { unique = tt; own = tt };
  pending_reauth_consents = record { unique = tt; own = tt };
}

-- Replacing one map by a keyed one keeps the invariant.
module _ {store : AuthStore} (h : IsWellFormed store) where
  with_sessions :
      (m : HashMap Session)
      → IsKeyed (λ s. s.session_id) m
      → IsWellFormed (record store { sessions = m })
  with_sessions m keyed = record {
    sessions = keyed;
    auth_codes = h.auth_codes;
    pending_reauth = h.pending_reauth;
    pending_reauth_consents = h.pending_reauth_consents;
  }

  with_auth_codes :
      (m : HashMap AuthorizationCodeRecord)
      → IsKeyed (λ r. r.code) m
      → IsWellFormed (record store { auth_codes = m })
  with_auth_codes m keyed = record {
    sessions = h.sessions;
    auth_codes = keyed;
    pending_reauth = h.pending_reauth;
    pending_reauth_consents = h.pending_reauth_consents;
  }

  with_pending_reauth :
      (m : HashMap PendingReauthTransaction)
      → IsKeyed (λ t. t.upstream_state) m
      → IsWellFormed (record store { pending_reauth = m })
  with_pending_reauth m keyed = record {
    sessions = h.sessions;
    auth_codes = h.auth_codes;
    pending_reauth = keyed;
    pending_reauth_consents = h.pending_reauth_consents;
  }

  with_pending_reauth_consents :
      (m : HashMap PendingReauthConsent)
      → IsKeyed (λ t. t.transaction_id) m
      → IsWellFormed (record store { pending_reauth_consents = m })
  with_pending_reauth_consents m keyed = record {
    sessions = h.sessions;
    auth_codes = h.auth_codes;
    pending_reauth = h.pending_reauth;
    pending_reauth_consents = keyed;
  }

module _ (chrono : Chrono) (now : ℕ) {store : AuthStore} (h : IsWellFormed store) where
  pub create_session-IsWellFormed :
      (uuid user_id username : Text) (ttl : ℤ)
      → IsWellFormed (create_session chrono now uuid user_id username ttl store).0
  unfolding create_session
  create_session-IsWellFormed uuid user_id username ttl =
      elim (Option-cases (chrono.checked_add now ttl)) [
        | inl e ↦ rw (e, create_session) h
        | inr (at, e) ↦
            rw (e, create_session) (with_sessions h _ (insert-IsKeyed _ uuid _ refl h.sessions))
      ]

  pub issue_authorization_code-IsWellFormed :
      (uuid : Text) (payload : NewAuthorizationCode) (ttl : ℤ)
      → IsWellFormed (issue_authorization_code chrono now uuid payload ttl store).0
  unfolding issue_authorization_code
  issue_authorization_code-IsWellFormed uuid payload ttl =
      elim (Option-cases (chrono.checked_add now ttl)) [
        | inl e ↦ rw (e, issue_authorization_code) h
        | inr (at, e) ↦
            rw (e, issue_authorization_code)
              (with_auth_codes h _ (insert-IsKeyed _ uuid _ refl h.auth_codes))
      ]

  pub create_pending_reauth_consent-IsWellFormed :
      (uuid : Text) (payload : NewPendingReauthConsent) (ttl : ℤ)
      → IsWellFormed (create_pending_reauth_consent chrono now uuid payload ttl store).0
  unfolding create_pending_reauth_consent
  create_pending_reauth_consent-IsWellFormed uuid payload ttl =
      elim (Option-cases (chrono.checked_add now ttl)) [
        | inl e ↦ rw (e, create_pending_reauth_consent) h
        | inr (at, e) ↦
            rw (e, create_pending_reauth_consent)
              (with_pending_reauth_consents h _
                (insert-IsKeyed _ uuid _ refl (retain-IsKeyed _ _ h.pending_reauth_consents)))
      ]

  pub create_pending_reauth-IsWellFormed :
      (payload : NewPendingReauthTransaction) (ttl : ℤ)
      → IsWellFormed (create_pending_reauth chrono now payload ttl store).0
  unfolding create_pending_reauth
  create_pending_reauth-IsWellFormed payload ttl =
      elim (Option-cases (chrono.checked_add now ttl)) [
        | inl e ↦ rw (e, create_pending_reauth) h
        | inr (at, e) ↦ elim (Bool-cases (contains_key payload.upstream_state live)) [
          | inl taken ↦ rw (e, taken, create_pending_reauth) (with_pending_reauth h _ kept)
          | inr new ↦
              rw (e, new, create_pending_reauth)
                (with_pending_reauth h _ (insert-IsKeyed _ payload.upstream_state _ refl kept))
        ]
      ]
    where
      live : HashMap PendingReauthTransaction
      live = retain (λ t. ltb now t.expires_at) store.pending_reauth

      kept : IsKeyed (λ t. t.upstream_state) live
      kept = retain-IsKeyed _ _ h.pending_reauth

module _ (now : ℕ) {store : AuthStore} (h : IsWellFormed store) (id : Text) where
  pub get_session-IsWellFormed : IsWellFormed (get_session now id store).0
  unfolding get_session
  get_session-IsWellFormed = with_sessions h _ (retain-IsKeyed _ _ h.sessions)

  pub consume_authorization_code-IsWellFormed :
      IsWellFormed (consume_authorization_code now id store).0
  unfolding consume_authorization_code
  consume_authorization_code-IsWellFormed =
      with_auth_codes h _ (remove-IsKeyed _ id (retain-IsKeyed _ _ h.auth_codes))

  pub get_pending_reauth_consent-IsWellFormed :
      IsWellFormed (get_pending_reauth_consent now id store).0
  unfolding get_pending_reauth_consent
  get_pending_reauth_consent-IsWellFormed =
      with_pending_reauth_consents h _ (retain-IsKeyed _ _ h.pending_reauth_consents)

  pub consume_pending_reauth_consent-IsWellFormed :
      IsWellFormed (consume_pending_reauth_consent now id store).0
  unfolding consume_pending_reauth_consent
  consume_pending_reauth_consent-IsWellFormed =
      with_pending_reauth_consents h _
        (remove-IsKeyed _ id (retain-IsKeyed _ _ h.pending_reauth_consents))

  pub consume_pending_reauth-IsWellFormed :
      (provider_id : Text) → IsWellFormed (consume_pending_reauth now id provider_id store).0
  unfolding consume_pending_reauth
  consume_pending_reauth-IsWellFormed provider_id = elim (Option-cases (get id live)) [
    | inl e ↦ rw (e, consume_pending_reauth) (with_pending_reauth h _ kept)
    | inr (t, e) ↦ elim (Bool-cases (t.provider_id == provider_id)) [
      | inl same ↦
          rw (e, same, consume_pending_reauth) (with_pending_reauth h _ (remove-IsKeyed _ id kept))
      | inr other ↦ rw (e, other, consume_pending_reauth) (with_pending_reauth h _ kept)
    ]
  ]
    where
      live : HashMap PendingReauthTransaction
      live = retain (λ t. ltb now t.expires_at) store.pending_reauth

      kept : IsKeyed (λ t. t.upstream_state) live
      kept = retain-IsKeyed _ _ h.pending_reauth
