-- ===== src/AuthStore/Laws.antt =====
-- What each lookup of the store answers, in terms of the entries stored and of the time.
use pocket_oid.Base.{ℕ, ◌<◌, ◌≡◌, ◌≢◌, ◌↔◌, Bool, true, none, some, arith, ltb}
use pocket_oid.Base.Int.{ℤ}
use pocket_oid.AuthStore.{
  Session, AuthorizationCodeRecord, PendingReauthTransaction, NewPendingReauthTransaction,
  PendingReauthConsent, found, not_found, provider_mismatch, AuthStore, create_pending_reauth,
  get_session, consume_authorization_code, consume_pending_reauth, consume_pending_reauth_consent,
}
use pocket_oid.AuthStore.Invariant.{IsKeyed, IsWellFormed}
use pocket_oid.HashMap.{HashMap, get, retain}
use pocket_oid.HashMap.Laws.{filter_iff, get-remove, get-retain, get-retain_absent}
use pocket_oid.Outside.{Chrono}
use pocket_oid.Text.{Text, text_eq, text_beq_iff}

-- Reading the live entries of a keyed map.
get_live_iff :
    {V : Type 0} {key : V → Text} (p : V → Bool) (k : Text) (m : HashMap V) (v : V)
    → IsKeyed key m
    → (get k (retain p m) ≡ some v) ↔ ((get k m ≡ some v) × (p v ≡ true))
get_live_iff p k m v h = rw (get-retain, h.unique) (filter_iff p (get k m) v)

live_iff : (now at : ℕ) → (ltb now at ≡ true) ↔ (now < at)
live_iff now at = ground arith

absent-not_found :
    (now : ℕ) (state provider : Text) (store : AuthStore)
    → get state store.pending_reauth ≡ none
    → (consume_pending_reauth now state provider store).1 ≡ not_found
unfolding consume_pending_reauth
absent-not_found now state provider store h =
    ground (arith, get-retain_absent (λ t. ltb now t.expires_at) state store.pending_reauth h)

module _ (now : ℕ) {store : AuthStore} (w : IsWellFormed store) where
  -- A session is found exactly when it is stored under that identifier and has not expired.
  pub get_session_iff :
      (id : Text) (s : Session)
      → ((get_session now id store).1 ≡ some s)
        ↔ ((get id store.sessions ≡ some s) × (now < s.expires_at))
  unfolding get_session
  get_session_iff id s = ground (
    arith,
    get_live_iff (λ s. ltb now s.expires_at) id store.sessions s w.sessions,
    live_iff now s.expires_at,
  )

  -- A code is redeemed exactly when it is stored and has not expired.
  pub consume_authorization_code_iff :
      (code : Text) (r : AuthorizationCodeRecord)
      → ((consume_authorization_code now code store).1 ≡ some r)
        ↔ ((get code store.auth_codes ≡ some r) × (now < r.expires_at))
  unfolding consume_authorization_code
  consume_authorization_code_iff code r = ground (
    arith,
    get_live_iff (λ r. ltb now r.expires_at) code store.auth_codes r w.auth_codes,
    live_iff now r.expires_at,
  )

  -- A local consent is redeemed exactly when it is stored and has not expired.
  pub consume_pending_reauth_consent_iff :
      (id : Text) (t : PendingReauthConsent)
      → ((consume_pending_reauth_consent now id store).1 ≡ some t)
        ↔ ((get id store.pending_reauth_consents ≡ some t) × (now < t.expires_at))
  unfolding consume_pending_reauth_consent
  consume_pending_reauth_consent_iff id t = ground (
    arith,
    get_live_iff (λ t. ltb now t.expires_at) id store.pending_reauth_consents t
        w.pending_reauth_consents,
    live_iff now t.expires_at,
  )

  -- A transaction stored under a state, as `consume_pending_reauth` sees it.
  abbrev IsLive : Text → PendingReauthTransaction → Type 0
  IsLive state t = (get state store.pending_reauth ≡ some t) × (now < t.expires_at)

  IsLive-iff_found :
      (state : Text) (t : PendingReauthTransaction)
      → (get state (retain (λ t. ltb now t.expires_at) store.pending_reauth) ≡ some t)
        ↔ IsLive state t
  IsLive-iff_found state t = ground (
    arith,
    get_live_iff (λ t. ltb now t.expires_at) state store.pending_reauth t w.pending_reauth,
    live_iff now t.expires_at,
  )

  -- A callback's transaction is handed out exactly when it is stored under the state, has not
  -- expired, and was begun with the provider that calls back.
  pub consume_pending_reauth-found_iff :
      (state provider : Text) (t : PendingReauthTransaction)
      → ((consume_pending_reauth now state provider store).1 ≡ found t) ↔ (
          (get state store.pending_reauth ≡ some t)
          × (now < t.expires_at)
          × (t.provider_id ≡ provider))
  unfolding consume_pending_reauth
  consume_pending_reauth-found_iff state provider t =
      ground (arith, IsLive-iff_found state t, text_beq_iff t.provider_id provider)

  -- A callback of the wrong provider consumes nothing: the live transaction stays under its
  -- state.
  pub consume_pending_reauth-mismatch :
      (state provider : Text) (t : PendingReauthTransaction)
      → get state store.pending_reauth ≡ some t
      → now < t.expires_at
      → t.provider_id ≢ provider
      → ((consume_pending_reauth now state provider store).1 ≡ provider_mismatch)
        × (get state (consume_pending_reauth now state provider store).0.pending_reauth ≡ some t)
  unfolding consume_pending_reauth
  consume_pending_reauth-mismatch state provider t stored alive other =
      let live = (IsLive-iff_found state t).1 (stored, alive) in
      (
        ground (arith, live, text_beq_iff t.provider_id provider),
        ground (arith, live, text_beq_iff t.provider_id provider),
      )

  found-gone :
      (state provider : Text) (t : PendingReauthTransaction)
      → (consume_pending_reauth now state provider store).1 ≡ found t
      → get state (consume_pending_reauth now state provider store).0.pending_reauth ≡ none
  unfolding consume_pending_reauth
  found-gone state provider t h = ground (
    arith,
    get-remove state state (retain (λ t. ltb now t.expires_at) store.pending_reauth),
    text_beq_iff state state,
  )

  -- A transaction that is handed out is gone: at any later time no provider is given it again.
  pub consume_pending_reauth_once :
      (state provider other : Text) (later : ℕ) (t : PendingReauthTransaction)
      → (consume_pending_reauth now state provider store).1 ≡ found t
      → (consume_pending_reauth later state other
          (consume_pending_reauth now state provider store).0).1
        ≡ not_found
  consume_pending_reauth_once state provider other later t h =
      absent-not_found later state other (consume_pending_reauth now state provider store).0
        (found-gone state provider t h)

  -- A new transaction never replaces a live one under the same state.
  pub create_pending_reauth-taken :
      (chrono : Chrono) (payload : NewPendingReauthTransaction) (ttl : ℤ)
      (t : PendingReauthTransaction)
      → get payload.upstream_state store.pending_reauth ≡ some t
      → now < t.expires_at
      → ((create_pending_reauth chrono now payload ttl store).1 ≡ none)
        × (get payload.upstream_state
              (create_pending_reauth chrono now payload ttl store).0.pending_reauth
            ≡ some t)
  unfolding create_pending_reauth
  create_pending_reauth-taken chrono payload ttl t stored alive =
      let live = (IsLive-iff_found payload.upstream_state t).1 (stored, alive) in
      (ground (arith, live), ground (arith, live))
