-- ===== src/AuthStore.antt =====
-- src/auth.rs: the in-memory store of sessions, authorization codes and re-authentication
-- transactions. `Utc::now()` and `Uuid::new_v4()` are arguments of each operation that reads
-- them; each operation holds one map's lock from its first access to its last, so it is one step.
pub mod Invariant
pub mod Calls
pub mod Laws
pub mod Runs
use pocket_oid.Base.{
  ℕ, ◌+◌, ◌≡◌, Bool, true, false, not, List, [], ◌∷◌, Option, none, some, arith, ltb, if◌then◌else◌,
  is_some, ◌==◌,
}
use pocket_oid.Base.Int.{ℤ}
use pocket_oid.Config.{ReAuthConsent}
use pocket_oid.HashMap.{HashMap, get, contains_key, insert, remove, retain}
use pocket_oid.Outside.{Chrono}
use pocket_oid.Text.{Text, text_eq}
use pocket_oid.Upstream.{DiscoveredOidcProvider}

pub record Session : Type 0 where
  pub session_id : Text
  pub user_id : Text
  pub username : Text
  pub auth_time : ℕ
  pub expires_at : ℕ

pub data AuthContext : Type 0 where
  local : AuthContext
  re_auth : Text → Text → AuthContext

pub record AuthorizationCodeRecord : Type 0 where
  pub code : Text
  pub client_id : Text
  pub user_id : Text
  pub redirect_uri : Text
  pub scope : Option Text
  pub nonce : Option Text
  pub expires_at : ℕ
  pub code_challenge : Option Text
  pub code_challenge_method : Option Text
  pub auth_context : AuthContext

pub record NewAuthorizationCode : Type 0 where
  pub client_id : Text
  pub user_id : Text
  pub redirect_uri : Text
  pub scope : Option Text
  pub nonce : Option Text
  pub code_challenge : Option Text
  pub code_challenge_method : Option Text
  pub auth_context : AuthContext

pub record DownstreamAuthorizationRequest : Type 0 where
  pub client_id : Text
  pub redirect_uri : Text
  pub scope : Option Text
  pub state : Option Text
  pub nonce : Option Text
  pub code_challenge : Option Text
  pub code_challenge_method : Option Text

pub record PendingReauthTransaction : Type 0 where
  pub downstream : DownstreamAuthorizationRequest
  pub provider_id : Text
  pub consent : ReAuthConsent
  pub upstream_state : Text
  pub upstream_nonce : Text
  pub pkce_verifier : Option Text
  pub provider_metadata : DiscoveredOidcProvider
  pub created_at : ℕ
  pub expires_at : ℕ

pub record NewPendingReauthTransaction : Type 0 where
  pub downstream : DownstreamAuthorizationRequest
  pub provider_id : Text
  pub consent : ReAuthConsent
  pub upstream_state : Text
  pub upstream_nonce : Text
  pub pkce_verifier : Option Text
  pub provider_metadata : DiscoveredOidcProvider

pub record PendingReauthConsent : Type 0 where
  pub transaction_id : Text
  pub downstream : DownstreamAuthorizationRequest
  pub user_id : Text
  pub auth_context : AuthContext
  pub expires_at : ℕ

pub record NewPendingReauthConsent : Type 0 where
  pub downstream : DownstreamAuthorizationRequest
  pub user_id : Text
  pub auth_context : AuthContext

pub data ConsumePendingReauth : Type 0 where
  found : PendingReauthTransaction → ConsumePendingReauth
  not_found : ConsumePendingReauth
  provider_mismatch : ConsumePendingReauth

pub record AuthStore : Type 0 where
  pub sessions : HashMap Session
  pub auth_codes : HashMap AuthorizationCodeRecord
  pub pending_reauth : HashMap PendingReauthTransaction
  pub pending_reauth_consents : HashMap PendingReauthConsent

-- `AuthStore::default()`.
abbrev pub empty_store : AuthStore
empty_store = record {
  sessions = [];
  auth_codes = [];
  pending_reauth = [];
  pending_reauth_consents = [];
}

-- The record that `issue_authorization_code` stores.
abbrev pub code_record : Text → NewAuthorizationCode → ℕ → AuthorizationCodeRecord
code_record uuid payload expires_at = record {
  code = uuid;
  client_id = payload.client_id;
  user_id = payload.user_id;
  redirect_uri = payload.redirect_uri;
  scope = payload.scope;
  nonce = payload.nonce;
  expires_at = expires_at;
  code_challenge = payload.code_challenge;
  code_challenge_method = payload.code_challenge_method;
  auth_context = payload.auth_context;
}

module _ (chrono : Chrono) where
  unfoldable pub create_session :
      ℕ → Text → Text → Text → ℤ → AuthStore → AuthStore × Option Session
  create_session now uuid user_id username ttl_seconds store =
      elim (chrono.checked_add now ttl_seconds) [
        | none ↦ (store, none)
        | some expires_at ↦
            let session : Session = record {
              session_id = uuid;
              user_id = user_id;
              username = username;
              auth_time = now;
              expires_at = expires_at;
            } in
            (record store { sessions = insert uuid session store.sessions }, some session)
      ]

  unfoldable pub issue_authorization_code :
      ℕ → Text → NewAuthorizationCode → ℤ → AuthStore → AuthStore × Option Text
  issue_authorization_code now uuid payload ttl_seconds store =
      elim (chrono.checked_add now ttl_seconds) [
        | none ↦ (store, none)
        | some expires_at ↦ (
          record store {
            auth_codes = insert uuid (code_record uuid payload expires_at) store.auth_codes;
          },
          some uuid,
        )
      ]

  unfoldable pub create_pending_reauth :
      ℕ → NewPendingReauthTransaction → ℤ → AuthStore → AuthStore × Option (Unit {0})
  create_pending_reauth created_at payload ttl_seconds store =
      elim (chrono.checked_add created_at ttl_seconds) [
        | none ↦ (store, none)
        | some expires_at ↦
            let transaction : PendingReauthTransaction = record {
              downstream = payload.downstream;
              provider_id = payload.provider_id;
              consent = payload.consent;
              upstream_state = payload.upstream_state;
              upstream_nonce = payload.upstream_nonce;
              pkce_verifier = payload.pkce_verifier;
              provider_metadata = payload.provider_metadata;
              created_at = created_at;
              expires_at = expires_at;
            } in
            let live = retain (λ t. ltb created_at t.expires_at) store.pending_reauth in
            if contains_key payload.upstream_state live
            then (record store { pending_reauth = live }, none)
            else (
              record store { pending_reauth = insert payload.upstream_state transaction live },
              some tt,
            )
      ]

  unfoldable pub create_pending_reauth_consent :
      ℕ → Text → NewPendingReauthConsent → ℤ → AuthStore → AuthStore × Option Text
  create_pending_reauth_consent now uuid payload ttl_seconds store =
      elim (chrono.checked_add now ttl_seconds) [
        | none ↦ (store, none)
        | some expires_at ↦
            let transaction : PendingReauthConsent = record {
              transaction_id = uuid;
              downstream = payload.downstream;
              user_id = payload.user_id;
              auth_context = payload.auth_context;
              expires_at = expires_at;
            } in
            let live = retain (λ t. ltb now t.expires_at) store.pending_reauth_consents in
            (record store { pending_reauth_consents = insert uuid transaction live }, some uuid)
      ]

unfoldable pub get_session : ℕ → Text → AuthStore → AuthStore × Option Session
get_session now session_id store =
    let live = retain (λ s. ltb now s.expires_at) store.sessions in
    (record store { sessions = live }, get session_id live)

unfoldable pub consume_authorization_code :
    ℕ → Text → AuthStore → AuthStore × Option AuthorizationCodeRecord
consume_authorization_code now code store =
    let live = retain (λ r. ltb now r.expires_at) store.auth_codes in
    (record store { auth_codes = remove code live }, get code live)

unfoldable pub consume_pending_reauth :
    ℕ → Text → Text → AuthStore → AuthStore × ConsumePendingReauth
consume_pending_reauth now upstream_state provider_id store =
    let live = retain (λ t. ltb now t.expires_at) store.pending_reauth in
    elim (get upstream_state live) [
      | none ↦ (record store { pending_reauth = live }, not_found)
      | some transaction ↦
          if transaction.provider_id == provider_id
          then (record store { pending_reauth = remove upstream_state live }, found transaction)
          else (record store { pending_reauth = live }, provider_mismatch)
    ]

unfoldable pub get_pending_reauth_consent :
    ℕ → Text → AuthStore → AuthStore × Option PendingReauthConsent
get_pending_reauth_consent now transaction_id store =
    let live = retain (λ t. ltb now t.expires_at) store.pending_reauth_consents in
    (record store { pending_reauth_consents = live }, get transaction_id live)

unfoldable pub consume_pending_reauth_consent :
    ℕ → Text → AuthStore → AuthStore × Option PendingReauthConsent
consume_pending_reauth_consent now transaction_id store =
    let live = retain (λ t. ltb now t.expires_at) store.pending_reauth_consents in
    (record store { pending_reauth_consents = remove transaction_id live }, get transaction_id live)
