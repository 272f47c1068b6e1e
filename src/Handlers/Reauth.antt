-- ===== src/Handlers/Reauth.antt =====
-- src/handlers.rs: `reauth_callback`, `reauth_consent_page` and `reauth_consent`.
pub mod Subjects
pub mod Identity
use pocket_oid.Base.{
  ℕ, ◌≡◌, ◌++◌, Bool, true, false, List, [], ◌∷◌, Option, none, some, if◌then◌else◌, ◌==◌,
}
use pocket_oid.Base.Int.{pos}
use pocket_oid.AuthStore.{
  AuthContext, AuthStore, PendingReauthTransaction, PendingReauthConsent, NewPendingReauthConsent,
  ConsumePendingReauth, consume_pending_reauth, create_pending_reauth_consent,
  get_pending_reauth_consent, consume_pending_reauth_consent,
}
use pocket_oid.Config.{ReAuthConsent, TrustedProviderConfig}
use pocket_oid.Handlers.Authorize.{Draws}
use pocket_oid.Handlers.Issue.{issue_authorization_code_redirect_for_downstream}
use pocket_oid.Handlers.Messages.{
  server_error, temporarily_unavailable, access_denied, invalid_request_name,
  unknown_reauth_provider, upstream_state_required, upstream_state_invalid, upstream_state_mismatch,
  reauth_consent_invalid,
}
use pocket_oid.Handlers.State.{AppState}
use pocket_oid.HashMap.{HashMap, get, contains_key}
use pocket_oid.Http.{
  Response, redirect_to, page, Page, authorization_error_response, authorization_error_redirect,
}
use pocket_oid.Outside.{Chrono}
use pocket_oid.Template.{text_or_empty}
use pocket_oid.Text.{Text, text_eq, codes}
use pocket_oid.Upstream.{UpstreamClient, ValidatedUpstreamIdentity}

pub record ReauthCallbackRequest : Type 0 where
  pub state : Option Text
  pub code : Option Text
  pub error : Option Text

unfoldable pub map_upstream_authorization_error : Text → Text
map_upstream_authorization_error error =
    if error == codes "access_denied" then access_denied else temporarily_unavailable

-- `format!("{provider_id}:{}", identity.subject)`.
abbrev pub reauth_user_id : Text → Text → Text
reauth_user_id provider_id subject = provider_id ++ (b':' ∷ subject)

abbrev invalid : Text → Response
invalid description = authorization_error_response invalid_request_name (some description)

abbrev back : PendingReauthTransaction → Text → Response
back transaction error =
    authorization_error_redirect transaction.downstream.redirect_uri error
      transaction.downstream.state

module _ (chrono : Chrono) where
  -- From the validated identity on.
  unfoldable pub accept_identity :
      Draws
      → Text
      → PendingReauthTransaction
      → ValidatedUpstreamIdentity
      → AuthStore
      → AuthStore × Response
  accept_identity draws provider_id transaction identity store =
      let auth_context = AuthContext.re_auth provider_id identity.issuer in
      let user_id = reauth_user_id provider_id identity.subject in
      elim transaction.consent [
        | ReAuthConsent.skip ↦
            issue_authorization_code_redirect_for_downstream chrono draws.later draws.uuid
              transaction.downstream user_id auth_context store
        | ReAuthConsent.local ↦
            let payload : NewPendingReauthConsent = record {
              downstream = transaction.downstream;
              user_id = user_id;
              auth_context = auth_context;
            } in
            let (after, made) =
              create_pending_reauth_consent chrono draws.later draws.uuid payload (pos 300) store in
            elim made [
              | none ↦ (after, authorization_error_response server_error none)
              | some consent_id ↦ (after, redirect_to (codes "/reauth/consent/" ++ consent_id))
            ]
      ]

module _ (chrono : Chrono) (upstream : UpstreamClient) (state : AppState) where
  -- From the transaction on, which is no longer in the store.
  unfoldable pub finish_reauth :
      Draws
      → Text
      → ReauthCallbackRequest
      → PendingReauthTransaction
      → AuthStore
      → AuthStore × Response
  finish_reauth draws provider_id callback transaction store = elim callback.error [
    | some error ↦ (store, back transaction (map_upstream_authorization_error error))
    | none ↦ elim callback.code [
      | none ↦ (store, back transaction server_error)
      | some code ↦ elim (get provider_id state.trusted_providers) [
        | none ↦ (store, back transaction server_error)
        | some provider ↦
            elim (upstream.exchange_code provider transaction.provider_metadata code
              transaction.pkce_verifier) [
                | none ↦ (store, back transaction server_error)
                | some id_token ↦
                    elim (upstream.validate_id_token transaction.provider_metadata provider id_token
                      transaction.upstream_nonce) [
                        | none ↦ (store, back transaction server_error)
                        | some identity ↦
                            accept_identity chrono draws provider_id transaction identity store
                      ]
              ]
      ]
    ]
  ]

  unfoldable pub reauth_callback :
      Draws → Text → ReauthCallbackRequest → AuthStore → AuthStore × Response
  reauth_callback draws provider_id callback store =
      if contains_key provider_id state.trusted_providers
      then elim callback.state [
        | none ↦ (store, invalid upstream_state_required)
        | some upstream_state ↦
            let (after, taken) =
              consume_pending_reauth draws.now upstream_state provider_id store in
            elim taken [
              | ConsumePendingReauth.found transaction ↦
                  finish_reauth draws provider_id callback transaction after
              | ConsumePendingReauth.not_found ↦ (after, invalid upstream_state_invalid)
              | ConsumePendingReauth.provider_mismatch ↦ (after, invalid upstream_state_mismatch)
            ]
      ]
      else (store, invalid unknown_reauth_provider)

abbrev shown : Option PendingReauthConsent → Response
shown none = invalid reauth_consent_invalid
shown (some transaction) = page (
    Page.reauth_consent_page transaction.transaction_id transaction.downstream.client_id
      (text_or_empty transaction.downstream.scope) transaction.user_id)

unfoldable pub reauth_consent_page : ℕ → Text → AuthStore → AuthStore × Response
reauth_consent_page now transaction_id store =
    let (after, transaction) = get_pending_reauth_consent now transaction_id store in
    (after, shown transaction)

module _ (chrono : Chrono) where
  unfoldable pub reauth_consent : Draws → Text → Text → AuthStore → AuthStore × Response
  reauth_consent draws decision transaction_id store =
      let (after, taken) = consume_pending_reauth_consent draws.now transaction_id store in
      elim taken [
        | none ↦ (after, invalid reauth_consent_invalid)
        | some transaction ↦
            if decision == codes "approve"
            then issue_authorization_code_redirect_for_downstream chrono draws.later draws.uuid
                transaction.downstream transaction.user_id transaction.auth_context after
            else (
              after,
              authorization_error_redirect transaction.downstream.redirect_uri access_denied
                  transaction.downstream.state,
            )
      ]
