-- ===== src/Handlers/Authorize/Issuing.antt =====
-- src/handlers.rs: when `authorize` and `consent` issue a code.
use pocket_oid.Base.{
  ℕ, ◌<◌, ◌≡◌, refl, ◌⊎◌, inl, inr, false, Option, none, some, arith, ◌==◌, Option-cases,
  Bool-cases,
}
use pocket_oid.AuthStore.{AuthContext, AuthStore, Session, get_session, create_pending_reauth}
use pocket_oid.AuthStore.Invariant.{IsWellFormed}
use pocket_oid.AuthStore.Laws.{get_session_iff}
use pocket_oid.Config.{Client, ClientAuthMode, ConsentMode}
use pocket_oid.Handlers.Authorize.{
  Draws, Tokens, extract_session_id, find_session, unless_fresh, start_reauth, begin_reauth,
  authorize_local, authorize, decide, consent,
}
use pocket_oid.Handlers.Issue.{issue_authorization_code_redirect}
use pocket_oid.Handlers.State.{AppState}
use pocket_oid.Handlers.Validation.{
  Validated, valid, refused, validate_authorize_request, validate_authorize_request_iff, IsValid,
}
use pocket_oid.HashMap.{get}
use pocket_oid.Http.{Response}
use pocket_oid.Outside.{Chrono}
use pocket_oid.Text.{Text, text_eq, text_beq_iff, codes}
use pocket_oid.Upstream.{UpstreamClient}
use pocket_oid.Uri.{AuthorizeRequest, parse_authorize_return, requests_fresh_authentication}

pub Validated-cases :
    (v : Validated)
    → ((response : Response) × (v ≡ refused response))
      ⊎ ((client : Client) × (scope : Option Text) × (v ≡ valid client scope))
Validated-cases (refused response) = inl (response, refl)
Validated-cases (valid client scope) = inr (client, scope, refl)

pub auth_mode-cases :
    (m : ClientAuthMode) → (m ≡ ClientAuthMode.local) ⊎ (m ≡ ClientAuthMode.re_auth)
auth_mode-cases ClientAuthMode.local = inl refl
auth_mode-cases ClientAuthMode.re_auth = inr refl

pub consent_mode-cases : (m : ConsentMode) → (m ≡ ConsentMode.skip) ⊎ (m ≡ ConsentMode.always)
consent_mode-cases ConsentMode.skip = inl refl
consent_mode-cases ConsentMode.always = inr refl

-- The sender's session: stored under the identifier in the cookie, and alive.
pub record HasSession (now : ℕ) (cookie : Option Text) (store : AuthStore) (session : Session)
    : Type 0 where
  pub session_id : Text
  pub sent : extract_session_id cookie ≡ some session_id
  pub stored : get session_id store.sessions ≡ some session
  pub alive : now < session.expires_at

find_session-HasSession :
    (now : ℕ) (cookie : Option Text) (store : AuthStore) (session : Session)
    → IsWellFormed store
    → (find_session now (extract_session_id cookie) store).1 ≡ some session
    → HasSession now cookie store session
find_session-HasSession now cookie store session w h =
    elim (Option-cases (extract_session_id cookie)) [
      | inl e ↦ cc (rw e at h)
      | inr (session_id, e) ↦
          let (stored, alive) = (get_session_iff now w session_id session).0 (rw e at h) in
          record { session_id = session_id; sent = e; stored = stored; alive = alive }
    ]

unless_fresh-some :
    (prompt : Option Text) (o : Option Session) (session : Session)
    → unless_fresh prompt o ≡ some session
    → (o ≡ some session) × (requests_fresh_authentication prompt ≡ false)
unless_fresh-some prompt none session h = cc
unless_fresh-some prompt (some s) session h = ground arith

find_session-auth_codes :
    (now : ℕ) (session_id : Option Text) (store : AuthStore)
    → (find_session now session_id store).0.auth_codes ≡ store.auth_codes
unfolding get_session
find_session-auth_codes now none store = refl
find_session-auth_codes now (some session_id) store = refl

module _ (chrono : Chrono) (upstream : UpstreamClient) (state : AppState) where
  begin_reauth-auth_codes :
      (now : ℕ) (tokens : Tokens) (request : AuthorizeRequest) (client : Client)
      (scope : Option Text) (store : AuthStore)
      → (begin_reauth chrono upstream state now tokens request client scope store).0.auth_codes
        ≡ store.auth_codes
  unfolding begin_reauth start_reauth create_pending_reauth
  begin_reauth-auth_codes now tokens request client scope store = ground arith

  module _ (draws : Draws) (tokens : Tokens) (cookie : Option Text) (request : AuthorizeRequest)
      (store : AuthStore) where
    -- The case in which a code is issued without a page: the request is valid, its client
    -- authenticates here and skips the consent, its sender has a session, which the request does
    -- not ask to renew, and the code is the session's user's.
    pub record IsDirect : Type 0 where
      pub client : Client
      pub scope : Option Text
      pub session : Session
      pub ok : IsValid state request client scope
      pub local : client.auth_mode ≡ ClientAuthMode.local
      pub skipped : client.consent_mode ≡ ConsentMode.skip
      pub sender : HasSession draws.now cookie store session
      pub kept : requests_fresh_authentication request.prompt ≡ false
      pub issued :
          authorize chrono upstream state draws tokens cookie request store
          ≡ issue_authorization_code_redirect chrono draws.later draws.uuid request session.user_id
              scope AuthContext.local
              (find_session draws.now (extract_session_id cookie) store).0

    local_cases :
        (client : Client) (scope : Option Text)
        → IsWellFormed store
        → IsValid state request client scope
        → client.auth_mode ≡ ClientAuthMode.local
        → authorize chrono upstream state draws tokens cookie request store
          ≡ authorize_local chrono state draws cookie request client scope store
        → ((authorize chrono upstream state draws tokens cookie request store).0.auth_codes
            ≡ store.auth_codes)
          ⊎ IsDirect
    unfolding authorize_local
    local_cases client scope w v mode e =
        elim (Option-cases (
          unless_fresh request.prompt
            (find_session draws.now (extract_session_id cookie) store).1)) [
              | inl f ↦ inl (rw e (rw (f, authorize_local) kept_codes))
              | inr (session, f) ↦ elim (consent_mode-cases client.consent_mode) [
                | inr g ↦ inl (rw e (rw (f, g, authorize_local) kept_codes))
                | inl g ↦
                    let (found, fresh) = unless_fresh-some request.prompt _ session f in
                    inr (record {
                      client = client;
                      scope = scope;
                      session = session;
                      ok = v;
                      local = mode;
                      skipped = g;
                      sender = find_session-HasSession draws.now cookie store session w found;
                      kept = fresh;
                      issued = rw e (rw (f, g, authorize_local) refl);
                    })
              ]
            ]
      where
        kept_codes :
            (find_session draws.now (extract_session_id cookie) store).0.auth_codes
            ≡ store.auth_codes
        kept_codes = find_session-auth_codes draws.now (extract_session_id cookie) store

    -- `authorize` leaves the codes of a well-formed store as they are, or it issues a code without a
    -- page because the request is valid, its client authenticates here and skips the consent, and the
    -- sender has a live session that the request does not ask to renew, whose user's the code is.
    pub authorize-IsDirect :
        IsWellFormed store
        → ((authorize chrono upstream state draws tokens cookie request store).0.auth_codes
            ≡ store.auth_codes)
          ⊎ IsDirect
    unfolding authorize authorize_local
    authorize-IsDirect w = elim (Validated-cases (validate_authorize_request state request)) [
      | inl (response, e) ↦ inl (rw (e, authorize) refl)
      | inr (client, scope, e) ↦ elim (auth_mode-cases client.auth_mode) [
        | inr f ↦ inl (
            rw (e, f, authorize)
              (begin_reauth-auth_codes draws.now tokens request client scope store))
        | inl f ↦
            local_cases client scope w
              ((validate_authorize_request_iff state request client scope).0 e) f
              (rw (e, f, authorize) refl)
      ]
    ]

module _ (chrono : Chrono) (state : AppState) (draws : Draws) (cookie : Option Text)
    (decision return_to : Text) (store : AuthStore) where
  -- The case in which the consent page's answer issues a code: the sender has a session and
  -- approves, and the request that the form carries is valid now.
  pub record IsApproved : Type 0 where
    pub client : Client
    pub scope : Option Text
    pub session : Session
    pub ok : IsValid state (parse_authorize_return return_to) client scope
    pub sender : HasSession draws.now cookie store session
    pub approved : decision ≡ codes "approve"
    pub issued :
        consent chrono state draws cookie decision return_to store
        ≡ issue_authorization_code_redirect chrono draws.later draws.uuid
            (parse_authorize_return return_to)
            session.user_id
            scope
            AuthContext.local
            (find_session draws.now (extract_session_id cookie) store).0

  -- `consent` leaves the codes of a well-formed store as they are, or it issues a code because the
  -- sender has a live session, the decision is `approve`, and the request that the form carries is
  -- valid, and the code is for the session's user and the scope that is granted now.
  pub consent-IsApproved :
      IsWellFormed store
      → ((consent chrono state draws cookie decision return_to store).0.auth_codes
          ≡ store.auth_codes)
        ⊎ IsApproved
  unfolding consent decide
  consent-IsApproved w =
      elim (Option-cases (find_session draws.now (extract_session_id cookie) store).1) [
        | inl e ↦ inl (rw (e, consent) kept_codes)
        | inr (session, e) ↦
            elim (Validated-cases
              (validate_authorize_request state (parse_authorize_return return_to))) [
                | inl (response, f) ↦ inl (rw (e, consent, f, decide) kept_codes)
                | inr (client, scope, f) ↦ elim (Bool-cases (decision == codes "approve")) [
                  | inr g ↦ inl (rw (e, consent, f, decide, g) kept_codes)
                  | inl g ↦ inr (record {
                    client = client;
                    scope = scope;
                    session = session;
                    ok =
                        (validate_authorize_request_iff state (parse_authorize_return return_to)
                            client scope).0
                          f;
                    sender = find_session-HasSession draws.now cookie store session w e;
                    approved = (text_beq_iff decision (codes "approve")).0 g;
                    issued = rw (e, consent, f, decide, g) refl;
                  })
                ]
              ]
      ]
    where
      kept_codes :
          (find_session draws.now (extract_session_id cookie) store).0.auth_codes ≡ store.auth_codes
      kept_codes = find_session-auth_codes draws.now (extract_session_id cookie) store
