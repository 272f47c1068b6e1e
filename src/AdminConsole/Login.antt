-- ===== src/AdminConsole/Login.antt =====
-- src/admin_console/mod.rs: `login_page`, `login` and `logout`. A sign-in ends where its task has
-- verified the password: `begin_login` is what comes before, `finish_login` what comes after.
use pocket_oid.AdminConsole.{
  AdminConsole, AdminStore, Session, Tokens, Visit, Access, granted, denied, find_session,
  new_session, admit, authorized,
}
use pocket_oid.AdminConsole.Replies.{
  Reply, View, redirect_to, show, status_only, error_response, cookie, with_cookie, csrf_matches,
}
use pocket_oid.Admins.{AdminRecord, authenticate}
use pocket_oid.Admins.Names.{AdminResult, ok, err, database_failed}
use pocket_oid.Base.{
  ℕ, ◌+◌, ◌-◌, [], Bool, true, false, ◌&&◌, not, Option, none, some, nat_beq, if◌then◌else◌,
  is_none, is_some,
}
use pocket_oid.HashMap.{HashMap, filter, remove}
use pocket_oid.Outside.{Crypto, Argon2}
use pocket_oid.Text.{Text, codes}

pub record LoginForm : Type 0 where
  pub username : Text
  pub password : Text
  pub csrf : Text

-- What the verification of a password is given, and what its answer needs.
pub record LoginTask : Type 0 where
  pub username : Text
  pub password : Text
  pub csrf : Text
  pub headers : Option Text

pub data Begun {ℓ} (T : Type ℓ) : Type ℓ where
  answered : Reply → Begun T
  pending : T → Begun T

abbrev pub is_before_login : Session → Bool
is_before_login s = is_none s.admin_id

-- The session is removed whose cookie a request has.
unfoldable pub drop_session : Option Text → HashMap Session → HashMap Session
drop_session none sessions = sessions
drop_session (some token) sessions = remove token sessions

-- What the program knows of a sign-in that ends: the time, the new session's tokens, and whether
-- the database executed the query.
pub record LoginDraws : Type 0 where
  pub now : ℕ
  pub tokens : Option Tokens
  pub queries : Bool

abbrev login_error : ℕ → Text → Text → Reply
login_error n csrf message = show n (View.login csrf (some message) false)

-- Once the session before sign-in is found: the attempt is counted, then a permit is taken.
unfoldable pub begin_attempt :
    ℕ → Option Text → LoginForm → Session → AdminConsole → AdminConsole × Begun LoginTask
begin_attempt at headers form session console =
    let (attempts, allowed) = admit at console.attempts in
    let after = record console { attempts = attempts } in
    if nat_beq console.permits 0
    then (
      after,
      answered (login_error 429 session.csrf (codes "Please wait a moment before trying again.")),
    )
    else if not allowed
    then (
      after,
      answered (
          login_error 429 session.csrf (codes "Too many sign-in attempts. Try again in a minute.")),
    )
    else if is_none console.store
    then (after, answered error_response)
    else (
      record after { permits = console.permits - 1 },
      pending (record {
        username = form.username;
        password = form.password;
        csrf = session.csrf;
        headers = headers;
      }),
    )

unfoldable pub begin_found :
    ℕ → Option Text → LoginForm → Option Session → AdminConsole → AdminConsole × Begun LoginTask
unfolding begin_attempt
begin_found at headers form none console = (
  console,
  answered (login_error 403 [] (codes "This sign-in form expired. Reload the page and try again.")),
)
begin_found at headers form (some session) console = begin_attempt at headers form session console

unfoldable pub begin_login :
    Crypto → ℕ → ℕ → Option Text → LoginForm → AdminConsole → AdminConsole × Begun LoginTask
unfolding begin_found
begin_login crypto now at headers form console =
    let (sessions, session) = find_session now (cookie headers) console.sessions in
    begin_found at headers form
      (filter (λ s. is_before_login s && csrf_matches crypto s.csrf form.csrf) session)
      (record console { sessions = sessions })

abbrev pub verify_login :
    Argon2 → Bool → LoginTask → Option AdminStore → AdminResult (Option AdminRecord)
verify_login argon2 queries task none = err database_failed
verify_login argon2 queries task (some store) =
    authenticate argon2 queries store.dummy_hash task.username task.password store.rows

module _ (is_header_value : Text → Bool) (issuer : Text) where
  -- The page, for a session before sign-in or a new one.
  unfoldable pub fresh_login_page : ℕ → Option Tokens → Bool → AdminConsole → AdminConsole × Reply
  fresh_login_page now tokens password_changed console =
      let (sessions, made) = new_session now tokens none console.sessions in
      (
        record console { sessions = sessions },
        elim made [
          | none ↦ error_response
          | some t ↦
              with_cookie is_header_value issuer t.token false
                (show 200 (View.login t.csrf none password_changed))
        ],
      )

  unfoldable pub offer_login :
      ℕ → ℕ → Option Text → Option Tokens → Bool → AdminConsole → AdminConsole × Reply
  unfolding fresh_login_page
  offer_login now later headers tokens password_changed console =
      let (sessions, session) = find_session now (cookie headers) console.sessions in
      let after = record console { sessions = sessions } in
      elim (filter is_before_login session) [
        | some s ↦ (after, show 200 (View.login s.csrf none password_changed))
        | none ↦ fresh_login_page later tokens password_changed after
      ]

  unfoldable pub login_page_for :
      Access
      → ℕ
      → ℕ
      → Option Text
      → Option Tokens
      → Option Text
      → AdminConsole
      → AdminConsole × Reply
  unfolding offer_login
  login_page_for (granted admin session) again later headers tokens password_changed console =
      (console, redirect_to (codes "/admin/clients"))
  login_page_for (denied cause) again later headers tokens password_changed console =
      if is_none console.store
      then (
        console,
        show 503 (
            View.login []
              (some (
                codes
                  "Administrator access is not configured. Configure admins.json and create an administrator with the CLI."))
              false),
      )
      else offer_login again later headers tokens (is_some password_changed) console

  unfoldable pub login_page :
      Visit → ℕ → ℕ → Option Tokens → Option Text → AdminConsole → AdminConsole × Reply
  unfolding login_page_for
  login_page visit again later tokens password_changed console =
      let (after, access) = authorized visit console in
      login_page_for access again later visit.headers tokens password_changed after

  -- A new session for the administrator, and the old one is removed.
  unfoldable pub sign_in_admin :
      ℕ → Option Tokens → Option Text → AdminRecord → AdminConsole → AdminConsole × Reply
  unfolding drop_session
  sign_in_admin now tokens headers admin console =
      let (sessions, made) = new_session now tokens (some admin) console.sessions in
      elim made [
        | none ↦ (record console { sessions = sessions }, error_response)
        | some t ↦ (
          record console { sessions = drop_session (cookie headers) sessions },
          with_cookie is_header_value issuer t.token false (redirect_to (codes "/admin/clients")),
        )
      ]

  unfoldable pub answer_login :
      LoginDraws
      → LoginTask
      → AdminResult (Option AdminRecord)
      → AdminConsole
      → AdminConsole × Reply
  unfolding sign_in_admin
  answer_login draws task (err cause) console = (console, error_response)
  answer_login draws task (ok none) console =
      (console, login_error 401 task.csrf (codes "Invalid administrator username or password."))
  answer_login draws task (ok (some admin)) console =
      sign_in_admin draws.now draws.tokens task.headers admin console

  -- The task's permit is given back when it ends.
  unfoldable pub finish_login :
      Argon2 → LoginDraws → LoginTask → AdminConsole → AdminConsole × Reply
  unfolding answer_login
  finish_login argon2 draws task console =
      answer_login draws task (verify_login argon2 draws.queries task console.store)
        (record console { permits = console.permits + 1 })

  -- The whole sign-in, when nothing happens between the two parts.
  unfoldable pub login :
      Crypto
      → Argon2
      → ℕ
      → ℕ
      → LoginDraws
      → Option Text
      → LoginForm
      → AdminConsole
      → AdminConsole × Reply
  unfolding begin_login finish_login
  login crypto argon2 now at draws headers form console =
      let (after, begun) = begin_login crypto now at headers form console in
      elim begun [
        | answered reply ↦ (after, reply)
        | pending task ↦ finish_login argon2 draws task after
      ]

  unfoldable pub logout : Crypto → ℕ → Option Text → Text → AdminConsole → AdminConsole × Reply
  unfolding drop_session
  logout crypto now headers csrf console =
      let (sessions, session) = find_session now (cookie headers) console.sessions in
      let after = record console { sessions = sessions } in
      elim session [
        | none ↦ (after, redirect_to (codes "/admin/login"))
        | some s ↦
            if csrf_matches crypto s.csrf csrf
            then (
              record console { sessions = drop_session (cookie headers) sessions },
              with_cookie is_header_value issuer [] true (redirect_to (codes "/admin/login")),
            )
            else (after, status_only 403)
      ]
