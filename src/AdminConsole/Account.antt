-- ===== src/AdminConsole/Account.antt =====
-- src/admin_console/mod.rs: `password_page` and `change_password`. As a sign-in does, a change ends
-- where its task has verified the password: `begin_change` is what comes before, `finish_change`
-- what comes after.
use pocket_oid.AdminConsole.{
  AdminConsole, AdminStore, Session, Visit, Access, granted, denied, denied_reply, admit,
  authorized,
}
use pocket_oid.AdminConsole.Login.{Begun, answered, pending}
use pocket_oid.AdminConsole.Replies.{
  Reply, View, redirect_to, show, error_response, with_cookie, csrf_matches,
}
use pocket_oid.Admins.{
  AdminRecord, ChangeDraws, PasswordChangeResult, changed, incorrect_current_password,
  password_unchanged, account_unavailable, credentials_changed, change_password,
}
use pocket_oid.Admins.Names.{AdminResult, ok, err, database_failed}
use pocket_oid.Base.{
  ℕ, ◌+◌, ◌-◌, [], Bool, true, false, not, Option, none, some, nat_beq, if◌then◌else◌, is_empty,
  is_none, ◌==◌,
}
use pocket_oid.HashMap.{retain}
use pocket_oid.Outside.{Crypto, Argon2}
use pocket_oid.Text.{Text, codes, text_eq}

pub record PasswordForm : Type 0 where
  pub current_password : Text
  pub new_password : Text
  pub confirm_password : Text
  pub csrf : Text

pub record ChangeTask : Type 0 where
  pub admin : AdminRecord
  pub csrf : Text
  pub current_password : Text
  pub new_password : Text

unfoldable pub password_page : Visit → AdminConsole → AdminConsole × Reply
password_page visit console =
    let (after, access) = authorized visit console in
    elim access [
      | granted admin session ↦ (after, show 200 (View.password admin.username session.csrf none))
      | denied cause ↦ (after, denied_reply cause)
    ]

unfoldable pub password_form_response : ℕ → AdminRecord → Text → Text → Reply
password_form_response status admin csrf message =
    show status (View.password admin.username csrf (some message))

unfoldable pub validation_error : PasswordForm → Option Text
validation_error form =
    if is_empty form.current_password
    then some (codes "Enter your current password.")
    else if is_empty form.new_password
    then some (codes "Enter a new password.")
    else if is_empty form.confirm_password
    then some (codes "Confirm your new password.")
    else if not (form.new_password == form.confirm_password)
    then some (codes "New passwords do not match.")
    else none

-- Once the form is valid: the attempt is counted, and, if it is allowed, a permit is taken.
unfoldable pub begin_checked :
    ℕ → AdminRecord → Session → PasswordForm → AdminConsole → AdminConsole × Begun ChangeTask
unfolding password_form_response
begin_checked at admin session form console =
    let (attempts, allowed) = admit at console.attempts in
    let after = record console { attempts = attempts } in
    if not allowed
    then (
      after,
      answered (
          password_form_response 429 admin session.csrf
            (codes "Too many password attempts. Try again in a minute.")),
    )
    else if nat_beq console.permits 0
    then (
      after,
      answered (
          password_form_response 429 admin session.csrf
            (codes "Please wait a moment before trying again.")),
    )
    else if is_none console.store
    then (after, answered error_response)
    else (
      record after { permits = console.permits - 1 },
      pending (record {
        admin = admin;
        csrf = session.csrf;
        current_password = form.current_password;
        new_password = form.new_password;
      }),
    )

unfoldable pub begin_granted :
    Crypto
    → ℕ
    → AdminRecord
    → Session
    → PasswordForm
    → AdminConsole
    → AdminConsole × Begun ChangeTask
unfolding begin_checked validation_error password_form_response
begin_granted crypto at admin session form console =
    if not (csrf_matches crypto session.csrf form.csrf)
    then (
      console,
      answered (
          password_form_response 403 admin session.csrf
            (codes "This form expired. Reload the page and try again.")),
    )
    else elim (validation_error form) [
      | some message ↦ (console, answered (password_form_response 422 admin session.csrf message))
      | none ↦ begin_checked at admin session form console
    ]

unfoldable pub begin_for :
    Crypto → ℕ → PasswordForm → Access → AdminConsole → AdminConsole × Begun ChangeTask
unfolding begin_granted
begin_for crypto at form (denied cause) console = (console, answered (denied_reply cause))
begin_for crypto at form (granted admin session) console =
    begin_granted crypto at admin session form console

unfoldable pub begin_change :
    Crypto → Visit → ℕ → PasswordForm → AdminConsole → AdminConsole × Begun ChangeTask
unfolding begin_for
begin_change crypto visit at form console =
    let (after, access) = authorized visit console in begin_for crypto at form access after

abbrev pub is_of : Text → Option Text → Bool
is_of id none = false
is_of id (some owner) = owner == id

-- The sessions of the other administrators, and those before sign-in.
unfoldable pub drop_sessions_of : Text → AdminConsole → AdminConsole
drop_sessions_of id console = record console {
  sessions = retain (λ s. not (is_of id s.admin_id)) console.sessions;
}

-- The store's part of a change: nothing of it where there is no store.
unfoldable pub change_in_store :
    Argon2
    → ChangeDraws
    → ChangeTask
    → Option AdminStore
    → Option AdminStore × AdminResult PasswordChangeResult
change_in_store argon2 draws task none = (none, err database_failed)
change_in_store argon2 draws task (some store) =
    let (rows, result) =
      change_password argon2 draws task.admin.id task.current_password task.new_password
        store.rows in
    (some (record store { rows = rows }), result)

module _ (is_header_value : Text → Bool) (issuer : Text) where
  unfoldable pub answer_change :
      ChangeTask → AdminResult PasswordChangeResult → AdminConsole → AdminConsole × Reply
  unfolding drop_sessions_of password_form_response
  answer_change task (ok changed) console = (
    drop_sessions_of task.admin.id console,
    with_cookie is_header_value issuer [] true
        (redirect_to (codes "/admin/login?password_changed=1")),
  )
  answer_change task (ok incorrect_current_password) console = (
    console,
    password_form_response 401 task.admin task.csrf (codes "Current password is incorrect."),
  )
  answer_change task (ok password_unchanged) console = (
    console,
    password_form_response 422 task.admin task.csrf
        (codes "New password must be different from your current password."),
  )
  answer_change task (ok credentials_changed) console = (
    console,
    password_form_response 409 task.admin task.csrf
        (codes "Your credentials changed in another request. Sign in again and retry."),
  )
  answer_change task (ok account_unavailable) console =
      (console, with_cookie is_header_value issuer [] true (redirect_to (codes "/admin/login")))
  answer_change task (err cause) console = (
    console,
    password_form_response 503 task.admin task.csrf
        (codes "Could not change your password. Try again."),
  )

  -- The task's permit is given back when it ends.
  unfoldable pub finish_change :
      Argon2 → ChangeDraws → ChangeTask → AdminConsole → AdminConsole × Reply
  unfolding change_in_store answer_change
  finish_change argon2 draws task console =
      let (store, result) = change_in_store argon2 draws task console.store in
      answer_change task result (record console { store = store; permits = console.permits + 1 })

  -- The whole change, when nothing happens between the two parts.
  unfoldable pub change :
      Crypto → Argon2 → Visit → ℕ → ChangeDraws → PasswordForm → AdminConsole → AdminConsole × Reply
  unfolding begin_change finish_change
  change crypto argon2 visit at draws form console =
      let (after, begun) = begin_change crypto visit at form console in
      elim begun [
        | answered reply ↦ (after, reply)
        | pending task ↦ finish_change argon2 draws task after
      ]
