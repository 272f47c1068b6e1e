-- ===== src/AdminConsole/SignOut.antt =====
-- src/admin_console/mod.rs: which sessions are left after signing out and after a change of password.
use pocket_oid.AdminConsole.{
  AdminConsole, Session, Visit, Access, granted, denied, authorized, find_session,
}
use pocket_oid.AdminConsole.Account.{
  ChangeTask, PasswordForm, begin_change, begin_for, begin_granted, begin_checked, validation_error,
  answer_change, change_in_store, drop_sessions_of, finish_change, is_of,
}
use pocket_oid.AdminConsole.Admission.{found_iff}
use pocket_oid.AdminConsole.Login.{pending, logout, drop_session}
use pocket_oid.AdminConsole.Replies.{cookie, csrf_matches_iff}
use pocket_oid.Admins.{AdminRecord, ChangeDraws, changed}
use pocket_oid.Admins.Names.{ok}
use pocket_oid.Base.{
  ℕ, ◌<◌, ◌≡◌, refl, ap, sym, ◌∙◌, is_empty, ◌≢◌, ◌↔◌, Bool, true, false, not, Option, none, some,
  arith, ◌==◌, if◌then◌else◌,
}
use pocket_oid.HashMap.{HashMap, filter, get, IsUnique}
use pocket_oid.HashMap.Laws.{get-remove, get-retain, filter_iff}
use pocket_oid.Outside.{Crypto, Argon2}
use pocket_oid.Text.{Text, text_eq, text_beq_iff}

is_of_iff : (id : Text) (owner : Option Text) → (is_of id owner ≡ true) ↔ (owner ≡ some id)
is_of_iff id none = ((λ h. cc), (λ h. cc))
is_of_iff id (some o) = ground (arith, text_beq_iff o id)

get-found :
    (now : ℕ) (t : Text) (o : Option Text) (m : HashMap Session)
    → o ≡ some t
    → get t (find_session now o m).0 ≡ (find_session now o m).1
unfolding find_session
get-found now t none m e = cc
get-found now t (some u) m e = ground arith

drop_sessions_of-get :
    (id token : Text) (s : Session) (console : AdminConsole)
    → IsUnique console.sessions
    → get token (drop_sessions_of id console).sessions ≡ some s
    → s.admin_id ≢ some id
unfolding drop_sessions_of
drop_sessions_of-get id token s console u h =
    let others = λ (s : Session). not (is_of id s.admin_id) in
    let kept : filter others (get token console.sessions) ≡ some s =
      rw (← get-retain others token console.sessions u) h in
    ground
      (arith, (filter_iff others (get token console.sessions) s).0 kept, is_of_iff id s.admin_id)

module _ (is_header_value : Text → Bool) (issuer : Text) where
  -- Signing out removes the session of the cookie if the form has the session's token, and leaves it
  -- where it is if not.
  pub logout-get :
      (crypto : Crypto) (now : ℕ) (headers : Option Text) (csrf token : Text) (s : Session)
      (console : AdminConsole)
      → IsUnique console.sessions
      → cookie headers ≡ some token
      → get token console.sessions ≡ some s
      → now < s.expires
      → get token (logout is_header_value issuer crypto now headers csrf console).0.sessions
        ≡ (if s.csrf == csrf then none else some s)
  unfolding logout drop_session
  logout-get crypto now headers csrf token s console u named stored alive =
      let found =
        (found_iff now (cookie headers) console.sessions s u).1 (token, named, stored, alive) in
      ground (
        arith,
        named,
        found,
        get-found now token (cookie headers) console.sessions named,
        get-remove token token (find_session now (cookie headers) console.sessions).0,
        text_beq_iff token token,
        csrf_matches_iff crypto s.csrf csrf,
        text_beq_iff s.csrf csrf,
      )

  -- A change that succeeds leaves no session of the administrator, under any token.
  pub finish_change-drops :
      (argon2 : Argon2) (draws : ChangeDraws) (task : ChangeTask) (console : AdminConsole)
      (token : Text) (s : Session)
      → IsUnique console.sessions
      → (change_in_store argon2 draws task console.store).1 ≡ ok changed
      → get token (finish_change is_header_value issuer argon2 draws task console).0.sessions
        ≡ some s
      → s.admin_id ≢ some task.admin.id
  unfolding finish_change answer_change
  finish_change-drops argon2 draws task console token s u done h =
      drop_sessions_of-get task.admin.id token s console u (ground (arith, done, h))

begin_for-granted :
    (crypto : Crypto) (at : ℕ) (form : PasswordForm) (access : Access) (console : AdminConsole)
    (task : ChangeTask)
    → (begin_for crypto at form access console).1 ≡ pending task
    → (admin : AdminRecord) × (s : Session) × (access ≡ granted admin s)
      × ((begin_granted crypto at admin s form console).1 ≡ pending task)
unfolding begin_for
begin_for-granted crypto at form (denied cause) console task h = absurd (ground arith)
begin_for-granted crypto at form (granted admin s) console task h = (admin, s, refl, h)

begin_granted-IsChecked :
    (crypto : Crypto) (at : ℕ) (admin : AdminRecord) (s : Session) (form : PasswordForm)
    (console : AdminConsole) (task : ChangeTask)
    → (begin_granted crypto at admin s form console).1 ≡ pending task
    → (task.admin ≡ admin)
      × (s.csrf ≡ form.csrf)
      × (form.new_password ≡ form.confirm_password)
      × (task.new_password ≡ form.new_password)
      × (task.current_password ≡ form.current_password)
      × (is_empty form.current_password ≡ false)
      × (is_empty form.new_password ≡ false)
unfolding begin_granted begin_checked validation_error
begin_granted-IsChecked crypto at admin s form console task h = ground (
  arith,
  csrf_matches_iff crypto s.csrf form.csrf,
  text_beq_iff form.new_password form.confirm_password,
)

-- A change that is begun is asked for by a request that is let in, with the token of its session,
-- with two equal new passwords, and with neither password empty; it is a change of the password of
-- the administrator who is let in.
pub begin_change-IsChecked :
    (crypto : Crypto) (visit : Visit) (at : ℕ) (form : PasswordForm) (console : AdminConsole)
    (task : ChangeTask)
    → (begin_change crypto visit at form console).1 ≡ pending task
    → (s : Session) × ((authorized visit console).1 ≡ granted task.admin s)
      × (s.csrf ≡ form.csrf)
      × (form.new_password ≡ form.confirm_password)
      × (task.new_password ≡ form.new_password)
      × (task.current_password ≡ form.current_password)
      × (is_empty form.current_password ≡ false)
      × (is_empty form.new_password ≡ false)
unfolding begin_change
begin_change-IsChecked crypto visit at form console task h =
    let (admin, s, e, granted_task) =
      begin_for-granted crypto at form (authorized visit console).1 (authorized visit console).0
        task h in
    let facts =
      begin_granted-IsChecked crypto at admin s form (authorized visit console).0 task
        granted_task in
    let same : admin ≡ task.admin = sym facts.0 in
    (s, e ∙ ap (λ a. granted a s) same, facts.1, facts.2, facts.3, facts.4, facts.5, facts.6)
