-- ===== src/AdminConsole/Caps.antt =====
-- src/admin_console/mod.rs: each handler keeps the limits on sessions, attempts and permits.
use pocket_oid.AdminConsole.{
  AdminConsole, Session, Tokens, Visit, Access, granted, denied, find_session, new_session, admit,
  authorized, is_live, is_recent, session_of,
}
use pocket_oid.AdminConsole.Account.{
  PasswordForm, ChangeTask, begin_change, begin_granted, begin_checked, begin_for, answer_change,
  drop_sessions_of,
}
use pocket_oid.AdminConsole.Login.{
  LoginForm, LoginTask, LoginDraws, Begun, answered, pending, fresh_login_page, offer_login,
  begin_attempt, begin_found, begin_login, login_page_for, answer_login, sign_in_admin,
  drop_session, logout,
}
use pocket_oid.AdminConsole.Replies.{cookie}
use pocket_oid.Admins.{AdminRecord, changed, PasswordChangeResult}
use pocket_oid.Admins.Names.{AdminResult, ok, err}
use pocket_oid.Base.{
  ℕ, ◌+◌, ◌≤◌, ◌≡◌, Bool, List, [], ◌∷◌, Option, none, some, is_some, arith, length, length-append,
  keep,
}
use pocket_oid.HashMap.{HashMap, retain}
use pocket_oid.HashMap.Size.{length-remove, length-retain, length-insert, length-keep}
use pocket_oid.Outside.{Crypto}
use pocket_oid.Text.{Text}

-- The limits on the sessions and on the attempts that are kept, and the permits that are not held
-- by any of `n` tasks.
pub record IsCapped (n : ℕ) (console : AdminConsole) : Type 0 where
  pub sessions : length console.sessions ≤ 4096
  pub attempts : length console.attempts ≤ 30
  pub permits : console.permits + n ≡ 2

find_session-length :
    (now : ℕ) (token : Option Text) (m : HashMap Session)
    → length (find_session now token m).0 ≤ length m
unfolding find_session
find_session-length now none m = omega arith
find_session-length now (some token) m = length-retain (is_live now) m

new_session-length :
    (now : ℕ) (tokens : Option Tokens) (admin : Option AdminRecord) (m : HashMap Session)
    → length m ≤ 4096
    → length (new_session now tokens admin m).0 ≤ 4096
unfolding new_session
new_session-length now none admin m h = h
new_session-length now (some tokens) admin m h = ground (
  arith,
  length-retain (is_live now) m,
  length-insert tokens.token (session_of now tokens.csrf admin) (retain (is_live now) m),
)

admit-length :
    (now : ℕ) (attempts : List ℕ) → length attempts ≤ 30 → length (admit now attempts).0 ≤ 30
unfolding admit
admit-length now attempts h = ground (
  arith,
  length-keep (is_recent now) attempts,
  length-append (keep (is_recent now) attempts) (now ∷ []),
)

drop_session-length :
    (token : Option Text) (m : HashMap Session) → length (drop_session token m) ≤ length m
unfolding drop_session
drop_session-length none m = omega arith
drop_session-length (some token) m = length-remove token m

abbrev pub count {ℓ} : {T : Type ℓ} → Begun T → ℕ
count (answered reply) = 0
count (pending task) = 1

module _ (n : ℕ) (console : AdminConsole) (h : IsCapped n console) where
  pub authorized-IsCapped : (visit : Visit) → IsCapped n (authorized visit console).0
  unfolding authorized
  authorized-IsCapped visit =
      ground (arith, h, find_session-length visit.now (cookie visit.headers) console.sessions)

  with_sessions :
      (m : HashMap Session) → length m ≤ 4096 → IsCapped n (record console { sessions = m })
  with_sessions m small = ground (arith, h)

  fresh_login_page-IsCapped :
      (is_header_value : Text → Bool) (issuer : Text) (now : ℕ) (tokens : Option Tokens)
      (notice : Bool)
      → IsCapped n (fresh_login_page is_header_value issuer now tokens notice console).0
  unfolding fresh_login_page
  fresh_login_page-IsCapped is_header_value issuer now tokens notice =
      with_sessions _ (new_session-length now tokens none console.sessions h.sessions)

  begin_attempt-IsCapped :
      (at : ℕ) (headers : Option Text) (form : LoginForm) (s : Session)
      → IsCapped
          (n + count (begin_attempt at headers form s console).1)
          (begin_attempt at headers form s console).0
  unfolding begin_attempt
  begin_attempt-IsCapped at headers form s = ground (arith, h, admit-length at console.attempts)

  begin_checked-IsCapped :
      (at : ℕ) (admin : AdminRecord) (s : Session) (form : PasswordForm)
      → IsCapped
          (n + count (begin_checked at admin s form console).1)
          (begin_checked at admin s form console).0
  unfolding begin_checked
  begin_checked-IsCapped at admin s form = ground (arith, h, admit-length at console.attempts)

  begin_granted-IsCapped :
      (crypto : Crypto) (at : ℕ) (admin : AdminRecord) (s : Session) (form : PasswordForm)
      → IsCapped
          (n + count (begin_granted crypto at admin s form console).1)
          (begin_granted crypto at admin s form console).0
  unfolding begin_granted
  begin_granted-IsCapped crypto at admin s form =
      ground (arith, h, begin_checked-IsCapped at admin s form)

  found-IsCapped :
      (now : ℕ) (token : Option Text)
      → IsCapped n (record console { sessions = (find_session now token console.sessions).0 })
  found-IsCapped now token =
      with_sessions _ (omega (arith, find_session-length now token console.sessions, h.sessions))

  pub logout-IsCapped :
      (is_header_value : Text → Bool) (issuer : Text) (crypto : Crypto) (now : ℕ)
      (headers : Option Text) (csrf : Text)
      → IsCapped n (logout is_header_value issuer crypto now headers csrf console).0
  unfolding logout
  logout-IsCapped is_header_value issuer crypto now headers csrf = ground (
    arith,
    h,
    find_session-length now (cookie headers) console.sessions,
    drop_session-length (cookie headers) (find_session now (cookie headers) console.sessions).0,
  )

  sign_in_admin-IsCapped :
      (is_header_value : Text → Bool) (issuer : Text) (now : ℕ) (tokens : Option Tokens)
      (headers : Option Text) (admin : AdminRecord)
      → IsCapped n (sign_in_admin is_header_value issuer now tokens headers admin console).0
  unfolding sign_in_admin
  sign_in_admin-IsCapped is_header_value issuer now tokens headers admin = ground (
    arith,
    h,
    new_session-length now tokens (some admin) console.sessions,
    drop_session-length (cookie headers) (new_session now tokens (some admin) console.sessions).0,
  )

  drop_sessions_of-IsCapped : (id : Text) → IsCapped n (drop_sessions_of id console)
  unfolding drop_sessions_of
  drop_sessions_of-IsCapped id =
      with_sessions _ (omega (arith, length-retain {V = Session} _ console.sessions, h.sessions))

  pub answer_change-IsCapped :
      (is_header_value : Text → Bool) (issuer : Text) (task : ChangeTask)
      (result : AdminResult PasswordChangeResult)
      → IsCapped n (answer_change is_header_value issuer task result console).0
  unfolding answer_change
  answer_change-IsCapped is_header_value issuer task (ok changed) =
      drop_sessions_of-IsCapped task.admin.id
  answer_change-IsCapped is_header_value issuer task (ok _) = h
  answer_change-IsCapped is_header_value issuer task (err cause) = h

  pub answer_login-IsCapped :
      (is_header_value : Text → Bool) (issuer : Text) (draws : LoginDraws) (task : LoginTask)
      (result : AdminResult (Option AdminRecord))
      → IsCapped n (answer_login is_header_value issuer draws task result console).0
  unfolding answer_login
  answer_login-IsCapped is_header_value issuer draws task (err cause) = h
  answer_login-IsCapped is_header_value issuer draws task (ok none) = h
  answer_login-IsCapped is_header_value issuer draws task (ok (some admin)) =
      sign_in_admin-IsCapped is_header_value issuer draws.now draws.tokens task.headers admin

  stays : IsCapped (n + 0) console
  stays = ground (arith, h)

  begin_found-IsCapped :
      (at : ℕ) (headers : Option Text) (form : LoginForm) (session : Option Session)
      → IsCapped
          (n + count (begin_found at headers form session console).1)
          (begin_found at headers form session console).0
  unfolding begin_found
  begin_found-IsCapped at headers form none = stays
  begin_found-IsCapped at headers form (some s) = begin_attempt-IsCapped at headers form s

  begin_for-IsCapped :
      (crypto : Crypto) (at : ℕ) (form : PasswordForm) (access : Access)
      → IsCapped
          (n + count (begin_for crypto at form access console).1)
          (begin_for crypto at form access console).0
  unfolding begin_for
  begin_for-IsCapped crypto at form (denied cause) = stays
  begin_for-IsCapped crypto at form (granted admin s) =
      begin_granted-IsCapped crypto at admin s form

-- Those that follow another step.
module _ (n : ℕ) (console : AdminConsole) (h : IsCapped n console) where
  pub begin_login-IsCapped :
      (crypto : Crypto) (now at : ℕ) (headers : Option Text) (form : LoginForm)
      → IsCapped
          (n + count (begin_login crypto now at headers form console).1)
          (begin_login crypto now at headers form console).0
  unfolding begin_login
  begin_login-IsCapped crypto now at headers form =
      begin_found-IsCapped n _ (found-IsCapped n console h now (cookie headers)) at headers form _

  pub begin_change-IsCapped :
      (crypto : Crypto) (visit : Visit) (at : ℕ) (form : PasswordForm)
      → IsCapped
          (n + count (begin_change crypto visit at form console).1)
          (begin_change crypto visit at form console).0
  unfolding begin_change
  begin_change-IsCapped crypto visit at form =
      begin_for-IsCapped n _ (authorized-IsCapped n console h visit) crypto at form _

  offer_login-IsCapped :
      (is_header_value : Text → Bool) (issuer : Text) (now later : ℕ) (headers : Option Text)
      (tokens : Option Tokens) (notice : Bool)
      → IsCapped n (offer_login is_header_value issuer now later headers tokens notice console).0
  unfolding offer_login
  offer_login-IsCapped is_header_value issuer now later headers tokens notice =
      let found = found-IsCapped n console h now (cookie headers) in
      ground (
        arith,
        found,
        fresh_login_page-IsCapped n _ found is_header_value issuer later tokens notice,
      )

module _ (n : ℕ) (console : AdminConsole) (h : IsCapped n console) where
  pub login_page_for-IsCapped :
      (is_header_value : Text → Bool) (issuer : Text) (access : Access) (again later : ℕ)
      (headers : Option Text) (tokens : Option Tokens) (password_changed : Option Text)
      → IsCapped n
          (login_page_for is_header_value issuer access again later headers tokens password_changed
            console).0
  unfolding login_page_for
  login_page_for-IsCapped is_header_value issuer (granted admin s) again later headers tokens
        password_changed =
      h
  login_page_for-IsCapped is_header_value issuer (denied cause) again later headers tokens
        password_changed =
      ground (
        arith,
        h,
        offer_login-IsCapped n console h is_header_value issuer again later headers tokens
            (is_some password_changed),
      )
