-- ===== src/Tests/Console.antt =====
-- The theorems on the console, with one session of an administrator and one before sign-in.
use pocket_oid.AdminConsole.{
  new_session, admit, find_session, AdminConsole, AdminStore, Session, Tokens, Visit, granted,
  authorized, check_session, session_of,
}
use pocket_oid.AdminConsole.Account.{ChangeTask, PasswordForm, begin_change}
use pocket_oid.AdminConsole.Admission.{IsCurrent, authorized_iff}
use pocket_oid.AdminConsole.Attempts.{allowed_log, allowed_log-IsLimited, IsLimited}
use pocket_oid.AdminConsole.Bounds.{IsBounded, start-IsBounded}
use pocket_oid.AdminConsole.Browse.{users_reply, find_selected}
use pocket_oid.AdminConsole.Login.{
  LoginForm, LoginTask, LoginDraws, begin_login, finish_login, pending,
}
use pocket_oid.AdminConsole.Pages.{users_reply-shown, IsIn}
use pocket_oid.Text.Bytes.{as_bytes}
use pocket_oid.AdminConsole.Replies.{with_cookie, csrf_matches, cookie}
use pocket_oid.AdminConsole.Revocation.{change_password-revokes}
use pocket_oid.AdminConsole.Runs.{Event, run, start}
use pocket_oid.AdminConsole.Shown.{IsConsistent, users_table-IsConsistent}
use pocket_oid.AdminConsole.Tables.{users_table}
use pocket_oid.AdminConsole.Selection.{matches_user, Selection}
use pocket_oid.AdminConsole.Attempt.{recent, begin_login_iff}
use pocket_oid.AdminConsole.SignIn.{after_visits, finish_login-authorized}
use pocket_oid.AdminConsole.SignOut.{begin_change-IsChecked}
use pocket_oid.Admins.{
  enabled_admin, insert_row, AdminRecord, AdminRow, CreateDraws, ChangeDraws, PasswordUpdate,
  admin_from_row, authenticate, change_password, changed, create, credentials_changed, has_username,
  is_enabled, select, update_password, verifies,
}
use pocket_oid.Admins.Names.{validate_password, ok}
use pocket_oid.Admins.Races.{
  Statement, creates, updates, perform, run-IsTable, update_password_once,
}
use pocket_oid.Base.{
  ◌<◌, ◌≡◌, ◌≢◌, ◌↔◌, refl, Bool, true, false, ◌++◌, [], ◌∷◌, Option, none, some, arith, is_empty,
  length,
}
use pocket_oid.HashMap.{retain, get, IsUnique}
use pocket_oid.Tests.Data.{crypto}
use pocket_oid.Text.{
  split_once, split_by, is_whitespace, trim_start, trim_end, Text, text_beq, codes,
}
use pocket_oid.Users.{UserSummary}
use pocket_oid.Tests.Administrators.{argon2, row, rows, rows-IsTable, change_draws, creation}

abbrev console_store : AdminStore
console_store = record { rows = rows; dummy_hash = codes "d" }

abbrev admin_session : Session
admin_session = record {
  csrf = codes "c";
  admin_id = some (codes "1");
  credential_version = some 1;
  expires = 9;
}

abbrev guest_session : Session
guest_session = record { csrf = codes "g"; admin_id = none; credential_version = none; expires = 9 }

abbrev console : AdminConsole
console = record {
  store = some console_store;
  sessions = (codes "k", admin_session) ∷ (codes "l", guest_session) ∷ [];
  attempts = [];
  permits = 2;
}

console-IsUnique : IsUnique console.sessions
unfolding get text_beq
console-IsUnique = (refl, (refl, tt))

abbrev admin_cookie : Option Text
admin_cookie = some (codes "pocket_oid_admin=k")

abbrev guest_cookie : Option Text
guest_cookie = some (codes "x=y; pocket_oid_admin=l")

abbrev visit : Visit
visit = record { now = 5; headers = admin_cookie; queries = true }

abbrev guest_visit : Visit
guest_visit = record { now = 5; headers = guest_cookie; queries = true }

abbrev login_form : LoginForm
login_form = record { username = codes "a"; password = codes "p"; csrf = codes "g" }

abbrev login_task : LoginTask
login_task = record {
  username = codes "a";
  password = codes "p";
  csrf = codes "g";
  headers = guest_cookie;
}

abbrev tokens : Tokens
tokens = record { token = codes "n"; csrf = codes "h" }

abbrev login_draws : LoginDraws
login_draws = record { now = 6; tokens = some tokens; queries = true }

abbrev signed_in_visit : Visit
signed_in_visit = record { now = 7; headers = some (codes "pocket_oid_admin=n"); queries = true }

abbrev password_form : PasswordForm
password_form = record {
  current_password = codes "p";
  new_password = codes "q";
  confirm_password = codes "q";
  csrf = codes "c";
}

abbrev change_task : ChangeTask
change_task = record {
  admin = admin_from_row row;
  csrf = codes "c";
  current_password = codes "p";
  new_password = codes "q";
}

abbrev any_header : Text → Bool
any_header value = true

abbrev same_text : Text → Text
same_text t = t

abbrev selection : Selection
selection = record {
  q = codes "m";
  id = some (codes "7");
  status = codes "enabled";
  auth = [];
  sort = [];
}

abbrev listed : UserSummary
listed = record { id = codes "7"; username = codes "mo"; enabled = true }

start-IsBounded_example : IsBounded (
    run any_header
      (codes "i")
      crypto
      argon2
      (Event.begins_login 5 5 guest_cookie login_form ∷ Event.finishes_login 0 login_draws ∷ [])
      (start (some console_store)))
start-IsBounded_example =
    start-IsBounded any_header (codes "i") crypto argon2 (some console_store)
      (Event.begins_login 5 5 guest_cookie login_form ∷ Event.finishes_login 0 login_draws ∷ [])

allowed_log-IsLimited_example : IsLimited (allowed_log (1 ∷ 2 ∷ 2 ∷ []) [] [])
allowed_log-IsLimited_example =
    allowed_log-IsLimited 0 (1 ∷ 2 ∷ 2 ∷ []) (omega arith, (omega arith, (omega arith, tt)))

authorized_iff_example :
    ((authorized visit console).1 ≡ granted (admin_from_row row) admin_session) ↔ (
      (true ≡ true)
      × (token : Text) × (cookie admin_cookie ≡ some token)
      × (get token console.sessions ≡ some admin_session)
      × (5 < 9)
      × IsCurrent (some console_store) admin_session (admin_from_row row))
authorized_iff_example =
    authorized_iff visit console (admin_from_row row) admin_session console-IsUnique

change_password-revokes_example :
    check_session true
      (some (record console_store {
        rows =
            pocket_oid.Admins.Races.run argon2 creation
              (change_password argon2 change_draws (codes "1") (codes "p") (codes "q") rows).0;
      }))
      admin_session
    ≢ granted (admin_from_row row) admin_session
unfolding check_session enabled_admin select text_beq change_password validate_password
    update_password
change_password-revokes_example =
    change_password-revokes argon2 change_draws (codes "p") (codes "q") creation true console_store
      admin_session admin_session (admin_from_row row) (admin_from_row row) rows-IsTable refl refl

begin_login_iff_example :
    ((begin_login crypto 5 5 guest_cookie login_form console).1 ≡ pending login_task) ↔ (
      (s : Session) × (token : Text) × (cookie guest_cookie ≡ some token)
      × (get token console.sessions ≡ some s)
      × (5 < s.expires)
      × (s.admin_id ≡ none)
      × (s.csrf ≡ codes "g")
      × (length (recent 5 console) < 30)
      × (console.permits ≢ 0)
      × (some console_store ≢ none)
      × (login_task ≡ record {
        username = codes "a";
        password = codes "p";
        csrf = s.csrf;
        headers = guest_cookie;
      }))
begin_login_iff_example =
    begin_login_iff crypto 5 5 guest_cookie login_form console login_task console-IsUnique

guest_other : cookie guest_cookie ≢ some (codes "n")
unfolding cookie split_by split_once trim_end trim_start is_whitespace text_beq
guest_other h = absurd (ground arith)

finish_login-authorized_example :
    (admin : AdminRecord) × (authenticate argon2 true (codes "d") (codes "a") (codes "p") rows
      ≡ ok (some admin))
    × ((authorized signed_in_visit (
          after_visits
            (guest_visit ∷ signed_in_visit ∷ [])
            (finish_login any_header (codes "i") argon2 login_draws login_task console).0)).1
        ≡ granted admin (session_of 6 (codes "h") (some admin)))
unfolding cookie split_by split_once trim_end trim_start is_whitespace text_beq finish_login
    authenticate select new_session retain with_cookie
finish_login-authorized_example =
    finish_login-authorized any_header (codes "i") argon2 login_draws tokens login_task
      console_store console (guest_visit ∷ signed_in_visit ∷ []) signed_in_visit console-IsUnique
      refl rows-IsTable refl guest_other (omega arith, (omega arith, tt)) refl refl (omega arith)
      refl

begin_change-IsChecked_example :
    (s : Session) × ((authorized visit console).1 ≡ granted (admin_from_row row) s)
    × (s.csrf ≡ codes "c")
    × (codes "q" ≡ codes "q")
    × (codes "q" ≡ codes "q")
    × (codes "p" ≡ codes "p")
    × (is_empty (codes "p") ≡ false)
    × (is_empty (codes "q") ≡ false)
unfolding begin_change authorized find_session cookie split_by split_once trim_end trim_start
    is_whitespace text_beq get retain enabled_admin select csrf_matches as_bytes admit
begin_change-IsChecked_example =
    begin_change-IsChecked crypto visit 5 password_form console change_task refl

users_table-IsConsistent_example :
    IsConsistent (users_table same_text (some (listed ∷ [])) selection)
users_table-IsConsistent_example = users_table-IsConsistent same_text (some (listed ∷ [])) selection

users_reply-shown_example :
    (u : UserSummary) × (find_selected (some (codes "7")) (listed ∷ []) ≡ some u)
    × (u.id ≡ codes "7")
    × IsIn (codes "m") (u.username ++ (b' ' ∷ u.id))
    × ¬ ((codes "enabled" ≡ codes "enabled") × (u.enabled ≡ false))
    × ¬ ((codes "enabled" ≡ codes "disabled") × (u.enabled ≡ true))
unfolding users_reply text_beq matches_user trim_end trim_start is_whitespace
users_reply-shown_example =
    users_reply-shown same_text same_text (admin_from_row row) admin_session (listed ∷ []) selection
      (codes "7") refl refl
