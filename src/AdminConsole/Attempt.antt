-- ===== src/AdminConsole/Attempt.antt =====
-- src/admin_console/mod.rs: when a sign-in has its password verified.
use pocket_oid.AdminConsole.{AdminConsole, Session, find_session, admit, is_recent}
use pocket_oid.AdminConsole.Admission.{found_iff}
use pocket_oid.AdminConsole.Login.{
  LoginForm, LoginTask, pending, begin_attempt, begin_found, begin_login, is_before_login,
}
use pocket_oid.AdminConsole.Replies.{cookie, csrf_matches, csrf_matches_iff}
use pocket_oid.Base.{
  ℕ, ◌<◌, ◌≡◌, refl, ◌≢◌, ◌↔◌, Bool, true, ◌&&◌, List, Option, none, some, arith, keep, length,
}
use pocket_oid.HashMap.{get, filter, IsUnique}
use pocket_oid.HashMap.Laws.{filter_iff}
use pocket_oid.Outside.{Crypto}
use pocket_oid.Text.{Text, text_eq}

-- The attempts of the last minute.
abbrev pub recent : ℕ → AdminConsole → List ℕ
recent now console = keep (is_recent now) console.attempts

begin_attempt_iff :
    (at : ℕ) (headers : Option Text) (form : LoginForm) (s : Session) (console : AdminConsole)
    (task : LoginTask)
    → ((begin_attempt at headers form s console).1 ≡ pending task) ↔ (
        (length (recent at console) < 30)
        × (console.permits ≢ 0)
        × (console.store ≢ none)
        × (task ≡ record {
          username = form.username;
          password = form.password;
          csrf = s.csrf;
          headers = headers;
        }))
unfolding begin_attempt admit
begin_attempt_iff at headers form s console task = ground arith

-- The session before sign-in whose token the form has.
abbrev accepts : Crypto → LoginForm → Session → Bool
accepts crypto form s = is_before_login s && csrf_matches crypto s.csrf form.csrf

accepts_iff :
    (crypto : Crypto) (form : LoginForm) (s : Session)
    → (accepts crypto form s ≡ true) ↔ ((s.admin_id ≡ none) × (s.csrf ≡ form.csrf))
accepts_iff crypto form s = ground (arith, csrf_matches_iff crypto s.csrf form.csrf)

begin_found_iff :
    (at : ℕ) (headers : Option Text) (form : LoginForm) (o : Option Session)
    (console : AdminConsole) (task : LoginTask)
    → ((begin_found at headers form o console).1 ≡ pending task) ↔ (
        (s : Session) × (o ≡ some s) × ((begin_attempt at headers form s console).1 ≡ pending task))
unfolding begin_found
begin_found_iff at headers form none console task = ((λ h. absurd (ground arith)), (λ h. cc h.1))
begin_found_iff at headers form (some s) console task =
    ((λ h. (s, refl, h)), (λ (r, e, h). let same : r ≡ s = cc in rw (← same) h))

-- The password of a sign-in is verified exactly when the cookie names an unexpired session of
-- nobody yet, whose token the form has, fewer than 30 attempts were made in the last minute, a
-- permit is left and there is a store.
pub begin_login_iff :
    (crypto : Crypto) (now at : ℕ) (headers : Option Text) (form : LoginForm)
    (console : AdminConsole) (task : LoginTask)
    → IsUnique console.sessions
    → ((begin_login crypto now at headers form console).1 ≡ pending task) ↔ (
        (s : Session) × (token : Text) × (cookie headers ≡ some token)
        × (get token console.sessions ≡ some s)
        × (now < s.expires)
        × (s.admin_id ≡ none)
        × (s.csrf ≡ form.csrf)
        × (length (recent at console) < 30)
        × (console.permits ≢ 0)
        × (console.store ≢ none)
        × (task ≡ record {
          username = form.username;
          password = form.password;
          csrf = s.csrf;
          headers = headers;
        }))
unfolding begin_login
begin_login_iff crypto now at headers form console task u =
    let found = find_session now (cookie headers) console.sessions in
    let after = record console { sessions = found.0 } in
    let (to, from) =
      begin_found_iff at headers form (filter (accepts crypto form) found.1) after task in
    (
      (λ h.
          let (s, kept, begun) = to h in
          let (here, good) = (filter_iff (accepts crypto form) found.1 s).0 kept in
          let (token, e, stored, alive) =
            (found_iff now (cookie headers) console.sessions s u).0 here in
          let (nobody, same) = (accepts_iff crypto form s).0 good in
          let (few, free, there, made) = (begin_attempt_iff at headers form s after task).0 begun in
          (s, token, e, stored, alive, nobody, same, few, free, there, made)),
      (λ (s, token, e, stored, alive, nobody, same, few, free, there, made).
          let here =
            (found_iff now (cookie headers) console.sessions s u).1 (token, e, stored, alive) in
          let good = (accepts_iff crypto form s).1 (nobody, same) in
          from (
            s,
            (filter_iff (accepts crypto form) found.1 s).1 (here, good),
            (begin_attempt_iff at headers form s after task).1 (few, free, there, made),
          )),
    )
