-- ===== src/AdminConsole/SignIn.antt =====
-- src/admin_console/mod.rs: who gets a session by signing in, and what it lets them do.
use pocket_oid.AdminConsole.{
  AdminStore, AdminConsole, Session, Tokens, Visit, granted, new_session, authorized, session_of,
  find_session, is_live,
}
use pocket_oid.AdminConsole.Admission.{IsCurrent, authorized_iff}
use pocket_oid.AdminConsole.Login.{
  LoginDraws, LoginTask, drop_session, sign_in_admin, answer_login, finish_login, verify_login,
}
use pocket_oid.AdminConsole.Replies.{error_response, cookie}
use pocket_oid.Admins.{AdminRecord, AdminRow, authenticate, select, has_username, is_enabled}
use pocket_oid.Admins.Names.{ok, err, AdminResult}
use pocket_oid.Admins.Passwords.{authenticate_iff}
use pocket_oid.Admins.Table.{IsTable, IsApart}
use pocket_oid.Base.{
  ℕ, ◌+◌, ◌*◌, ◌<◌, ◌≡◌, refl, ap, sym, subst, ◌∙◌, ◌≢◌, Bool, true, false, List, [], ◌∷◌, Option,
  none, some, arith, All,
}
use pocket_oid.HashMap.{HashMap, get, insert, retain, IsUnique}
use pocket_oid.HashMap.Laws.{
  get-insert, get-remove, get-retain, retain-IsUnique, insert-IsUnique, remove-IsUnique,
}
use pocket_oid.Outside.{Argon2, nanos}
use pocket_oid.Text.{Text, text_eq, text_beq_iff}

apart-id :
    (p : AdminRow → Bool) (s : AdminRow) (rs : List AdminRow) (r : AdminRow)
    → All (IsApart s) rs
    → select p rs ≡ some r
    → s.id ≢ r.id
unfolding select
apart-id p s [] r h found = λ e. cc
apart-id p s (q ∷ rs) r (h, hs) found = ground (arith, apart-id p s rs r hs)

-- The row of a name is, if it is enabled, the enabled row of its identifier.
named-enabled :
    (p : AdminRow → Bool) (rs : List AdminRow) (r : AdminRow)
    → IsTable rs
    → select p rs ≡ some r
    → r.enabled ≡ true
    → select (is_enabled r.id) rs ≡ some r
unfolding select
named-enabled p [] r h found on = cc
named-enabled p (s ∷ rs) r (row, apart, h) found on =
    ground (arith, named-enabled p rs r h, apart-id p s rs r apart, text_beq_iff s.id r.id)

get-drop_session :
    (k : Text) (headers : Option Text) (m : HashMap Session)
    → headers ≢ some k
    → get k (drop_session headers m) ≡ get k m
unfolding drop_session
get-drop_session k none m other = refl
get-drop_session k (some old) m other = ground (arith, get-remove old k m, text_beq_iff old k)

drop_session-IsUnique :
    (headers : Option Text) (m : HashMap Session) → IsUnique m → IsUnique (drop_session headers m)
unfolding drop_session
drop_session-IsUnique none m u = u
drop_session-IsUnique (some old) m u = remove-IsUnique old m u

error_response_status : error_response.status ≡ 503
unfolding error_response
error_response_status = refl

-- What a sign-in leaves: the new session under its token, in sessions whose keys stay unique.
IsSignedIn : ℕ → Tokens → AdminRecord → AdminConsole → AdminConsole → Type 0
IsSignedIn now t admin before after =
    (get t.token after.sessions ≡ some (session_of now t.csrf (some admin)))
    × (IsUnique before.sessions → IsUnique after.sessions)
    × (after.store ≡ before.store)

-- The session of an administrator who has just been authenticated lets them in.
authenticate-IsCurrent :
    (argon2 : Argon2) (queries : Bool) (dummy name password : Text) (store : AdminStore) (now : ℕ)
    (csrf : Text) (admin : AdminRecord)
    → IsTable store.rows
    → authenticate argon2 queries dummy name password store.rows ≡ ok (some admin)
    → IsCurrent (some store) (session_of now csrf (some admin)) admin
unfolding authenticate
authenticate-IsCurrent argon2 false dummy name password store now csrf admin h good =
    absurd (ground arith)
authenticate-IsCurrent argon2 true dummy name password store now csrf admin h good =
    let (r, found, on, _, _, made) =
      (authenticate_iff argon2 dummy name password store.rows admin).0 good in
    let id : admin.id ≡ r.id = ap (λ (a : AdminRecord). a.id) made in
    let version : admin.credential_version ≡ r.credential_version =
      ap (λ (a : AdminRecord). a.credential_version) made in
    (
      r.id,
      r,
      ap some id,
      named-enabled (has_username name) store.rows r h found on,
      ap some version,
      made,
    )

-- Requests of anyone that are only checked, one after the other, as those for the pages are.
unfoldable pub after_visits : List Visit → AdminConsole → AdminConsole
after_visits [] console = console
after_visits (visit ∷ visits) console = after_visits visits (authorized visit console).0

find_session-get :
    (now : ℕ) (presented : Option Text) (token : Text) (s : Session) (m : HashMap Session)
    → IsUnique m
    → now < s.expires
    → get token m ≡ some s
    → (get token (find_session now presented m).0 ≡ some s)
      × IsUnique (find_session now presented m).0
unfolding find_session
find_session-get now none token s m u soon h = (h, u)
find_session-get now (some other) token s m u soon h =
    (ground (arith, get-retain (is_live now) token m u), retain-IsUnique (is_live now) m u)

authorized-get :
    (visit : Visit) (token : Text) (s : Session) (console : AdminConsole)
    → IsUnique console.sessions
    → visit.now < s.expires
    → get token console.sessions ≡ some s
    → (get token (authorized visit console).0.sessions ≡ some s)
      × IsUnique (authorized visit console).0.sessions
      × ((authorized visit console).0.store ≡ console.store)
unfolding authorized
authorized-get visit token s console u soon h =
    let (there, unique) =
      find_session-get visit.now (cookie visit.headers) token s console.sessions u soon h in
    (there, unique, refl)

-- Such a request leaves a session that is alive, and the store.
after_visits-get :
    (visits : List Visit) (token : Text) (s : Session) (console : AdminConsole)
    → IsUnique console.sessions
    → All (λ (v : Visit). v.now < s.expires) visits
    → get token console.sessions ≡ some s
    → (get token (after_visits visits console).sessions ≡ some s)
      × IsUnique (after_visits visits console).sessions
      × ((after_visits visits console).store ≡ console.store)
unfolding after_visits
after_visits-get [] token s console u soon h = (h, u, refl)
after_visits-get (v ∷ vs) token s console u (first, soon) h =
    let (there, unique, same) = authorized-get v token s console u first h in
    let (still, unique', same') = after_visits-get vs token s _ unique soon there in
    (still, unique', same' ∙ same)

module _ (is_header_value : Text → Bool) (issuer : Text) where
  sign_in_admin-IsSignedIn :
      (now : ℕ) (t : Tokens) (headers : Option Text) (admin : AdminRecord) (console : AdminConsole)
      → cookie headers ≢ some t.token
      → (sign_in_admin is_header_value issuer now (some t) headers admin console).1.status ≡ 303
      → IsSignedIn now t admin console
          (sign_in_admin is_header_value issuer now (some t) headers admin console).0
  unfolding IsSignedIn sign_in_admin new_session
  sign_in_admin-IsSignedIn now t headers admin console fresh h =
      let s = session_of now t.csrf (some admin) in
      let kept = retain (is_live now) console.sessions in
      ground (
        arith,
        error_response_status,
        get-drop_session t.token (cookie headers) (insert t.token s kept) fresh,
        get-insert t.token t.token s kept,
        text_beq_iff t.token t.token,
        drop_session-IsUnique (cookie headers) (insert t.token s kept),
        insert-IsUnique t.token s kept,
        retain-IsUnique (is_live now) console.sessions,
      )

  answer_login-IsSignedIn :
      (draws : LoginDraws) (t : Tokens) (task : LoginTask)
      (result : AdminResult (Option AdminRecord)) (console : AdminConsole)
      → draws.tokens ≡ some t
      → cookie task.headers ≢ some t.token
      → (answer_login is_header_value issuer draws task result console).1.status ≡ 303
      → (admin : AdminRecord) × (result ≡ ok (some admin))
        × IsSignedIn draws.now t admin console
            (answer_login is_header_value issuer draws task result console).0
  unfolding answer_login
  answer_login-IsSignedIn draws t task (err cause) console drawn fresh h =
      absurd (ground (arith, error_response_status))
  answer_login-IsSignedIn draws t task (ok none) console drawn fresh h = absurd (ground arith)
  answer_login-IsSignedIn draws t task (ok (some admin)) console drawn fresh h = (
    admin,
    refl,
    rw drawn
        (sign_in_admin-IsSignedIn draws.now t task.headers admin console fresh (rw (← drawn) h)),
  )

  -- A sign-in that succeeds is one whose name and password authenticate an administrator. The new
  -- cookie then lets that administrator in at any time within the hour, after any number of requests
  -- within the hour that are only checked, whoever makes them, as long as nothing else happens in
  -- between and the database executes the query. The sessions have unique tokens before, the table
  -- keeps its constraints, and the new token is not the one that the sign-in came with.
  pub finish_login-authorized :
      (argon2 : Argon2) (draws : LoginDraws) (t : Tokens) (task : LoginTask) (store : AdminStore)
      (console : AdminConsole) (visits : List Visit) (visit : Visit)
      → IsUnique console.sessions
      → console.store ≡ some store
      → IsTable store.rows
      → draws.tokens ≡ some t
      → cookie task.headers ≢ some t.token
      → All (λ (v : Visit). v.now < draws.now + 3600 * nanos) visits
      → visit.queries ≡ true
      → cookie visit.headers ≡ some t.token
      → visit.now < draws.now + 3600 * nanos
      → (finish_login is_header_value issuer argon2 draws task console).1.status ≡ 303
      → (admin : AdminRecord) × (authenticate argon2 draws.queries store.dummy_hash task.username
            task.password store.rows
          ≡ ok (some admin))
        × ((authorized visit (
              after_visits visits
                (finish_login is_header_value issuer argon2 draws task console).0)).1
            ≡ granted admin (session_of draws.now t.csrf (some admin)))
  unfolding finish_login IsSignedIn
  finish_login-authorized argon2 draws t task store console visits visit u there h drawn fresh
        before runs named soon answered303 =
      let freed = record console { permits = console.permits + 1 } in
      let (admin, good, (stored, unique, same)) =
        answer_login-IsSignedIn draws t task (verify_login argon2 draws.queries task console.store)
          freed drawn fresh answered303 in
      let verified : verify_login argon2 draws.queries task (some store) ≡ ok (some admin) = cc in
      let s = session_of draws.now t.csrf (some admin) in
      let after = (finish_login is_header_value issuer argon2 draws task console).0 in
      let (still, unique', same') =
        after_visits-get visits t.token s after (unique u) before stored in
      let later = after_visits visits after in
      let current : IsCurrent later.store s admin =
        subst (λ o. IsCurrent o s admin) (sym (same' ∙ (same ∙ there)))
          (authenticate-IsCurrent argon2 draws.queries store.dummy_hash task.username task.password
            store draws.now t.csrf admin h verified) in
      (
        admin,
        verified,
        (authorized_iff visit later admin s unique').1 (runs, t.token, named, still, soon, current),
      )
