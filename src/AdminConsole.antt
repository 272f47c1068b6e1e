-- ===== src/AdminConsole.antt =====
-- src/admin_console/mod.rs: the console's state, its sessions, the limit on attempts and the check of
-- a request's session. Each access to the sessions or to the attempts holds their lock, so it is one
-- step, at one time; a lock that a panic has poisoned is not considered. Times are nanoseconds.
pub mod Replies
pub mod Login
pub mod Account
pub mod Runs
pub mod Caps
pub mod Bounds
pub mod Admission
pub mod Revocation
pub mod Attempt
pub mod SignIn
pub mod Attempts
pub mod Summary
pub mod Selection
pub mod Tables
pub mod Shown
pub mod Browse
pub mod Pages
pub mod SignOut
use pocket_oid.Admins.{AdminRecord, AdminRow, enabled_admin}
use pocket_oid.Admins.Names.{ok, err}
use pocket_oid.AdminConsole.Replies.{Reply, redirect_to, error_response, cookie}
use pocket_oid.Base.{
  ℕ, ◌+◌, ◌-◌, ◌*◌, Bool, true, false, List, [], ◌∷◌, ◌++◌, Option, none, some, ltb, leb, nat_beq,
  if◌then◌else◌, keep, length,
}
use pocket_oid.HashMap.{HashMap, get, insert, retain}
use pocket_oid.Outside.{nanos}
use pocket_oid.Text.{Text, codes}

pub record Session : Type 0 where
  pub csrf : Text
  pub admin_id : Option Text
  pub credential_version : Option ℕ
  pub expires : ℕ

-- `AdminStore`: the table behind its connection, and the dummy hash.
pub record AdminStore : Type 0 where
  pub rows : List AdminRow
  pub dummy_hash : Text

-- `permits` are those left of the semaphore.
pub record AdminConsole : Type 0 where
  pub store : Option AdminStore
  pub sessions : HashMap Session
  pub attempts : List ℕ
  pub permits : ℕ

-- `AdminConsole::load`, from the store that is there.
unfoldable pub load : Option AdminStore → AdminConsole
load store = record { store = store; sessions = []; attempts = []; permits = 2 }

abbrev pub is_live : ℕ → Session → Bool
is_live now s = ltb now s.expires

-- `session`: without a cookie the sessions are not touched.
unfoldable pub find_session : ℕ → Option Text → HashMap Session → HashMap Session × Option Session
find_session now none sessions = (sessions, none)
find_session now (some token) sessions =
    let kept = retain (is_live now) sessions in (kept, get token kept)

-- The two random texts of a session.
pub record Tokens : Type 0 where
  pub token : Text
  pub csrf : Text

abbrev pub ttl_of : Option AdminRecord → ℕ
ttl_of none = 600 * nanos
ttl_of (some admin) = 3600 * nanos

abbrev pub id_of : Option AdminRecord → Option Text
id_of none = none
id_of (some admin) = some admin.id

abbrev pub version_of : Option AdminRecord → Option ℕ
version_of none = none
version_of (some admin) = some admin.credential_version

abbrev pub session_of : ℕ → Text → Option AdminRecord → Session
session_of now csrf admin = record {
  csrf = csrf;
  admin_id = id_of admin;
  credential_version = version_of admin;
  expires = now + ttl_of admin;
}

-- No tokens where no random number is to be had, and none in the answer for an error.
unfoldable pub new_session :
    ℕ → Option Tokens → Option AdminRecord → HashMap Session → HashMap Session × Option Tokens
new_session now none admin sessions = (sessions, none)
new_session now (some tokens) admin sessions =
    let kept = retain (is_live now) sessions in
    if ltb (length kept) 4096
    then (insert tokens.token (session_of now tokens.csrf admin) kept, some tokens)
    else (kept, none)

-- `at.elapsed() < 60 s`; the time elapsed since a later time is 0.
abbrev pub is_recent : ℕ → ℕ → Bool
is_recent now at = ltb (now - at) (60 * nanos)

-- The attempts of the last minute, and whether one more is allowed, which is then counted.
unfoldable pub admit : ℕ → List ℕ → List ℕ × Bool
admit now attempts =
    let recent = keep (is_recent now) attempts in
    if leb 30 (length recent) then (recent, false) else (recent ++ (now ∷ []), true)

pub data AccessError : Type 0 where
  sign_in unavailable : AccessError

unfoldable pub denied_reply : AccessError → Reply
denied_reply sign_in = redirect_to (codes "/admin/login")
denied_reply unavailable = error_response

pub data Access : Type 0 where
  granted : AdminRecord → Session → Access
  denied : AccessError → Access

abbrev pub same_version : Option ℕ → ℕ → Bool
same_version none v = false
same_version (some w) v = nat_beq w v

-- The check of a session against the store; the query may fail.
unfoldable pub check_session : Bool → Option AdminStore → Session → Access
check_session queries store session = elim session.admin_id [
  | none ↦ denied sign_in
  | some id ↦ elim store [
    | none ↦ denied unavailable
    | some store ↦ elim (enabled_admin queries id store.rows) [
      | err cause ↦ denied unavailable
      | ok none ↦ denied sign_in
      | ok (some admin) ↦
          if same_version session.credential_version admin.credential_version
          then granted admin session
          else denied sign_in
    ]
  ]
]

abbrev pub check_found : Bool → Option AdminStore → Option Session → Access
check_found queries store none = denied sign_in
check_found queries store (some session) = check_session queries store session

-- A request: its time, its cookies, and whether the database executes its query.
pub record Visit : Type 0 where
  pub now : ℕ
  pub headers : Option Text
  pub queries : Bool

unfoldable pub authorized : Visit → AdminConsole → AdminConsole × Access
unfolding check_session
authorized visit console =
    let (sessions, session) = find_session visit.now (cookie visit.headers) console.sessions in
    (record console { sessions = sessions }, check_found visit.queries console.store session)
