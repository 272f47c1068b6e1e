-- ===== src/AdminConsole/Runs.antt =====
-- src/admin_console/mod.rs: the requests and the tasks of the console in any order.
use pocket_oid.AdminConsole.{AdminConsole, AdminStore, Tokens, Visit, load, authorized}
use pocket_oid.AdminConsole.Account.{PasswordForm, ChangeTask, begin_change, finish_change}
use pocket_oid.AdminConsole.Login.{
  LoginForm, LoginTask, LoginDraws, Begun, answered, pending, login_page, begin_login, finish_login,
  logout,
}
use pocket_oid.Admins.{ChangeDraws}
use pocket_oid.Base.{ℕ, zero, suc, Bool, List, [], ◌∷◌, Option, none, some}
use pocket_oid.Outside.{Crypto, Argon2}
use pocket_oid.Text.{Text}

-- The console, with the tasks that hold a permit.
pub record System : Type 0 where
  pub console : AdminConsole
  pub logins : List LoginTask
  pub changes : List ChangeTask

pub data Event : Type 0 where
  -- A page that only checks the session.
  visits : Visit → Event
  opens_login : Visit → ℕ → ℕ → Option Tokens → Option Text → Event
  begins_login : ℕ → ℕ → Option Text → LoginForm → Event
  finishes_login : ℕ → LoginDraws → Event
  begins_change : Visit → ℕ → PasswordForm → Event
  finishes_change : ℕ → ChangeDraws → Event
  logs_out : ℕ → Option Text → Text → Event

-- A task, wherever it stands.
unfoldable pub take_out {ℓ} : {T : Type ℓ} → ℕ → List T → Option (T × List T)
take_out n [] = none
take_out zero (t ∷ ts) = some (t, ts)
take_out (suc n) (t ∷ ts) = elim (take_out n ts) [ none ↦ none | some (u, us) ↦ some (u, t ∷ us) ]

abbrev pub also {ℓ} : {T : Type ℓ} → Begun T → List T → List T
also (answered reply) tasks = tasks
also (pending task) tasks = task ∷ tasks

module _ (is_header_value : Text → Bool) (issuer : Text) (crypto : Crypto) (argon2 : Argon2) where
  unfoldable pub step : Event → System → System
  unfolding take_out
  step (visits visit) s = record s { console = (authorized visit s.console).0 }
  step (opens_login visit again later tokens password_changed) s = record s {
    console =
        (login_page is_header_value issuer visit again later tokens password_changed s.console).0;
  }
  step (begins_login now at headers form) s =
      let (after, begun) = begin_login crypto now at headers form s.console in
      record s { console = after; logins = also begun s.logins }
  step (finishes_login n draws) s = elim (take_out n s.logins) [
    | none ↦ s
    | some (task, rest) ↦ record s {
      console = (finish_login is_header_value issuer argon2 draws task s.console).0;
      logins = rest;
    }
  ]
  step (begins_change visit at form) s =
      let (after, begun) = begin_change crypto visit at form s.console in
      record s { console = after; changes = also begun s.changes }
  step (finishes_change n draws) s = elim (take_out n s.changes) [
    | none ↦ s
    | some (task, rest) ↦ record s {
      console = (finish_change is_header_value issuer argon2 draws task s.console).0;
      changes = rest;
    }
  ]
  step (logs_out now headers csrf) s = record s {
    console = (logout is_header_value issuer crypto now headers csrf s.console).0;
  }

  unfoldable pub run : List Event → System → System
  unfolding step
  run [] s = s
  run (e ∷ es) s = run es (step e s)

unfoldable pub start : Option AdminStore → System
start store = record { console = load store; logins = []; changes = [] }
