-- ===== src/AdminConsole/Bounds.antt =====
-- src/admin_console/mod.rs: how large the console's state becomes, and how many tasks run at once.
use pocket_oid.AdminConsole.{AdminConsole, AdminStore, Tokens, Visit, load}
use pocket_oid.AdminConsole.Account.{ChangeTask, begin_change, finish_change, change_in_store}
use pocket_oid.AdminConsole.Login.{
  LoginTask, LoginDraws, Begun, answered, pending, login_page, begin_login, finish_login,
}
use pocket_oid.AdminConsole.Runs.{System, Event, step, run, take_out, also, start}
use pocket_oid.Admins.{ChangeDraws}
use pocket_oid.Base.{
  ℕ, zero, suc, ◌+◌, ◌≡◌, Bool, List, [], ◌∷◌, Option, some, Option-cases, inl, inr, arith, length,
}
use pocket_oid.Outside.{Crypto, Argon2}
use pocket_oid.Text.{Text}
use pocket_oid.AdminConsole.Caps.{
  IsCapped, count, authorized-IsCapped, logout-IsCapped, answer_change-IsCapped,
  answer_login-IsCapped, begin_login-IsCapped, begin_change-IsCapped, login_page_for-IsCapped,
}

-- A task that ends gives its permit back.
freed :
    {n : ℕ} {console : AdminConsole} {store : Option AdminStore}
    → IsCapped (suc n) console
    → IsCapped n (record console { store = store; permits = console.permits + 1 })
freed h = record {
  sessions = h.sessions;
  attempts = h.attempts;
  permits = omega (arith, h.permits);
}

finish_login-IsCapped :
    (is_header_value : Text → Bool) (issuer : Text) (argon2 : Argon2) (draws : LoginDraws)
    (task : LoginTask) (n : ℕ) (console : AdminConsole)
    → IsCapped (suc n) console
    → IsCapped n (finish_login is_header_value issuer argon2 draws task console).0
unfolding finish_login
finish_login-IsCapped is_header_value issuer argon2 draws task n console h =
    answer_login-IsCapped n (record console { permits = console.permits + 1 }) (freed h)
      is_header_value issuer draws task _

finish_change-IsCapped :
    (is_header_value : Text → Bool) (issuer : Text) (argon2 : Argon2) (draws : ChangeDraws)
    (task : ChangeTask) (n : ℕ) (console : AdminConsole)
    → IsCapped (suc n) console
    → IsCapped n (finish_change is_header_value issuer argon2 draws task console).0
unfolding finish_change
finish_change-IsCapped is_header_value issuer argon2 draws task n console h =
    let made = change_in_store argon2 draws task console.store in
    answer_change-IsCapped n (record console { store = made.0; permits = console.permits + 1 })
      (freed h) is_header_value issuer task made.1

abbrev pub IsBounded : System → Type 0
IsBounded s = IsCapped (length s.logins + length s.changes) s.console

IsCapped-cast : {m n : ℕ} {console : AdminConsole} → m ≡ n → IsCapped m console → IsCapped n console
IsCapped-cast e h = rw (← e) h

login_page-IsCapped :
    (n : ℕ) (console : AdminConsole) (h : IsCapped n console) (is_header_value : Text → Bool)
    (issuer : Text) (visit : Visit) (again later : ℕ) (tokens : Option Tokens)
    (password_changed : Option Text)
    → IsCapped n
        (login_page is_header_value issuer visit again later tokens password_changed console).0
unfolding login_page
login_page-IsCapped n console h is_header_value issuer visit again later tokens password_changed =
    login_page_for-IsCapped n _ (authorized-IsCapped n console h visit) is_header_value issuer _
      again later visit.headers tokens password_changed

take_out-length :
    {T : Type 0} (n : ℕ) (ts : List T) (t : T) (rest : List T)
    → take_out n ts ≡ some (t, rest)
    → length ts ≡ suc (length rest)
unfolding take_out
take_out-length n [] t rest h = cc
take_out-length zero (u ∷ us) t rest h = ground arith
take_out-length (suc n) (u ∷ us) t rest h = elim (Option-cases (take_out n us)) [
  | inl e ↦ ground (arith, e)
  | inr ((v, vs), e) ↦ ground (arith, e, take_out-length n us v vs e)
]

also-length :
    {T : Type 0} (begun : Begun T) (ts : List T) → length (also begun ts) ≡ count begun + length ts
also-length (answered reply) ts = omega arith
also-length (pending task) ts = omega arith

module _ (is_header_value : Text → Bool) (issuer : Text) (crypto : Crypto) (argon2 : Argon2) where
  step-IsBounded :
      (e : Event) (s : System)
      → IsBounded s
      → IsBounded (step is_header_value issuer crypto argon2 e s)
  unfolding step
  step-IsBounded (Event.visits visit) s h = authorized-IsCapped _ s.console h visit
  step-IsBounded (Event.opens_login visit again later tokens notice) s h =
      login_page-IsCapped _ s.console h is_header_value issuer visit again later tokens notice
  step-IsBounded (Event.begins_login now at headers form) s h =
      let begun = begin_login crypto now at headers form s.console in
      IsCapped-cast (omega (arith, also-length begun.1 s.logins))
        (begin_login-IsCapped _ s.console h crypto now at headers form)
  step-IsBounded (Event.finishes_login n draws) s h = elim (Option-cases (take_out n s.logins)) [
    | inl e ↦ rw (e, step) h
    | inr ((task, rest), e) ↦
        rw (e, step)
          (finish_login-IsCapped is_header_value issuer argon2 draws task
            (length rest + length s.changes) s.console
            (IsCapped-cast (omega (arith, take_out-length n s.logins task rest e)) h))
  ]
  step-IsBounded (Event.begins_change visit at form) s h =
      let begun = begin_change crypto visit at form s.console in
      IsCapped-cast (omega (arith, also-length begun.1 s.changes))
        (begin_change-IsCapped _ s.console h crypto visit at form)
  step-IsBounded (Event.finishes_change n draws) s h = elim (Option-cases (take_out n s.changes)) [
    | inl e ↦ rw (e, step) h
    | inr ((task, rest), e) ↦
        rw (e, step)
          (finish_change-IsCapped is_header_value issuer argon2 draws task
            (length s.logins + length rest) s.console
            (IsCapped-cast (omega (arith, take_out-length n s.changes task rest e)) h))
  ]
  step-IsBounded (Event.logs_out now headers csrf) s h =
      logout-IsCapped _ s.console h is_header_value issuer crypto now headers csrf

  run-IsBounded :
      (es : List Event) (s : System)
      → IsBounded s
      → IsBounded (run is_header_value issuer crypto argon2 es s)
  unfolding run
  run-IsBounded [] s h = h
  run-IsBounded (e ∷ es) s h =
      run-IsBounded es (step is_header_value issuer crypto argon2 e s) (step-IsBounded e s h)

  -- In every run of the console from its start there are at most 4096 sessions and at most 30
  -- attempts kept, and the permits that are left and the tasks that hold one are always 2 together.
  pub start-IsBounded :
      (store : Option AdminStore) (es : List Event)
      → IsBounded (run is_header_value issuer crypto argon2 es (start store))
  unfolding start load
  start-IsBounded store es =
      run-IsBounded es (start store)
        (record { sessions = omega arith; attempts = omega arith; permits = omega arith })
