-- ===== src/AdminConsole/Admission.antt =====
-- src/admin_console/mod.rs: whose requests are let in, and until when.
use pocket_oid.AdminConsole.{
  AdminConsole, AdminStore, Session, Visit, granted, check_session, check_found, find_session,
  authorized, is_live,
}
use pocket_oid.AdminConsole.Replies.{cookie}
use pocket_oid.Admins.{AdminRecord, AdminRow, enabled_admin, select, is_enabled, admin_from_row}
use pocket_oid.Base.{
  ℕ, ◌<◌, ◌≡◌, refl, ap, sym, ◌≢◌, ◌↔◌, Bool, true, false, Option, none, some, arith, Option-cases,
  inl, inr,
}
use pocket_oid.HashMap.{HashMap, get, IsUnique}
use pocket_oid.HashMap.Laws.{get-retain, filter_iff}
use pocket_oid.Text.{Text, text_eq}

-- A session lets its administrator in: the row is enabled, and has the version of the session.
abbrev pub IsCurrent : Option AdminStore → Session → AdminRecord → Type 0
IsCurrent none s admin = ⊥
IsCurrent (some store) s admin =
    (id : Text) × (r : AdminRow) × (s.admin_id ≡ some id)
    × (select (is_enabled id) store.rows ≡ some r)
    × (s.credential_version ≡ some r.credential_version)
    × (admin ≡ admin_from_row r)

check_row_iff :
    (session : Session) (id : Text) (store : AdminStore) (admin : AdminRecord) (s : Session)
    → session.admin_id ≡ some id
    → (check_session true (some store) session ≡ granted admin s) ↔ (
        (r : AdminRow) × (select (is_enabled id) store.rows ≡ some r)
        × (session.credential_version ≡ some r.credential_version)
        × (admin ≡ admin_from_row r)
        × (s ≡ session))
unfolding check_session enabled_admin
check_row_iff session id store admin s e = elim (Option-cases (select (is_enabled id) store.rows)) [
  | inl f ↦ ((λ h. absurd (ground (arith, e, f, h))), (λ h. absurd (ground (arith, f, h.1))))
  | inr (r, f) ↦ elim (Option-cases session.credential_version) [
    | inl g ↦ ((λ h. absurd (ground (arith, e, f, g, h))), (λ h. absurd (ground (arith, g, h.2))))
    | inr (v, g) ↦ (
      (λ h. (
        r,
        f,
        ground (arith, e, f, g, h),
        ground (arith, e, f, g, h),
        ground (arith, e, f, g, h),
      )),
      (λ (q, found, same, made, kept). ground (arith, e, f, g)),
    )
  ]
]

check_failed :
    (store : Option AdminStore) (session : Session) (admin : AdminRecord) (s : Session)
    → check_session false store session ≢ granted admin s
unfolding check_session enabled_admin
check_failed store session admin s = λ h. ground arith

pub check_session_iff :
    (queries : Bool) (store : Option AdminStore) (session : Session) (admin : AdminRecord)
    (s : Session)
    → (check_session queries store session ≡ granted admin s)
      ↔ ((queries ≡ true) × IsCurrent store session admin × (s ≡ session))
unfolding check_session
check_session_iff false store session admin s =
    ((λ h. absurd (check_failed store session admin s h)), (λ h. cc h.0))
check_session_iff true none session admin s = ((λ h. absurd (ground (arith, h))), (λ h. absurd h.1))
check_session_iff true (some store) session admin s = elim (Option-cases session.admin_id) [
  | inl e ↦ ((λ h. absurd (ground (arith, e, h))), (λ h. cc h.1.2))
  | inr (id, e) ↦
      let (to, from) = check_row_iff session id store admin s e in
      (
        (λ h.
            let (r, found, same, made, kept) = to h in (refl, (id, r, e, found, same, made), kept)),
        (λ (_, (j, r, f, found, same, made), kept).
            let key : j ≡ id = cc in from (r, cc, same, made, kept)),
      )
]

pub found_iff :
    (now : ℕ) (token : Option Text) (sessions : HashMap Session) (s : Session)
    → IsUnique sessions
    → ((find_session now token sessions).1 ≡ some s)
      ↔ ((t : Text) × (token ≡ some t) × (get t sessions ≡ some s) × (now < s.expires))
unfolding find_session
found_iff now none sessions s u = ((λ h. cc), (λ h. cc h.1))
found_iff now (some t) sessions s u =
    let (to, from) = filter_iff (is_live now) (get t sessions) s in
    (
      (λ h.
          let (found, alive) = to (rw (← get-retain (is_live now) t sessions u) h) in
          (t, refl, found, ground arith)),
      (λ (k, e, found, alive).
          rw (get-retain (is_live now) t sessions u) (from (cc, ground arith))),
    )

check_found_iff :
    (queries : Bool) (store : Option AdminStore) (session : Option Session) (admin : AdminRecord)
    (s : Session)
    → (check_found queries store session ≡ granted admin s)
      ↔ ((queries ≡ true) × IsCurrent store s admin × (session ≡ some s))
check_found_iff queries store none admin s = ((λ h. absurd (ground arith)), (λ h. cc h.2))
check_found_iff queries store (some session) admin s =
    let (to, from) = check_session_iff queries store session admin s in
    (
      (λ h. let (runs, current, kept) = to h in (runs, rw kept current, ap some (sym kept))),
      (λ (runs, current, e). let kept : s ≡ session = cc in from (runs, rw (← kept) current, kept)),
    )

-- A request is let in exactly when the database executes its query, its cookie names a session
-- that has not expired, and the session's administrator is enabled and has the credential version
-- that the session was opened with.
pub authorized_iff :
    (visit : Visit) (console : AdminConsole) (admin : AdminRecord) (s : Session)
    → IsUnique console.sessions
    → ((authorized visit console).1 ≡ granted admin s) ↔ (
        (visit.queries ≡ true)
        × (token : Text) × (cookie visit.headers ≡ some token)
        × (get token console.sessions ≡ some s)
        × (visit.now < s.expires)
        × IsCurrent console.store s admin)
unfolding authorized
authorized_iff visit console admin s u =
    let (to, from) =
      check_found_iff visit.queries console.store
        (find_session visit.now (cookie visit.headers) console.sessions).1 admin s in
    let (down, up) = found_iff visit.now (cookie visit.headers) console.sessions s u in
    (
      (λ h.
          let (runs, current, found) = to h in
          let (token, e, stored, alive) = down found in (runs, token, e, stored, alive, current)),
      (λ (runs, token, e, stored, alive, current).
          from (runs, current, up (token, e, stored, alive))),
    )
