-- ===== src/AuthStore/Runs.antt =====
-- Runs of the store: any sequence of its operations, as concurrent requests interleave them.
use pocket_oid.Base.{
  All, ℕ, ◌<◌, ◌+◌, ◌*◌, ◌≡◌, List, [], ◌∷◌, none, some, arith, ltb, Option-cases, inl, inr,
}
use pocket_oid.Base.Int.{pos}
use pocket_oid.AuthStore.{
  code_record, AuthorizationCodeRecord, NewAuthorizationCode, AuthStore, create_session,
  issue_authorization_code, create_pending_reauth, create_pending_reauth_consent, get_session,
  consume_authorization_code, consume_pending_reauth, get_pending_reauth_consent,
  consume_pending_reauth_consent,
}
use pocket_oid.AuthStore.Calls.{Call, time, DoesNotIssue, DoesNotRedeem, Spares}
use pocket_oid.AuthStore.Invariant.{
  IsWellFormed, create_session-IsWellFormed, issue_authorization_code-IsWellFormed,
  create_pending_reauth_consent-IsWellFormed, create_pending_reauth-IsWellFormed,
  get_session-IsWellFormed, consume_authorization_code-IsWellFormed,
  get_pending_reauth_consent-IsWellFormed, consume_pending_reauth_consent-IsWellFormed,
  consume_pending_reauth-IsWellFormed,
}
use pocket_oid.HashMap.{get}
use pocket_oid.HashMap.Laws.{get-insert, get-remove, get-retain, get-retain_absent}
use pocket_oid.Outside.{Chrono, nanos}
use pocket_oid.Text.{Text, text_eq, text_beq_iff}

module _ (chrono : Chrono) where
  unfoldable pub perform : Call → AuthStore → AuthStore
  perform (Call.create_session now uuid id name ttl) st =
      (create_session chrono now uuid id name ttl st).0
  perform (Call.get_session now id) st = (get_session now id st).0
  perform (Call.issue_authorization_code now uuid payload ttl) st =
      (issue_authorization_code chrono now uuid payload ttl st).0
  perform (Call.consume_authorization_code now code) st = (consume_authorization_code now code st).0
  perform (Call.create_pending_reauth now payload ttl) st =
      (create_pending_reauth chrono now payload ttl st).0
  perform (Call.consume_pending_reauth now state provider) st =
      (consume_pending_reauth now state provider st).0
  perform (Call.create_pending_reauth_consent now uuid payload ttl) st =
      (create_pending_reauth_consent chrono now uuid payload ttl st).0
  perform (Call.get_pending_reauth_consent now id) st = (get_pending_reauth_consent now id st).0
  perform (Call.consume_pending_reauth_consent now id) st =
      (consume_pending_reauth_consent now id st).0

  unfoldable pub run : List Call → AuthStore → AuthStore
  unfolding perform
  run [] st = st
  run (c ∷ cs) st = run cs (perform c st)

  perform-IsWellFormed : (c : Call) {st : AuthStore} → IsWellFormed st → IsWellFormed (perform c st)
  unfolding perform
  perform-IsWellFormed (Call.create_session now uuid id name ttl) h =
      create_session-IsWellFormed chrono now h uuid id name ttl
  perform-IsWellFormed (Call.get_session now id) h = get_session-IsWellFormed now h id
  perform-IsWellFormed (Call.issue_authorization_code now uuid payload ttl) h =
      issue_authorization_code-IsWellFormed chrono now h uuid payload ttl
  perform-IsWellFormed (Call.consume_authorization_code now code) h =
      consume_authorization_code-IsWellFormed now h code
  perform-IsWellFormed (Call.create_pending_reauth now payload ttl) h =
      create_pending_reauth-IsWellFormed chrono now h payload ttl
  perform-IsWellFormed (Call.consume_pending_reauth now state provider) h =
      consume_pending_reauth-IsWellFormed now h state provider
  perform-IsWellFormed (Call.create_pending_reauth_consent now uuid payload ttl) h =
      create_pending_reauth_consent-IsWellFormed chrono now h uuid payload ttl
  perform-IsWellFormed (Call.get_pending_reauth_consent now id) h =
      get_pending_reauth_consent-IsWellFormed now h id
  perform-IsWellFormed (Call.consume_pending_reauth_consent now id) h =
      consume_pending_reauth_consent-IsWellFormed now h id

  -- Every sequence of operations keeps the invariant: in each map a key stands once, over the
  -- entry that carries it.
  pub run-IsWellFormed :
      (cs : List Call) {st : AuthStore} → IsWellFormed st → IsWellFormed (run cs st)
  unfolding run
  run-IsWellFormed [] h = h
  run-IsWellFormed (c ∷ cs) h = run-IsWellFormed cs (perform-IsWellFormed c h)

  -- A code that is not in the store appears only by being issued.
  absent-perform :
      (code : Text) (c : Call) (st : AuthStore)
      → DoesNotIssue code c
      → get code st.auth_codes ≡ none
      → get code (perform c st).auth_codes ≡ none
  unfolding perform create_session get_session create_pending_reauth consume_pending_reauth
      create_pending_reauth_consent get_pending_reauth_consent consume_pending_reauth_consent
      issue_authorization_code consume_authorization_code
  absent-perform code (Call.issue_authorization_code now uuid payload ttl) st other h =
      elim (Option-cases (chrono.checked_add now ttl)) [
        | inl e ↦ rw (e, perform, issue_authorization_code) h
        | inr (at, e) ↦
            rw (e, perform, issue_authorization_code, get-insert)
              (ground (arith, text_beq_iff uuid code))
      ]
  absent-perform code (Call.consume_authorization_code now other) st _ h =
      rw get-remove
        (ground (arith, get-retain_absent (λ r. ltb now r.expires_at) code st.auth_codes h))
  absent-perform code c st _ h = ground arith

  absent-run :
      (code : Text) (cs : List Call) (st : AuthStore)
      → All (DoesNotIssue code) cs
      → get code st.auth_codes ≡ none
      → get code (run cs st).auth_codes ≡ none
  unfolding run
  absent-run code [] st _ h = h
  absent-run code (c ∷ cs) st (other, others) h =
      absent-run code cs (perform c st) others (absent-perform code c st other h)

  -- A code is redeemed at most once: after an attempt to redeem it, whether it succeeded or not,
  -- and after any further operations that do not issue the same code again, an attempt to redeem
  -- it finds nothing.
  pub consume_authorization_code_once :
      (code : Text) (now later : ℕ) (cs : List Call) (st : AuthStore)
      → All (DoesNotIssue code) cs
      → (consume_authorization_code later code
          (run cs (consume_authorization_code now code st).0)).1
        ≡ none
  unfolding consume_authorization_code
  consume_authorization_code_once code now later cs st others =
      let after = (consume_authorization_code now code st).0 in
      let gone : get code after.auth_codes ≡ none =
        rw get-remove (ground (arith, text_beq_iff code code)) in
      get-retain_absent _ code (run cs after).auth_codes (absent-run code cs after others gone)

  -- A live code stays in the store until it is redeemed.
  present-perform :
      (code : Text) (r : AuthorizationCodeRecord) (c : Call) (st : AuthStore)
      → IsWellFormed st
      → DoesNotIssue code c
      → DoesNotRedeem code c
      → time c < r.expires_at
      → get code st.auth_codes ≡ some r
      → get code (perform c st).auth_codes ≡ some r
  unfolding perform create_session get_session create_pending_reauth consume_pending_reauth
      create_pending_reauth_consent get_pending_reauth_consent consume_pending_reauth_consent
      issue_authorization_code consume_authorization_code
  present-perform code r (Call.issue_authorization_code now uuid payload ttl) st w other _ _ h =
      elim (Option-cases (chrono.checked_add now ttl)) [
        | inl e ↦ rw (e, perform, issue_authorization_code) h
        | inr (at, e) ↦
            rw (e, perform, issue_authorization_code, get-insert)
              (ground (arith, text_beq_iff uuid code))
      ]
  present-perform code r (Call.consume_authorization_code now uuid) st w _ other alive h =
      rw (get-remove, get-retain, w.auth_codes.unique) (ground (arith, text_beq_iff uuid code))
  present-perform code r c st w _ _ _ h = ground arith

  present-run :
      (code : Text) (r : AuthorizationCodeRecord) (cs : List Call) (st : AuthStore)
      → IsWellFormed st
      → All (Spares code r.expires_at) cs
      → get code st.auth_codes ≡ some r
      → get code (run cs st).auth_codes ≡ some r
  unfolding run
  present-run code r [] st w _ h = h
  present-run code r (c ∷ cs) st w ((issues, redeems, early), rest) h =
      present-run code r cs (perform c st) (perform-IsWellFormed c w) rest
        (present-perform code r c st w issues redeems early h)

  issue_effect :
      (now ttl : ℕ) (uuid code : Text) (payload : NewAuthorizationCode) (st : AuthStore)
      → (issue_authorization_code chrono now uuid payload (pos ttl) st).1 ≡ some code
      → get code (issue_authorization_code chrono now uuid payload (pos ttl) st).0.auth_codes
        ≡ some (code_record code payload (now + ttl * nanos))
  unfolding issue_authorization_code
  issue_effect now ttl uuid code payload st issued =
      elim (Option-cases (chrono.checked_add now (pos ttl))) [
        | inl e ↦ cc (rw (e, issue_authorization_code) at issued)
        | inr (at, e) ↦
            let found : some uuid ≡ some code = rw (e, issue_authorization_code) at issued in
            let same : uuid ≡ code = cc found in
            let until = chrono.checked_add_pos now ttl at e in
            rw (e, issue_authorization_code, get-insert)
              (ground (arith, text_beq_iff uuid code, same, until))
      ]

  -- An issued code can be redeemed until its lifetime ends: whatever other operations run in
  -- between, if none of them issues or redeems the same code or happens after its expiry, then an
  -- attempt before the expiry returns the record of what the code was issued for.
  pub issue-consume :
      (now ttl later : ℕ) (uuid code : Text) (payload : NewAuthorizationCode) (cs : List Call)
      (st : AuthStore)
      → IsWellFormed st
      → (issue_authorization_code chrono now uuid payload (pos ttl) st).1 ≡ some code
      → All (Spares code (now + ttl * nanos)) cs
      → later < now + ttl * nanos
      → (consume_authorization_code later code
          (run cs (issue_authorization_code chrono now uuid payload (pos ttl) st).0)).1
        ≡ some (code_record code payload (now + ttl * nanos))
  unfolding consume_authorization_code
  issue-consume now ttl later uuid code payload cs st w issued spared early =
      let made = code_record code payload (now + ttl * nanos) in
      let st' = (issue_authorization_code chrono now uuid payload (pos ttl) st).0 in
      let w' = issue_authorization_code-IsWellFormed chrono now w uuid payload (pos ttl) in
      let effect = issue_effect now ttl uuid code payload st issued in
      let kept = present-run code made cs st' w' spared effect in
      rw (get-retain, (run-IsWellFormed cs w').auth_codes.unique) (ground (arith, kept))
