-- ===== src/AuthStore/Calls.antt =====
-- The store's operations as data, to speak of sequences of them.
use pocket_oid.Base.{ℕ, ◌<◌, ◌≢◌}
use pocket_oid.Base.Int.{ℤ}
use pocket_oid.AuthStore.{
  NewAuthorizationCode, NewPendingReauthTransaction, NewPendingReauthConsent,
}
use pocket_oid.Text.{Text}

-- A call of an operation: its time, the fresh identifier where it makes one, and its arguments.
pub data Call : Type 0 where
  create_session : ℕ → Text → Text → Text → ℤ → Call
  get_session : ℕ → Text → Call
  issue_authorization_code : ℕ → Text → NewAuthorizationCode → ℤ → Call
  consume_authorization_code : ℕ → Text → Call
  create_pending_reauth : ℕ → NewPendingReauthTransaction → ℤ → Call
  consume_pending_reauth : ℕ → Text → Text → Call
  create_pending_reauth_consent : ℕ → Text → NewPendingReauthConsent → ℤ → Call
  get_pending_reauth_consent : ℕ → Text → Call
  consume_pending_reauth_consent : ℕ → Text → Call

abbrev pub time : Call → ℕ
time (Call.create_session now _ _ _ _) = now
time (Call.get_session now _) = now
time (Call.issue_authorization_code now _ _ _) = now
time (Call.consume_authorization_code now _) = now
time (Call.create_pending_reauth now _ _) = now
time (Call.consume_pending_reauth now _ _) = now
time (Call.create_pending_reauth_consent now _ _ _) = now
time (Call.get_pending_reauth_consent now _) = now
time (Call.consume_pending_reauth_consent now _) = now

-- The call does not issue this code, and the call does not redeem it.
abbrev pub DoesNotIssue : Text → Call → Type 0
DoesNotIssue code (Call.issue_authorization_code _ uuid _ _) = uuid ≢ code
DoesNotIssue code _ = Unit

abbrev pub DoesNotRedeem : Text → Call → Type 0
DoesNotRedeem code (Call.consume_authorization_code _ other) = other ≢ code
DoesNotRedeem code _ = Unit

-- The call happens before the expiry and leaves the code alone.
abbrev pub Spares : Text → ℕ → Call → Type 0
Spares code expiry c = DoesNotIssue code c × DoesNotRedeem code c × (time c < expiry)
