-- ===== src/Tests/Store.antt =====
-- The store's theorems at one store.
use pocket_oid.Base.{◌≡◌, ◌≢◌, refl, List, [], ◌∷◌, none, some, arith}
use pocket_oid.Base.Int.{pos}
use pocket_oid.AuthStore.{
  AuthContext, ConsumePendingReauth, NewAuthorizationCode, NewPendingReauthTransaction,
  issue_authorization_code, consume_authorization_code, consume_pending_reauth,
}
use pocket_oid.AuthStore.Calls.{Call}
use pocket_oid.AuthStore.Invariant.{IsWellFormed}
use pocket_oid.AuthStore.Laws.{consume_pending_reauth-found_iff}
use pocket_oid.AuthStore.Runs.{run, run-IsWellFormed, consume_authorization_code_once}
use pocket_oid.Config.{ReAuthConsent}
use pocket_oid.Handlers.Issue.{new_code}
use pocket_oid.HashMap.{get}
use pocket_oid.Tests.Data.{chrono, store, transaction, downstream, discovered, differ}
use pocket_oid.Text.{codes, text_beq}

pub store-IsWellFormed : IsWellFormed store
unfolding get
store-IsWellFormed = record {
  sessions = record { unique = (refl, tt); own = (refl, tt) };
  auth_codes = record { unique = (refl, tt); own = (refl, tt) };
  pending_reauth = record { unique = (refl, tt); own = (refl, tt) };
  pending_reauth_consents = record { unique = (refl, tt); own = (refl, tt) };
}

-- The session is read, and the code is redeemed, in between.
abbrev calls : List Call
calls = Call.get_session 3 (codes "q") ∷ Call.consume_authorization_code 4 (codes "z") ∷ []

abbrev payload : NewAuthorizationCode
payload = new_code downstream (codes "m") AuthContext.local

run-IsWellFormed_example : IsWellFormed (run chrono calls store)
run-IsWellFormed_example = run-IsWellFormed chrono calls store-IsWellFormed

consume_authorization_code_once_example :
    (consume_authorization_code 5
      (codes "z")
      (run chrono calls (consume_authorization_code 2 (codes "z") store).0)).1
    ≡ none
consume_authorization_code_once_example =
    consume_authorization_code_once chrono (codes "z") 2 5 calls store (tt, (tt, tt))

other_code : codes "z" ≢ codes "y"
unfolding text_beq
other_code = differ (codes "z") (codes "y") refl

issued : (issue_authorization_code chrono 1 (codes "y") payload (pos 1) store).1 ≡ some (codes "y")
unfolding issue_authorization_code
issued = refl

stored : get (codes "t") store.pending_reauth ≡ some transaction
unfolding get text_beq
stored = refl

other_provider : codes "p" ≢ codes "o"
unfolding text_beq
other_provider = differ (codes "p") (codes "o") refl

found :
    (consume_pending_reauth 2 (codes "t") (codes "p") store).1
    ≡ ConsumePendingReauth.found transaction
found =
    (consume_pending_reauth-found_iff 2 store-IsWellFormed (codes "t") (codes "p") transaction).1
      (stored, omega arith, refl)

abbrev new_transaction : NewPendingReauthTransaction
new_transaction = record {
  downstream = downstream;
  provider_id = codes "o";
  consent = ReAuthConsent.local;
  upstream_state = codes "t";
  upstream_nonce = codes "n";
  pkce_verifier = none;
  provider_metadata = discovered;
}
