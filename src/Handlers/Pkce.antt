-- ===== src/Handlers/Pkce.antt =====
-- src/handlers.rs: `constant_time_eq`, `authenticate_client` and `verify_pkce`.
use pocket_oid.Base.{
  ◌≡◌, refl, ap, ◌↔◌, Bool, true, false, not, Option, none, some, arith, ◌==◌, if◌then◌else◌,
  nat_beq, nat_beq_iff,
}
use pocket_oid.Config.{Client}
use pocket_oid.Handlers.Messages.{
  pkce_required, code_verifier_required, unsupported_method, pkce_failed,
}
use pocket_oid.HashMap.{HashMap, get}
use pocket_oid.Http.{
  ApiError, invalid_client, invalid_grant, invalid_request, ApiResult, ok, err, ◌>>=◌, required,
}
use pocket_oid.Outside.{Crypto}
use pocket_oid.Text.{Text, text_eq, codes}
use pocket_oid.Text.Bytes.{as_bytes, len, as_bytes-inj}

module _ (crypto : Crypto) where
  unfoldable pub constant_time_eq : Text → Text → Bool
  constant_time_eq left right =
      if not (nat_beq (len left) (len right))
      then false
      else crypto.ct_eq (as_bytes left) (as_bytes right)

  -- The comparison decides equality of the texts.
  pub constant_time_eq_iff :
      (left right : Text) → (constant_time_eq left right ≡ true) ↔ (left ≡ right)
  unfolding constant_time_eq
  constant_time_eq_iff left right =
      ((λ h. as_bytes-inj left right ((crypto.ct_eq_iff _ _).0 (ground arith))), equal)
    where
      equal : left ≡ right → constant_time_eq left right ≡ true
      equal e =
          let bytes = (crypto.ct_eq_iff (as_bytes left) (as_bytes right)).1 (ap as_bytes e) in
          let size = (nat_beq_iff (len left) (len right)).1 (ap len e) in rw (size, bytes)

  unfoldable pub authenticate_client : HashMap Client → Text → Text → ApiResult Client
  authenticate_client clients client_id secret = elim (get client_id clients) [
    | none ↦ err invalid_client
    | some client ↦
        if constant_time_eq client.client_secret secret then ok client else err invalid_client
  ]

  -- A client is authenticated exactly when it is registered and the secret is its own.
  pub authenticate_client_iff :
      (clients : HashMap Client) (client_id secret : Text) (client : Client)
      → (authenticate_client clients client_id secret ≡ ok client)
        ↔ ((get client_id clients ≡ some client) × (client.client_secret ≡ secret))
  unfolding authenticate_client
  authenticate_client_iff clients client_id secret client =
      ground (arith, constant_time_eq_iff client.client_secret secret)

  -- Both failures of the authentication are answered alike.
  pub authenticate_client-err :
      (clients : HashMap Client) (client_id secret : Text) (e : ApiError)
      → authenticate_client clients client_id secret ≡ err e
      → e ≡ invalid_client
  unfolding authenticate_client
  authenticate_client-err clients client_id secret e h = ground arith

  -- `computed`, by the method: `none` for an unsupported one.
  unfoldable pub transform : Text → Text → Option Text
  transform method verifier =
      if method == codes "plain"
      then some verifier
      else if method == codes "S256"
      then some (crypto.base64url (crypto.digest (as_bytes verifier)))
      else none

  -- `code_challenge_method.as_deref().unwrap_or("plain")`.
  abbrev pub method_or_plain : Option Text → Text
  method_or_plain none = codes "plain"
  method_or_plain (some method) = method

  compare_pkce : Text → Option Text → ApiResult (Unit {0})
  compare_pkce expected none = err (invalid_grant unsupported_method)
  compare_pkce expected (some computed) =
      if constant_time_eq expected computed then ok tt else err (invalid_grant pkce_failed)

  unfoldable pub verify_pkce :
      Client → Option Text → Option Text → Option Text → ApiResult (Unit {0})
  unfolding compare_pkce
  verify_pkce client none method verifier =
      if client.require_pkce then err (invalid_grant pkce_required) else ok tt
  verify_pkce client (some expected) method verifier = do
    v ← required verifier (invalid_request code_verifier_required)
    compare_pkce expected (transform (method_or_plain method) v)

  -- What the exchange of a code for a token must show: nothing, where no challenge was made and
  -- none is required, or a verifier from which the challenge is computed by the method.
  pub data IsProved (client : Client) (challenge method verifier : Option Text) : Type 0 where
    unchallenged :
        challenge ≡ none → client.require_pkce ≡ false → IsProved client challenge method verifier
    verified :
        (expected v : Text)
        → challenge ≡ some expected
        → verifier ≡ some v
        → transform (method_or_plain method) v ≡ some expected
        → IsProved client challenge method verifier

  compare_pkce_iff :
      (expected : Text) (o : Option Text) → (compare_pkce expected o ≡ ok tt) ↔ (o ≡ some expected)
  unfolding compare_pkce
  compare_pkce_iff expected none = ((λ h. cc), (λ h. cc))
  compare_pkce_iff expected (some computed) = ground (arith, constant_time_eq_iff expected computed)

  verify_pkce-IsProved :
      (client : Client) (challenge method verifier : Option Text)
      → verify_pkce client challenge method verifier ≡ ok tt
      → IsProved client challenge method verifier
  unfolding verify_pkce
  verify_pkce-IsProved client none method verifier h = unchallenged refl (ground arith)
  verify_pkce-IsProved client (some expected) method none h = cc
  verify_pkce-IsProved client (some expected) method (some v) h =
      verified expected v refl refl
        ((compare_pkce_iff expected (transform (method_or_plain method) v)).0 h)

  IsProved-verify_pkce :
      (client : Client) (challenge method verifier : Option Text)
      → IsProved client challenge method verifier
      → verify_pkce client challenge method verifier ≡ ok tt
  unfolding verify_pkce
  IsProved-verify_pkce client challenge method verifier (unchallenged e free) =
      rw (e, free, verify_pkce)
  IsProved-verify_pkce client challenge method verifier (verified expected v e f made) =
      rw (e, f, verify_pkce)
        ((compare_pkce_iff expected (transform (method_or_plain method) v)).1 made)

  -- The check passes exactly when possession of the verifier is proved, or no proof is needed.
  pub verify_pkce_iff :
      (client : Client) (challenge method verifier : Option Text)
      → (verify_pkce client challenge method verifier ≡ ok tt)
        ↔ IsProved client challenge method verifier
  verify_pkce_iff client challenge method verifier = (
    verify_pkce-IsProved client challenge method verifier,
    IsProved-verify_pkce client challenge method verifier,
  )
