-- ===== src/App/Keys.antt =====
-- src/app.rs: every client has a key to be signed for, and no two keys share an identifier.
use pocket_oid.Base.{
  ◌≡◌, inl, inr, Bool, true, List, [], ◌∷◌, Option, some, arith, All, contains, keep, is_some,
  subst, Option-cases, Bool-cases,
}
use pocket_oid.App.{client_algorithms, used_algorithms, load_keys, load_signing_keys}
use pocket_oid.Config.{
  SigningAlgorithm, rs256, es256, ps256, algorithm_eq, algorithm_beq_iff, Client, ProviderSettings,
}
use pocket_oid.Handlers.State.{KeyMaterial, key_for}
use pocket_oid.Handlers.Token.{unwrap_or}
use pocket_oid.HashMap.{HashMap, values}
use pocket_oid.Text.{Text, text_eq}

-- The algorithm that a client's tokens are signed with.
abbrev pub algorithm_of : ProviderSettings → Client → SigningAlgorithm
algorithm_of provider client = unwrap_or client.signing_algorithm provider.signing_algorithm

keep-contains :
    (p : SigningAlgorithm → Bool) (a : SigningAlgorithm)
    → p a ≡ true
    → contains (keep p (rs256 ∷ es256 ∷ ps256 ∷ [])) a ≡ true
keep-contains p rs256 h = ground arith
keep-contains p es256 h = ground arith
keep-contains p ps256 h = ground arith

-- Every client's algorithm is in a set that has the provider's and those of all clients.
used-All :
    (provider : ProviderSettings) (wanted : List SigningAlgorithm) (clients : List Client)
    → contains wanted provider.signing_algorithm ≡ true
    → ((a : SigningAlgorithm)
        → contains (client_algorithms clients) a ≡ true
        → contains wanted a ≡ true)
    → All (λ c. contains wanted (algorithm_of provider c) ≡ true) clients
unfolding client_algorithms
used-All provider wanted [] own others = tt
used-All provider wanted (c ∷ cs) own others = elim (Option-cases c.signing_algorithm) [
  | inl e ↦ (
    rw e own,
    used-All provider wanted cs own (λ (a : SigningAlgorithm).
        λ (h : contains (client_algorithms cs) a ≡ true). others a (rw (e, client_algorithms) h)),
  )
  | inr (b, e) ↦ (
    rw e (others b (rw (e, client_algorithms) (ground (arith, algorithm_beq_iff b b)))),
    used-All provider wanted cs own (λ (a : SigningAlgorithm).
        λ (h : contains (client_algorithms cs) a ≡ true).
          others a (rw (e, client_algorithms) (ground arith))),
  )
]

All-implies :
    {A : Type 0} (P Q : A → Type 0) (xs : List A) → ((a : A) → P a → Q a) → All P xs → All Q xs
All-implies P Q [] f h = tt
All-implies P Q (x ∷ xs) f (h, hs) = (f x h, All-implies P Q xs f hs)

module _ (load_signing_key : SigningAlgorithm → Option KeyMaterial) where
  found_key :
      (algorithms : List SigningAlgorithm) (b : SigningAlgorithm) (key : KeyMaterial)
      (keys rest : List (SigningAlgorithm × KeyMaterial)) (a : SigningAlgorithm)
      → some ((b, key) ∷ rest) ≡ some keys
      → contains (b ∷ algorithms) a ≡ true
      → (contains algorithms a ≡ true → is_some (key_for a rest) ≡ true)
      → is_some (key_for a keys) ≡ true
  unfolding key_for
  found_key algorithms b key keys rest a made found deeper =
      let same : (b, key) ∷ rest ≡ keys = cc made in
      subst (λ (l : List (SigningAlgorithm × KeyMaterial)). is_some (key_for a l) ≡ true) same
        (ground (arith, deeper))

  key_for-load_keys :
      (algorithms : List SigningAlgorithm) (key_ids : List Text)
      (keys : List (SigningAlgorithm × KeyMaterial)) (a : SigningAlgorithm)
      → load_keys load_signing_key algorithms key_ids ≡ some keys
      → contains algorithms a ≡ true
      → is_some (key_for a keys) ≡ true
  unfolding load_keys key_for
  key_for-load_keys [] key_ids keys a h found = cc
  key_for-load_keys (b ∷ algorithms) key_ids keys a h found =
      elim (Option-cases (load_signing_key b)) [
        | inl e ↦ cc (rw (e, load_keys) at h)
        | inr (key, e) ↦ elim (Bool-cases (contains key_ids key.kid)) [
          | inl f ↦ cc (rw (e, load_keys, f) at h)
          | inr f ↦
              elim (Option-cases (load_keys load_signing_key algorithms (key.kid ∷ key_ids))) [
                | inl g ↦ cc (rw (e, load_keys, f, g) at h)
                | inr (rest, g) ↦
                    let made : some ((b, key) ∷ rest) ≡ some keys = rw (e, load_keys, f, g) at h in
                    let deeper = key_for-load_keys algorithms (key.kid ∷ key_ids) rest a g in
                    found_key algorithms b key keys rest a made found deeper
              ]
        ]
      ]

  -- Every client can be signed for: if the signing keys are loaded, then for each registered client
  -- there is a key of its own algorithm, or of the provider's if it names none.
  pub load_signing_keys-All :
      (provider : ProviderSettings) (clients : HashMap Client)
      (keys : List (SigningAlgorithm × KeyMaterial))
      → load_signing_keys load_signing_key provider clients ≡ some keys
      → All (λ c. is_some (key_for (algorithm_of provider c) keys) ≡ true) (values clients)
  unfolding load_signing_keys used_algorithms
  load_signing_keys-All provider clients keys h =
      let wanted = provider.signing_algorithm ∷ client_algorithms (values clients) in
      All-implies (λ c. contains wanted (algorithm_of provider c) ≡ true)
        (λ c. is_some (key_for (algorithm_of provider c) keys) ≡ true) (values clients)
        (λ (c : Client). λ (e : contains wanted (algorithm_of provider c) ≡ true).
          key_for-load_keys (used_algorithms provider (values clients)) [] keys
            (algorithm_of provider c) h
            (keep-contains (contains wanted) (algorithm_of provider c) e))
        (used-All provider wanted (values clients)
          (ground (arith, algorithm_beq_iff provider.signing_algorithm provider.signing_algorithm))
          (λ (a : SigningAlgorithm).
            λ (e : contains (client_algorithms (values clients)) a ≡ true). ground arith))
