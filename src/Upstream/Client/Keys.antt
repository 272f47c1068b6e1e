-- ===== src/Upstream/Client/Keys.antt =====
-- src/upstream.rs: which key of a provider a token is verified with.
use pocket_oid.Base.{
  ◌≡◌, refl, ap, ◌⊎◌, inl, inr, ◌≢◌, Bool, true, false, ◌&&◌, List, [], ◌∷◌, ◌++◌, Option, none,
  some, arith, All, contains, Option-cases, Bool-cases,
}
use pocket_oid.Config.{SigningAlgorithm, rs256, es256, ps256, algorithm_beq, algorithm_beq_iff}
use pocket_oid.Text.{Text, text_eq, text_beq_iff, codes}
use pocket_oid.Upstream.Client.{
  RemoteJwk, DecodingKey, Network, find_key, decoding_key, is_allowed, key_of, is_this,
  is_this_or_none, may_verify, is_coordinate, guard, ◌>>=◌, algorithm_name,
}

pub guard-some :
    {A : Type 0} (b : Bool) (o : Option A) (a : A) → guard b o ≡ some a → (b ≡ true) × (o ≡ some a)
guard-some true o a h = (refl, h)
guard-some false o a h = cc

pub bind-some :
    {A B : Type 0} (o : Option A) (f : A → Option B) (b : B)
    → (o >>= f) ≡ some b
    → (a : A) × (o ≡ some a) × (f a ≡ some b)
bind-some none f b h = cc
bind-some (some a) f b h = (a, refl, h)

-- The algorithm stands in the list.
abbrev pub IsAmong : SigningAlgorithm → List SigningAlgorithm → Type 0
IsAmong alg [] = ⊥
IsAmong alg (a ∷ allowed) = (a ≡ alg) ⊎ IsAmong alg allowed

-- The first of the keys that has the identifier.
pub record IsFirst (kid : Text) (keys : List RemoteJwk) (jwk : RemoteJwk) : Type 0 where
  pub before : List RemoteJwk
  pub after : List RemoteJwk
  pub listed : keys ≡ before ++ (jwk ∷ after)
  pub named : jwk.kid ≡ some kid
  pub others : All (λ (k : RemoteJwk). k.kid ≢ some kid) before

-- The key says nothing against the use, the algorithm, or the verification of signatures.
pub record IsUsable (jwk : RemoteJwk) (name : Text) : Type 0 where
  pub signs : (jwk.key_use ≡ none) ⊎ (jwk.key_use ≡ some (codes "sig"))
  pub alg : (jwk.alg ≡ none) ⊎ (jwk.alg ≡ some name)
  pub ops :
      (jwk.key_ops ≡ none)
      ⊎ ((l : List Text) × (jwk.key_ops ≡ some l) × (contains l (codes "verify") ≡ true))

pub is_allowed-IsAmong :
    (alg : SigningAlgorithm) (allowed : List SigningAlgorithm)
    → is_allowed alg allowed ≡ true
    → IsAmong alg allowed
is_allowed-IsAmong alg [] h = cc
is_allowed-IsAmong alg (a ∷ allowed) h = elim (Bool-cases (algorithm_beq a alg)) [
  | inl e ↦ inl ((algorithm_beq_iff a alg).0 e)
  | inr e ↦ inr (is_allowed-IsAmong alg allowed (ground (arith, e, h)))
]

is_this_iff : (t : Text) (o : Option Text) → is_this t o ≡ true → o ≡ some t
is_this_iff t none h = cc
is_this_iff t (some u) h = ground (arith, h, text_beq_iff u t)

is_this-none : (t : Text) (o : Option Text) → is_this t o ≡ false → o ≢ some t
is_this-none t none h = λ e. cc
is_this-none t (some u) h = ground (arith, h, text_beq_iff u t)

is_this_or_none-cases :
    (t : Text) (o : Option Text) → is_this_or_none t o ≡ true → (o ≡ none) ⊎ (o ≡ some t)
is_this_or_none-cases t none h = inl refl
is_this_or_none-cases t (some u) h = inr (ap some ((text_beq_iff u t).0 h))

may_verify-cases :
    (o : Option (List Text))
    → may_verify o ≡ true
    → (o ≡ none) ⊎ ((l : List Text) × (o ≡ some l) × (contains l (codes "verify") ≡ true))
may_verify-cases none h = inl refl
may_verify-cases (some l) h = inr (l, refl, h)

pub find_key-IsFirst :
    (kid : Text) (keys : List RemoteJwk) (jwk : RemoteJwk)
    → find_key kid keys ≡ some jwk
    → IsFirst kid keys jwk
unfolding find_key
find_key-IsFirst kid [] jwk h = cc
find_key-IsFirst kid (k ∷ keys) jwk h = elim (Bool-cases (is_this kid k.kid)) [
  | inl e ↦
      let same : k ≡ jwk = ground (arith, e, h) in
      record {
        before = [];
        after = keys;
        listed = ap (λ (x : RemoteJwk). x ∷ keys) same;
        named = rw (← same) (is_this_iff kid k.kid e);
        others = tt;
      }
  | inr e ↦
      let rest = find_key-IsFirst kid keys jwk (ground (arith, e, h)) in
      record {
        before = k ∷ rest.before;
        after = rest.after;
        listed = ap (λ (l : List RemoteJwk). k ∷ l) rest.listed;
        named = rest.named;
        others = (is_this-none kid k.kid e, rest.others);
      }
]

module _ (net : Network) where
  -- The key's members are of the kind that the algorithm takes, and the key is made from them.
  pub data IsKeyOf (jwk : RemoteJwk) (key : DecodingKey) : SigningAlgorithm → Type 0 where
    elliptic :
        (x y : Text)
        → jwk.kty ≡ some (codes "EC")
        → jwk.crv ≡ some (codes "P-256")
        → jwk.x ≡ some x
        → jwk.y ≡ some y
        → net.decoded_len x ≡ some 32
        → net.decoded_len y ≡ some 32
        → net.from_ec_components x y ≡ some key
        → IsKeyOf jwk key es256
    rivest :
        (alg : SigningAlgorithm) (n e : Text)
        → alg ≢ es256
        → jwk.kty ≡ some (codes "RSA")
        → jwk.n ≡ some n
        → jwk.e ≡ some e
        → net.from_rsa_components n e ≡ some key
        → IsKeyOf jwk key alg

  is_coordinate-length : (c : Text) → is_coordinate net c ≡ true → net.decoded_len c ≡ some 32
  is_coordinate-length c h = elim (Option-cases (net.decoded_len c)) [
    | inl e ↦ absurd (ground (arith, e, h))
    | inr (n, e) ↦ ground (arith, e, h)
  ]

  rsa-IsKeyOf :
      (jwk : RemoteJwk) (alg : SigningAlgorithm) (key : DecodingKey)
      → alg ≢ es256
      → guard
          (is_this (codes "RSA") jwk.kty)
          (jwk.n >>= λ modulus. jwk.e >>= λ exponent. net.from_rsa_components modulus exponent)
        ≡ some key
      → IsKeyOf jwk key alg
  rsa-IsKeyOf jwk alg key other h =
      let (kind, h1) = guard-some (is_this (codes "RSA") jwk.kty) _ key h in
      let (n, e2, h2) = bind-some jwk.n _ key h1 in
      let (e, e3, h3) = bind-some jwk.e _ key h2 in
      rivest alg n e other (is_this_iff (codes "RSA") jwk.kty kind) e2 e3 h3

  key_of-IsKeyOf :
      (jwk : RemoteJwk) (alg : SigningAlgorithm) (key : DecodingKey)
      → key_of net jwk alg ≡ some key
      → IsKeyOf jwk key alg
  unfolding key_of
  key_of-IsKeyOf jwk es256 key h =
      let (kind, h1) =
        guard-some (is_this (codes "EC") jwk.kty && is_this (codes "P-256") jwk.crv) _ key h in
      let (x, e2, h2) = bind-some jwk.x _ key h1 in
      let (y, e3, h3) = bind-some jwk.y _ key h2 in
      let (whole, h4) = guard-some (is_coordinate net x && is_coordinate net y) _ key h3 in
      elliptic x y (is_this_iff (codes "EC") jwk.kty (ground (arith, kind)))
        (is_this_iff (codes "P-256") jwk.crv (ground (arith, kind))) e2 e3
        (is_coordinate-length x (ground (arith, whole)))
        (is_coordinate-length y (ground (arith, whole))) h4
  key_of-IsKeyOf jwk rs256 key h = rsa-IsKeyOf jwk rs256 key (λ e. cc) h
  key_of-IsKeyOf jwk ps256 key h = rsa-IsKeyOf jwk ps256 key (λ e. cc) h

  pub decoding_key-IsUsable :
      (jwk : RemoteJwk) (alg : SigningAlgorithm) (key : DecodingKey)
      → decoding_key net jwk alg ≡ some key
      → IsUsable jwk (algorithm_name alg) × IsKeyOf jwk key alg
  unfolding decoding_key
  decoding_key-IsUsable jwk alg key h =
      let (e1, h1) = guard-some (is_this_or_none (codes "sig") jwk.key_use) _ key h in
      let (e2, h2) = guard-some (is_this_or_none (algorithm_name alg) jwk.alg) _ key h1 in
      let (e3, h3) = guard-some (may_verify jwk.key_ops) _ key h2 in
      (
        record {
          signs = is_this_or_none-cases (codes "sig") jwk.key_use e1;
          alg = is_this_or_none-cases (algorithm_name alg) jwk.alg e2;
          ops = may_verify-cases jwk.key_ops e3;
        },
        key_of-IsKeyOf jwk alg key h3,
      )
