-- ===== src/Upstream/Client/Identity.antt =====
-- src/upstream.rs: what a validated upstream identity presupposes.
use pocket_oid.Base.{
  ℕ, ◌+◌, ◌≤◌, ◌≡◌, refl, sym, ap, subst, ◌∙◌, true, false, not, List, some, arith, is_empty,
}
use pocket_oid.Base.Int.{ℤ, pos, negsuc}
use pocket_oid.Config.{SigningAlgorithm, TrustedProviderConfig}
use pocket_oid.Handlers.Pkce.{constant_time_eq, constant_time_eq_iff}
use pocket_oid.Json.{Value, string}
use pocket_oid.Text.{Text, codes}
use pocket_oid.Upstream.{DiscoveredOidcProvider, ValidatedUpstreamIdentity}
use pocket_oid.Upstream.Client.Keys.{
  IsAmong, IsFirst, IsUsable, IsKeyOf, guard-some, bind-some, is_allowed-IsAmong, find_key-IsFirst,
  decoding_key-IsUsable,
}
use pocket_oid.Upstream.Client.{
  RemoteJwk, DecodingKey, Header, Network, get_claim, as_str, as_i64, is_after, add_seconds,
  clock_skew_seconds, find_key, decoding_key, check_claims, is_allowed, algorithm_name,
  validate_id_token,
}

as_str-some : (v : Value) (t : Text) → as_str v ≡ some t → v ≡ string t
as_str-some v t h = ground arith

filled_iff : (t : Text) → not (is_empty t) ≡ true → is_empty t ≡ false
filled_iff t h = ground arith

made_of :
    (subject issuer : Text) (identity : ValidatedUpstreamIdentity)
    (made : ValidatedUpstreamIdentity)
    → made ≡ record { subject = subject; issuer = issuer }
    → some made ≡ some identity
    → (subject ≡ identity.subject) × (issuer ≡ identity.issuer)
made_of subject issuer identity made e h =
    let same : made ≡ identity = cc h in
    (
      sym (ap (λ (i : ValidatedUpstreamIdentity). i.subject) e)
          ∙ ap (λ (i : ValidatedUpstreamIdentity). i.subject) same,
      sym (ap (λ (i : ValidatedUpstreamIdentity). i.issuer) e)
          ∙ ap (λ (i : ValidatedUpstreamIdentity). i.issuer) same,
    )

-- A time in seconds is at most `k` seconds after another.
abbrev pub IsWithin : ℕ → ℤ → ℤ → Type 0
IsWithin k (pos a) (pos b) = a ≤ b + k
IsWithin k (pos a) (negsuc b) = a + b + 1 ≤ k
IsWithin k (negsuc a) (pos b) = Unit
IsWithin k (negsuc a) (negsuc b) = b ≤ a + k

is_after-IsWithin : (k : ℕ) (x y : ℤ) → is_after x (add_seconds y k) ≡ false → IsWithin k x y
is_after-IsWithin k (pos a) (pos b) h = ground arith
is_after-IsWithin k (pos a) (negsuc b) h = ground arith
is_after-IsWithin k (negsuc a) (pos b) h = tt
is_after-IsWithin k (negsuc a) (negsuc b) h = ground arith

-- A claim that is read as a text.
text_claim :
    (key : Text) (claims v : Value) (t u : Text)
    → get_claim key claims ≡ some v
    → as_str v ≡ some t
    → t ≡ u
    → get_claim key claims ≡ some (string u)
text_claim key claims v t u e f g = e ∙ ap (λ (x : Value). some x) (as_str-some v t f ∙ ap string g)

module _ (net : Network) (now : ℤ) (metadata : DiscoveredOidcProvider)
    (provider : TrustedProviderConfig) (id_token expected_nonce : Text)
    (identity : ValidatedUpstreamIdentity) where
  -- The claims are those of this login: the expected nonce, a time of issue that is not after now,
  -- and the subject that is reported.
  pub record IsClaimed (claims : Value) : Type 0 where
    pub issued_at : ℤ
    pub dated :
        (v : Value) × (get_claim (codes "iat") claims ≡ some v) × (as_i64 v ≡ some issued_at)
    pub not_after : IsWithin 60 issued_at now
    pub nonce : get_claim (codes "nonce") claims ≡ some (string expected_nonce)
    pub subject : get_claim (codes "sub") claims ≡ some (string identity.subject)
    pub nonempty : is_empty identity.subject ≡ false
    pub issuer : identity.issuer ≡ metadata.issuer

  claims_sound :
      (claims : Value)
      → check_claims net now metadata.issuer expected_nonce claims ≡ some identity
      → IsClaimed claims
  unfolding check_claims
  claims_sound claims h =
      let (iat, e1, h1) = bind-some (get_claim (codes "iat") claims) _ identity h in
      let (issued_at, e2, h2) = bind-some (as_i64 iat) _ identity h1 in
      let (early, h3) =
        guard-some (not (is_after issued_at (add_seconds now clock_skew_seconds))) _ identity h2 in
      let (nonce_claim, e4, h4) = bind-some (get_claim (codes "nonce") claims) _ identity h3 in
      let (nonce_text, e5, h5) = bind-some (as_str nonce_claim) _ identity h4 in
      let (same, h6) =
        guard-some (constant_time_eq net.crypto nonce_text expected_nonce) _ identity h5 in
      let (sub, e7, h7) = bind-some (get_claim (codes "sub") claims) _ identity h6 in
      let (subject, e8, h8) = bind-some (as_str sub) _ identity h7 in
      let (filled, h9) = guard-some (not (is_empty subject)) _ identity h8 in
      let equal = (constant_time_eq_iff net.crypto nonce_text expected_nonce).0 same in
      let (own, from) = made_of subject metadata.issuer identity _ refl h9 in
      record {
        issued_at = issued_at;
        dated = (iat, e1, e2);
        not_after = is_after-IsWithin 60 issued_at now (ground (arith, early));
        nonce = text_claim (codes "nonce") claims nonce_claim nonce_text expected_nonce e4 e5 equal;
        subject = text_claim (codes "sub") claims sub subject identity.subject e7 e8 own;
        nonempty = subst (λ t. is_empty t ≡ false) own (filled_iff subject filled);
        issuer = sym from;
      }

  -- The circumstances of an accepted identity.
  pub record IsIdentified : Type 0 where
    pub header : Header
    pub alg : SigningAlgorithm
    pub kid : Text
    pub keys : List RemoteJwk
    pub jwk : RemoteJwk
    pub key : DecodingKey
    pub claims : Value
    pub headed : net.decode_header id_token ≡ some header
    pub signed_with : header.alg ≡ some alg
    pub allowed : IsAmong alg provider.allowed_signing_algorithms
    pub names : header.kid ≡ some kid
    pub fetched : net.get_jwks metadata.jwks_uri ≡ some keys
    pub listed : IsFirst kid keys jwk
    pub usable : IsUsable jwk (algorithm_name alg)
    pub made : IsKeyOf net jwk key alg
    pub decoded : net.decode id_token key alg metadata.issuer provider.client_id ≡ some claims
    pub claimed : IsClaimed claims

  -- An identity is accepted only from a token that the provider has signed for this login: its
  -- algorithm stands in the list of those that are allowed for the provider; the key is the first of
  -- the provider's keys that has the token's key identifier, names no use but `sig`, no algorithm
  -- but the token's and no operations without `verify`, and is made from members of the kind of that
  -- algorithm, on P-256 with coordinates of 32 bytes for ES256; the token is decoded with that key
  -- and algorithm for the provider's issuer and this program as the audience; its nonce is the one
  -- that was sent, its time of issue is after now by at most 60 seconds, and its subject is not empty
  -- and is the one that is reported.
  pub validate_id_token-IsIdentified :
      validate_id_token net now metadata provider id_token expected_nonce ≡ some identity
      → IsIdentified
  unfolding validate_id_token
  validate_id_token-IsIdentified h =
      let (header, e1, h1) = bind-some (net.decode_header id_token) _ identity h in
      let (alg, e2, h2) = bind-some header.alg _ identity h1 in
      let (e3, h3) =
        guard-some (is_allowed alg provider.allowed_signing_algorithms) _ identity h2 in
      let (kid, e4, h4) = bind-some header.kid _ identity h3 in
      let (keys, e5, h5) = bind-some (net.get_jwks metadata.jwks_uri) _ identity h4 in
      let (jwk, e6, h6) = bind-some (find_key kid keys) _ identity h5 in
      let (key, e7, h7) = bind-some (decoding_key net jwk alg) _ identity h6 in
      let (claims, e8, h8) =
        bind-some (net.decode id_token key alg metadata.issuer provider.client_id) _ identity h7 in
      record {
        header = header;
        alg = alg;
        kid = kid;
        keys = keys;
        jwk = jwk;
        key = key;
        claims = claims;
        headed = e1;
        signed_with = e2;
        allowed = is_allowed-IsAmong alg provider.allowed_signing_algorithms e3;
        names = e4;
        fetched = e5;
        listed = find_key-IsFirst kid keys jwk e6;
        usable = (decoding_key-IsUsable net jwk alg key e7).0;
        made = (decoding_key-IsUsable net jwk alg key e7).1;
        decoded = e8;
        claimed = claims_sound claims h8;
      }
