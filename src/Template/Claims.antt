-- ===== src/Template/Claims.antt =====
-- A rendered token has the template's members, and the claims that every token needs.
use pocket_oid.Base.{ℕ, ◌≡◌, refl, sym, ap, subst, ◌∙◌, true, List, [], ◌∷◌, arith, All, contains}
use pocket_oid.Base.Int.{ℤ}
use pocket_oid.Json.{Value, object, Members, end, member}
use pocket_oid.Template.{
  TokenContext, Rendered, ok, err, running, ◌>>=◌, substitute_value, substitute_members,
  contains_claim, required_claims, check_claims, ensure_required_claims, render,
}
use pocket_oid.Text.{Text, text_eq}

abbrev pub keys : Members → List Text
keys end = []
keys (member key value members) = key ∷ keys members

contains_claim-keys :
    (claim : Text) (m : Members) → contains_claim claim m ≡ contains (keys m) claim
unfolding contains_claim
contains_claim-keys claim end = refl
contains_claim-keys claim (member key value m) = ground (arith, contains_claim-keys claim m)

check_claims-All :
    (claims : List Text) (m : Members)
    → check_claims claims m ≡ ok tt
    → All (λ c. contains (keys m) c ≡ true) claims
unfolding check_claims
check_claims-All [] m h = tt
check_claims-All (c ∷ cs) m h =
    (ground (arith, contains_claim-keys c m), check_claims-All cs m (ground arith))

>>=-eq-ok :
    {T U : Type 0} (done : Rendered T) (next : T → Rendered U) {u : U}
    → (done >>= next) ≡ ok u
    → (t : T) × (done ≡ ok t) × (next t ≡ ok u)
>>=-eq-ok running next h = cc
>>=-eq-ok (err cause) next h = cc
>>=-eq-ok (ok t) next h = (t, refl, h)

module _ (print_number : ℤ → Text) (fuel : ℕ) (ctx : TokenContext) where
  keys-substitute_members :
      (m m' : Members) → substitute_members print_number fuel m ctx ≡ ok m' → keys m' ≡ keys m
  unfolding substitute_members
  keys-substitute_members end m' h = let e : end ≡ m' = cc h in ap keys (sym e)
  keys-substitute_members (member key value m) m' h =
      let (first, _, h') = >>=-eq-ok (substitute_value print_number fuel value ctx) _ h in
      let (rest, e, h'') = >>=-eq-ok (substitute_members print_number fuel m ctx) _ h' in
      let made : member key first rest ≡ m' = cc h'' in
      ap keys (sym made) ∙ ap (◌∷◌ key) (keys-substitute_members m rest e)

  pub record HasClaims (template : Members) (rendered : Value) : Type 0 where
    pub token : Members
    pub is_token : rendered ≡ object token
    pub same_keys : keys token ≡ keys template
    pub claims : All (λ c. contains (keys token) c ≡ true) required_claims

  -- A token that is rendered from an object is an object with the members of the template in
  -- their order, and the claims iss, sub, aud, iat, exp and jti are among them.
  pub render-HasClaims :
      (template : Members) (rendered : Value)
      → render print_number fuel (object template) ctx ≡ ok rendered
      → HasClaims template rendered
  unfolding render substitute_members ensure_required_claims
  render-HasClaims template rendered h =
      let (value, e, checked) =
        >>=-eq-ok (substitute_value print_number fuel (object template) ctx) _ h in
      let (token, e', made) = >>=-eq-ok (substitute_members print_number fuel template ctx) _ e in
      let is_value : object token ≡ value = cc made in
      let (_, checked_ok, done) = >>=-eq-ok (ensure_required_claims value) _ checked in
      let is_rendered : value ≡ rendered = cc done in
      let claims' : check_claims required_claims token ≡ ok tt =
        subst (λ v. ensure_required_claims v ≡ ok tt) (sym is_value) checked_ok in
      record {
        token = token;
        is_token = sym is_rendered ∙ sym is_value;
        same_keys = keys-substitute_members template token e';
        claims = check_claims-All required_claims token claims';
      }
