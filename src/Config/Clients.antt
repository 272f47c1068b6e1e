-- ===== src/Config/Clients.antt =====
-- src/config.rs: `build_clients`, the registry of the enabled clients.
use pocket_oid.Base.{
  ◌≡◌, refl, ◌↔◌, true, List, [], ◌∷◌, Option, none, some, arith, if◌then◌else◌, keep, ◌==◌,
  Bool-cases, Option-cases, inl, inr, All,
}
use pocket_oid.BTreeSet.{collect}
use pocket_oid.Config.{ClientConfig, Client, duplicate_client_id, Result, ok, err}
use pocket_oid.HashMap.{HashMap, get, contains_key, insert}
use pocket_oid.HashMap.Laws.{get-insert}
use pocket_oid.Text.{Text, text_eq, text_beq_iff}

-- The `Client` that a configuration entry becomes.
unfoldable pub client_of : ClientConfig → Client
client_of c = record {
  client_id = c.client_id;
  client_secret = c.client_secret;
  signing_algorithm = c.signing_algorithm;
  audience = c.audience;
  allowed_scopes = collect c.scopes;
  metadata = c.metadata;
  token_ttl_seconds = c.token_ttl_seconds;
  redirect_uris = collect c.redirect_uris;
  response_types = collect c.response_types;
  require_pkce = c.require_pkce;
  consent_mode = c.consent_mode;
  auth_mode = c.auth_mode;
  re_auth = c.re_auth;
}

-- The loop over the enabled entries, from the map built so far.
insert_clients : HashMap Client → List ClientConfig → Result (HashMap Client)
insert_clients m [] = ok m
insert_clients m (c ∷ cs) =
    let rest = insert_clients (insert c.client_id (client_of c) m) cs in
    if contains_key c.client_id m then err (duplicate_client_id c.client_id) else rest

unfoldable pub build_clients : List ClientConfig → Result (HashMap Client)
unfolding insert_clients
build_clients cs = insert_clients [] (keep (λ c. c.enabled) cs)

-- The first enabled entry with an identifier.
pub find_enabled : Text → List ClientConfig → Option ClientConfig
find_enabled k [] = none
find_enabled k (c ∷ cs) =
    let rest = find_enabled k cs in
    if c.enabled then (if c.client_id == k then some c else rest) else rest

abbrev pub option_map {ℓ κ} : {A : Type ℓ} {B : Type κ} → (A → B) → Option A → Option B
option_map f none = none
option_map f (some a) = some (f a)

abbrev or_else {ℓ} : {A : Type ℓ} → Option A → Option A → Option A
or_else none o = o
or_else (some a) o = some a

find : Text → List ClientConfig → Option ClientConfig
find k [] = none
find k (c ∷ cs) = if c.client_id == k then some c else find k cs

find-keep :
    (k : Text) (cs : List ClientConfig) → find k (keep (λ c. c.enabled) cs) ≡ find_enabled k cs
unfolding find find_enabled
find-keep k [] = refl
find-keep k (c ∷ cs) = elim (Bool-cases c.enabled) [
  | inl e ↦ rw (e, find-keep k cs)
  | inr e ↦ rw (e, find-keep k cs)
]

get-insert_clients :
    (k : Text) (m m' : HashMap Client) (cs : List ClientConfig)
    → insert_clients m cs ≡ ok m'
    → get k m' ≡ or_else (get k m) (option_map client_of (find k cs))
unfolding insert_clients find
get-insert_clients k m m' [] h = ground arith
get-insert_clients k m m' (c ∷ cs) h = ground (
  arith,
  get-insert_clients k (insert c.client_id (client_of c) m) m' cs,
  get-insert c.client_id k (client_of c) m,
  text_beq_iff c.client_id k,
)

-- No enabled entry has the identifier of a later enabled entry.
abbrev pub IsDistinct : List ClientConfig → Type 0
IsDistinct [] = Unit
IsDistinct (c ∷ cs) = (c.enabled ≡ true → find_enabled c.client_id cs ≡ none) × IsDistinct cs

-- A registry that is built answers each identifier with the enabled entry that has it, as
-- converted by `client_of`, and answers no other: disabled entries are left out.
pub get-build_clients :
    (k : Text) (cs : List ClientConfig) (m : HashMap Client)
    → build_clients cs ≡ ok m
    → get k m ≡ option_map client_of (find_enabled k cs)
unfolding build_clients get
get-build_clients k cs m h =
    rw (← find-keep k cs) (get-insert_clients k [] m (keep (λ c. c.enabled) cs) h)

abbrev IsFresh : HashMap Client → List ClientConfig → Type 0
IsFresh m cs = All (λ c. get c.client_id m ≡ none) cs

abbrev IsDistinctKept : List ClientConfig → Type 0
IsDistinctKept [] = Unit
IsDistinctKept (c ∷ cs) = (find c.client_id cs ≡ none) × IsDistinctKept cs

IsFresh-insert :
    (k : Text) (v : Client) (m : HashMap Client) (cs : List ClientConfig)
    → IsFresh (insert k v m) cs ↔ (IsFresh m cs × (find k cs ≡ none))
unfolding find
IsFresh-insert k v m [] = ((λ _. (tt, refl)), (λ _. tt))
IsFresh-insert k v m (c ∷ cs) =
    let (to, from) = IsFresh-insert k v m cs in
    ground (
      arith,
      IsFresh-insert k v m cs,
      get-insert k c.client_id v m,
      text_beq_iff c.client_id k,
      text_beq_iff k c.client_id,
    )

insert_clients-IsOk_iff :
    (m : HashMap Client) (cs : List ClientConfig)
    → ((m' : HashMap Client) × (insert_clients m cs ≡ ok m')) ↔ (IsFresh m cs × IsDistinctKept cs)
unfolding insert_clients
insert_clients-IsOk_iff m [] = ((λ _. (tt, tt)), (λ _. (m, refl)))
insert_clients-IsOk_iff m (c ∷ cs) = elim (Option-cases (get c.client_id m)) [
  | inl new ↦
      let next = insert c.client_id (client_of c) m in
      let (to, from) = insert_clients-IsOk_iff next cs in
      let (apart, join) = IsFresh-insert c.client_id (client_of c) m cs in
      rw new (
        (λ built.
            let (fresh, distinct) = to built in
            let (old, other) = apart fresh in ((refl, old), (other, distinct))),
        (λ h. from (join (h.0.1, h.1.0), h.1.1)),
      )
  | inr (v, taken) ↦ rw taken ((λ built. cc built.1), (λ h. cc h.0.0))
]

IsDistinct-keep :
    (cs : List ClientConfig) → IsDistinct cs ↔ IsDistinctKept (keep (λ c. c.enabled) cs)
IsDistinct-keep [] = ((λ h. h), (λ h. h))
IsDistinct-keep (c ∷ cs) =
    let (to, from) = IsDistinct-keep cs in
    elim (Bool-cases c.enabled) [
      | inl e ↦ rw (e, find-keep) ((λ h. (h.0 refl, to h.1)), (λ h. ((λ _. h.0), from h.1)))
      | inr e ↦ rw e ((λ h. to h.1), (λ h. ((λ bad. cc), from h)))
    ]

-- Building the registry succeeds exactly when no two enabled entries have the same identifier.
pub build_clients-IsOk_iff :
    (cs : List ClientConfig) → ((m : HashMap Client) × (build_clients cs ≡ ok m)) ↔ IsDistinct cs
unfolding build_clients get
build_clients-IsOk_iff cs =
    let kept = keep (λ (c : ClientConfig). c.enabled) cs in
    let (to, from) = insert_clients-IsOk_iff [] kept in
    let (down, up) = IsDistinct-keep cs in
    ((λ built. up (to built).1), (λ h. from (fresh_nil kept, down h)))
  where
    fresh_nil : (es : List ClientConfig) → IsFresh [] es
    fresh_nil [] = tt
    fresh_nil (e ∷ es) = (refl, fresh_nil es)
