-- ===== src/Sessions.antt =====
-- apps/agent/src/sessions.ts: the sessions of the agent's HTTP API. A session object is known by its
-- reference, which a caller may hold after the session has ended; `key` is the SHA-256 of its token,
-- which the WeakMap `#keys` remembers for it. The audit log of a session is left out.
pub mod Ownership
pub mod Isolation
pub mod Bounds
mod Examples
use virtual_haibin.Prelude.{
  ℕ, zero, suc, ◌+◌, String, Bool, true, false, not, ◌&&◌, ◌||◌, Option, none, some, List, [], ◌∷◌,
  ◌++◌, ltb, leb, eqb, any, all, length, if◌then◌else◌, ◌==◌,
}
use virtual_haibin.Decimal.{codes, is_digit}
use virtual_haibin.Mandate.{SignedPurchasePermitV2}

pub record InstalledPermit : Type 0 where
  pub permit : SignedPurchasePermitV2
  pub digest : String

pub record Session : Type 0 where
  pub key : String
  pub created_at : ℕ
  pub expires_at : ℕ
  pub installed : Option InstalledPermit
  pub invocations : List String
  pub decided : List String

pub data ClaimResult : Type 0 where
  claimed already_own foreign limit : ClaimResult

pub record SessionOptions : Type 0 where
  pub ttl_ms : ℕ
  pub max_sessions : ℕ
  pub max_invocations : ℕ
  pub max_owned : ℕ

-- `objects` are the session objects by reference, `sessions` the Map of the live ones, `owners` the
-- Map from invocation ids; the Maps are in the order of insertion.
pub record SessionStore : Type 0 where
  pub options : SessionOptions
  pub objects : List Session
  pub sessions : List (String × ℕ)
  pub owners : List (String × String)

abbrev pub retired : String
retired = "retired"

-- `Map.prototype.get`, `set` and `delete`; `set` keeps the place of a key that is there.
unfoldable pub get : {V : Type 0} → String → List (String × V) → Option V
get key [] = none
get key ((k, v) ∷ entries) = if k == key then some v else get key entries

unfoldable pub set : {V : Type 0} → String → V → List (String × V) → List (String × V)
set key value [] = (key, value) ∷ []
set key value ((k, v) ∷ entries) =
    if k == key then (key, value) ∷ entries else (k, v) ∷ set key value entries

unfoldable pub delete : {V : Type 0} → String → List (String × V) → List (String × V)
delete key [] = []
delete key ((k, v) ∷ entries) = if k == key then entries else (k, v) ∷ delete key entries

-- The object of a reference.
unfoldable pub object_at : ℕ → List Session → Option Session
object_at ref [] = none
object_at zero (session ∷ objects) = some session
object_at (suc ref) (session ∷ objects) = object_at ref objects

unfoldable pub change_object : ℕ → (Session → Session) → List Session → List Session
change_object ref f [] = []
change_object zero f (session ∷ objects) = f session ∷ objects
change_object (suc ref) f (session ∷ objects) = session ∷ change_object ref f objects

-- `this.#keys.get(session)`
unfoldable pub key_of : ℕ → SessionStore → Option String
key_of ref store = elim (object_at ref store.objects) [
  | none ↦ none
  | some session ↦ some session.key
]

-- `owner === key`, each of which may be undefined.
abbrev pub same : Option String → Option String → Bool
same none none = true
same (some a) (some b) = a == b
same _ _ = false

abbrev pub has : List String → String → Bool
has ids id = any (λ i. i == id) ids

-- `Set.prototype.add`
abbrev pub add : String → List String → List String
add id ids = if has ids id then ids else ids ++ id ∷ []

-- The loop of `#evict`: what the session of `key` owns becomes retired.
unfoldable pub retire_all : String → List String → List (String × String) → List (String × String)
retire_all key [] owners = owners
retire_all key (id ∷ ids) owners =
    retire_all key ids (if same (get id owners) (some key) then set id retired owners else owners)

abbrev pub invocations_of : Option Session → List String
invocations_of none = []
invocations_of (some session) = session.invocations

unfoldable pub evict : String → SessionStore → SessionStore
evict key store = elim (get key store.sessions) [
  | none ↦ store
  | some ref ↦ record store {
    owners = retire_all key (invocations_of (object_at ref store.objects)) store.owners;
    sessions = delete key store.sessions;
  }
]

abbrev pub is_expired : ℕ → ℕ → SessionStore → Bool
is_expired now ref store = elim (object_at ref store.objects) [
  | none ↦ false
  | some session ↦ leb session.expires_at now
]

-- `#prune`, over the entries that are there when it starts.
unfoldable pub prune_entries : ℕ → List (String × ℕ) → SessionStore → SessionStore
prune_entries now [] store = store
prune_entries now ((key, ref) ∷ entries) store =
    prune_entries now entries (if is_expired now ref store then evict key store else store)

unfoldable pub prune : ℕ → SessionStore → SessionStore
prune now store = prune_entries now store.sessions store

-- `size`
unfoldable pub size : ℕ → SessionStore → ℕ × SessionStore
size now store = let pruned = prune now store in (length pruned.sessions, pruned)

-- `while (this.#sessions.size >= this.#maxSessions)`; each round removes one entry, so the number of
-- the entries is enough fuel.
unfoldable pub evict_oldest : ℕ → SessionStore → SessionStore
evict_oldest zero store = store
evict_oldest (suc fuel) store =
    if leb store.options.max_sessions (length store.sessions)
    then (elim (store.sessions) [
      | [] ↦ store
      | (oldest, _) ∷ _ ↦ evict_oldest fuel (evict oldest store)
    ])
    else store

-- `while (this.#owners.size > this.#maxOwned)`, which deletes the oldest entry.
unfoldable pub trim_owners : ℕ → List (String × String) → List (String × String)
trim_owners max_owned [] = []
trim_owners max_owned ((id, owner) ∷ owners) =
    let rest = trim_owners max_owned owners in
    if ltb max_owned (suc (length owners)) then rest else (id, owner) ∷ owners

-- The new session of a key.
abbrev pub new_session : String → ℕ → ℕ → Session
new_session key now ttl_ms = record {
  key = key;
  created_at = now;
  expires_at = now + ttl_ms;
  installed = none;
  invocations = [];
  decided = [];
}

-- `claimInvocation`, once the session has a key and owns the id neither way.
unfoldable pub take_invocation : ℕ → String → String → SessionStore → SessionStore
take_invocation ref key id store =
    let owners = set id key store.owners in
    record store {
      objects =
          change_object ref (λ s. record s { invocations = add id s.invocations }) store.objects;
      owners = trim_owners store.options.max_owned owners;
    }

unfoldable pub claim_invocation : ℕ → String → SessionStore → ClaimResult × SessionStore
claim_invocation ref id store = elim (object_at ref store.objects) [
  | none ↦ (foreign, store)
  | some session ↦ elim (get id store.owners) [
    | some owner ↦ if owner == session.key then (already_own, store) else (foreign, store)
    | none ↦
        if leb store.options.max_invocations (length session.invocations)
        then (limit, store)
        else (claimed, take_invocation ref session.key id store)
  ]
]

unfoldable pub mark_decided : ℕ → String → SessionStore → SessionStore
mark_decided ref id store =
    if same (get id store.owners) (key_of ref store)
    then record store {
      objects = change_object ref (λ s. record s { decided = add id s.decided }) store.objects;
    }
    else store

unfoldable pub can_read_evidence : ℕ → String → SessionStore → Bool
can_read_evidence ref id store = elim (object_at ref store.objects) [
  | none ↦ false
  | some session ↦ has session.decided id && same (get id store.owners) (some session.key)
]

-- `TOKEN_PATTERN`, /^[A-Za-z0-9_-]{43}$/
abbrev pub is_token_char : ℕ → Bool
is_token_char c =
    (leb b'A' c && leb c b'Z')
    || ((leb b'a' c && leb c b'z') || (is_digit c || (eqb c b'_' || eqb c b'-')))

abbrev pub matches_token : List ℕ → Bool
matches_token token = all is_token_char token && eqb (length token) 43

-- `authorization.startsWith(prefix)` and the text behind the prefix.
unfoldable pub strip_prefix : List ℕ → List ℕ → Option (List ℕ)
strip_prefix [] text = some text
strip_prefix (c ∷ prefix) [] = none
strip_prefix (c ∷ prefix) (d ∷ text) = if eqb c d then strip_prefix prefix text else none

-- The token of the header `Authorization`.
unfoldable pub token_of : Option String → Option (List ℕ)
unfolding strip_prefix
token_of none = none
token_of (some authorization) = elim (strip_prefix (codes "Bearer ") (codes authorization)) [
  | none ↦ none
  | some token ↦ if matches_token token then some token else none
]

-- `digest` is the SHA-256 of a token, given by its code units. A new token is an argument: it is
-- random. `create` reads the clock twice, to prune and for the new session.
module _ (digest : List ℕ → String) where
  unfoldable pub create : String → ℕ → ℕ → SessionStore → ℕ × SessionStore
  create token now created store =
      let pruned = prune now store in
      let room = evict_oldest (length pruned.sessions) pruned in
      let ref = length room.objects in
      (
        ref,
        record room {
          objects =
              room.objects ++ new_session (digest (codes token)) created room.options.ttl_ms ∷ [];
          sessions = set (digest (codes token)) ref room.sessions;
        },
      )

  unfoldable pub authenticate : Option String → ℕ → SessionStore → Option ℕ × SessionStore
  authenticate authorization now store = elim (token_of authorization) [
    | none ↦ (none, store)
    | some token ↦ let pruned = prune now store in (get (digest token) pruned.sessions, pruned)
  ]
