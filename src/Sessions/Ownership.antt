-- ===== src/Sessions/Ownership.antt =====
-- Who owns an invocation id.
use virtual_haibin.Prelude.{
  ℕ, zero, suc, ◌+◌, ◌≤◌, String, Option, none, some, List, [], ◌∷◌, leb, length, ◌≡◌, ◌⊎◌, inl,
  inr, refl, ◌∙◌, arith, if◌then◌else◌, ◌==◌, Bool-cases, Option-cases,
}
use virtual_haibin.Sessions.{
  SessionStore, retired, get, set, object_at, key_of, same, retire_all, invocations_of, evict,
  is_expired, prune_entries, prune, evict_oldest, trim_owners, take_invocation, claim_invocation,
  mark_decided, create, authenticate, token_of,
}

get-set :
    {V : Type 0} (j k : String) (v : V) (entries : List (String × V))
    → get j (set k v entries) ≡ (if j == k then some v else get j entries)
unfolding get set
get-set j k v [] = ground arith
get-set j k v ((i, w) ∷ entries) = ground (arith, get-set j k v entries)

length-set_there :
    {V : Type 0} (k : String) (v w : V) (entries : List (String × V))
    → get k entries ≡ some w
    → length (set k v entries) ≡ length entries
unfolding get set
length-set_there k v w [] h = cc (h)
length-set_there k v w ((i, u) ∷ entries) h = ground (arith, length-set_there k v w entries)

pub length-set :
    {V : Type 0} (k : String) (v : V) (entries : List (String × V))
    → length (set k v entries) ≤ suc (length entries)
unfolding set
length-set k v [] = omega arith
length-set k v ((i, u) ∷ entries) = ground (arith, length-set k v entries)

-- The Map of the owners has grown by at most `n` entries, and an id that had an owner has the same
-- owner or is retired.
pub record Keeps (n : ℕ) (before after : SessionStore) : Type 0 where
  pub options : after.options ≡ before.options
  pub grows : length after.owners ≤ length before.owners + n
  pub owner :
      (id key : String)
      → get id before.owners ≡ some key
      → (get id after.owners ≡ some key) ⊎ (get id after.owners ≡ some retired)

pub Keeps-refl : (store : SessionStore) → Keeps 0 store store
Keeps-refl store = record { options = refl; grows = omega arith; owner = λ id key h. inl h }

pub Keeps-trans : (n m : ℕ) (a b c : SessionStore) → Keeps n a b → Keeps m b c → Keeps (n + m) a c
Keeps-trans n m a b c p q = record {
  options = q.options ∙ p.options;
  grows = omega (arith, p.grows, q.grows);
  owner = λ id key h. elim (p.owner id key h) [
    | inl e ↦ q.owner id key e
    | inr e ↦ elim (q.owner id retired e) [ inl f ↦ inr f | inr f ↦ inr f ]
  ];
}

retire_all-length :
    (key : String) (ids : List String) (owners : List (String × String))
    → length (retire_all key ids owners) ≡ length owners
unfolding retire_all
retire_all-length key [] owners = refl
retire_all-length key (id ∷ ids) owners = elim (Option-cases (get id owners)) [
  | inl e ↦ rw e (retire_all-length key ids owners)
  | inr (owner, e) ↦ elim (Bool-cases (owner == key)) [
    | inl mine ↦
        rw (e, mine)
          (retire_all-length key ids (set id retired owners)
            ∙ length-set_there id retired owner owners e)
    | inr other ↦ rw (e, other) (retire_all-length key ids owners)
  ]
]

-- Retiring leaves an owner as it is, or retires the id.
retire_one :
    (key j id : String) (k : String) (owners : List (String × String))
    → get id owners ≡ some k
    → let after = if same (get j owners) (some key) then set j retired owners else owners in
      (get id after ≡ some k) ⊎ (get id after ≡ some retired)
retire_one key j id k owners h = elim (Bool-cases (same (get j owners) (some key))) [
  | inr other ↦ inl (rw other h)
  | inl mine ↦ elim (Bool-cases (id == j)) [
    | inl here ↦ inr (rw mine (get-set id j retired owners ∙ rw here))
    | inr elsewhere ↦ inl (rw mine (get-set id j retired owners ∙ rw elsewhere h))
  ]
]

retire_all-owner :
    (key id : String) (ids : List String) (k : String) (owners : List (String × String))
    → get id owners ≡ some k
    → (get id (retire_all key ids owners) ≡ some k)
      ⊎ (get id (retire_all key ids owners) ≡ some retired)
unfolding retire_all
retire_all-owner key id [] k owners h = inl h
retire_all-owner key id (j ∷ ids) k owners h = elim (retire_one key j id k owners h) [
  | inl e ↦ retire_all-owner key id ids k _ e
  | inr e ↦ elim (retire_all-owner key id ids retired _ e) [ inl f ↦ inr f | inr f ↦ inr f ]
]

pub evict-Keeps : (key : String) (store : SessionStore) → Keeps 0 store (evict key store)
unfolding evict
evict-Keeps key store = elim (Option-cases (get key store.sessions)) [
  | inl e ↦ rw (evict, e) (Keeps-refl store)
  | inr (ref, e) ↦
      rw (evict, e)
        (record {
          options = refl;
          grows = omega (
            arith,
            retire_all-length key (invocations_of (object_at ref store.objects)) store.owners,
          );
          owner = λ id k h.
              retire_all-owner key id (invocations_of (object_at ref store.objects)) k store.owners
                h;
        })
]

prune_entries-Keeps :
    (now : ℕ) (entries : List (String × ℕ)) (store : SessionStore)
    → Keeps 0 store (prune_entries now entries store)
unfolding prune_entries
prune_entries-Keeps now [] store = Keeps-refl store
prune_entries-Keeps now ((key, ref) ∷ entries) store =
    elim (Bool-cases (is_expired now ref store)) [
      | inl old ↦ rw old (
          Keeps-trans 0 0 store (evict key store) (prune_entries now entries (evict key store))
            (evict-Keeps key store) (prune_entries-Keeps now entries (evict key store)))
      | inr live ↦ rw live (prune_entries-Keeps now entries store)
    ]

pub prune-Keeps : (now : ℕ) (store : SessionStore) → Keeps 0 store (prune now store)
unfolding prune
prune-Keeps now store = prune_entries-Keeps now store.sessions store

evict_oldest-Keeps : (fuel : ℕ) (store : SessionStore) → Keeps 0 store (evict_oldest fuel store)
unfolding evict_oldest
evict_oldest-Keeps zero store = Keeps-refl store
evict_oldest-Keeps (suc fuel) store =
    elim (Bool-cases (leb store.options.max_sessions (length store.sessions))) [
      | inr room ↦ rw room (Keeps-refl store)
      | inl full ↦ rw full (first (evict_oldest-Keeps fuel) store.sessions)
    ]
  where
    first :
        ((s : SessionStore) → Keeps 0 s (evict_oldest fuel s))
        → (entries : List (String × ℕ))
        → Keeps 0 store
            (elim entries [ [] ↦ store | (oldest, _) ∷ _ ↦ evict_oldest fuel (evict oldest store) ])
    first rest [] = Keeps-refl store
    first rest ((oldest, ref) ∷ _) =
        Keeps-trans 0 0 store (evict oldest store) (evict_oldest fuel (evict oldest store))
          (evict-Keeps oldest store) (rest (evict oldest store))

pub create-Keeps :
    (digest : List ℕ → String) (token : String) (now created : ℕ) (store : SessionStore)
    → Keeps 0 store (create digest token now created store).1
unfolding create
create-Keeps digest token now created store =
    let pruned = prune now store in
    let k =
      Keeps-trans 0 0 store pruned (evict_oldest (length pruned.sessions) pruned)
        (prune-Keeps now store) (evict_oldest-Keeps (length pruned.sessions) pruned) in
    record { options = k.options; grows = k.grows; owner = k.owner }

pub authenticate-Keeps :
    (digest : List ℕ → String) (header : Option String) (now : ℕ) (store : SessionStore)
    → Keeps 0 store (authenticate digest header now store).1
unfolding authenticate
authenticate-Keeps digest header now store = elim (Option-cases (token_of header)) [
  | inl e ↦ rw (authenticate, e) (Keeps-refl store)
  | inr (token, e) ↦ rw (authenticate, e) (prune-Keeps now store)
]

pub mark_decided-Keeps :
    (ref : ℕ) (id : String) (store : SessionStore) → Keeps 0 store (mark_decided ref id store)
unfolding mark_decided
mark_decided-Keeps ref id store =
    elim (Bool-cases (same (get id store.owners) (key_of ref store))) [
      | inl e ↦ rw e (record { options = refl; grows = omega arith; owner = λ i k h. inl h })
      | inr e ↦ rw e (Keeps-refl store)
    ]

trim_owners-fits :
    (max_owned : ℕ) (owners : List (String × String))
    → length owners ≤ max_owned
    → trim_owners max_owned owners ≡ owners
unfolding trim_owners
trim_owners-fits max_owned [] h = refl
trim_owners-fits max_owned ((id, owner) ∷ owners) h = ground (arith, h)

-- A claim of a store that has room takes an id that nobody owns, and leaves the owners of the rest.
pub claim_invocation-Keeps :
    (ref : ℕ) (id : String) (store : SessionStore)
    → suc (length store.owners) ≤ store.options.max_owned
    → Keeps 1 store (claim_invocation ref id store).1
unfolding claim_invocation
claim_invocation-Keeps ref id store room = elim (Option-cases (object_at ref store.objects)) [
  | inl e ↦ rw (claim_invocation, e) still
  | inr (session, e) ↦ elim (Option-cases (get id store.owners)) [
    | inr (owner, o) ↦ elim (Bool-cases (owner == session.key)) [
      | inl mine ↦ rw (claim_invocation, e, o, mine) still
      | inr other ↦ rw (claim_invocation, e, o, other) still
    ]
    | inl o ↦ elim (Bool-cases (leb store.options.max_invocations (length session.invocations))) [
      | inl full ↦ rw (claim_invocation, e, o, full) still
      | inr space ↦ rw (claim_invocation, e, o, space) (taken session.key o)
    ]
  ]
]
  where
    still : Keeps 1 store store
    still = record { options = refl; grows = omega arith; owner = λ i k h. inl h }

    taken :
        (key : String)
        → get id store.owners ≡ none
        → Keeps 1 store (take_invocation ref key id store)
    taken key o =
        let grown = length-set id key store.owners in
        let fits =
          trim_owners-fits store.options.max_owned (set id key store.owners)
            (omega (arith, room, grown)) in
        unfold take_invocation in
        record {
          options = refl;
          grows = rw fits (omega (arith, grown));
          owner = λ i k h. rw fits (elim (Bool-cases (i == id)) [
            | inl here ↦ let it : i ≡ id = ground arith in absurd (cc (it, o, h))
            | inr elsewhere ↦ inl (get-set i id key store.owners ∙ rw elsewhere h)
          ]);
        }
