-- ===== src/Sessions/Bounds.antt =====
-- How many sessions are live.
use virtual_haibin.Prelude.{
  ℕ, zero, suc, ◌≤◌, ◌<◌, String, List, [], ◌∷◌, leb, length, ◌≡◌, refl, ap, arith, inl, inr,
  Bool-cases,
}
use virtual_haibin.Sessions.{SessionStore, get, delete, evict, evict_oldest, prune, create}
use virtual_haibin.Sessions.Ownership.{length-set, prune-Keeps}

-- Evicting the oldest session leaves the others.
evict-oldest :
    (store : SessionStore) (key : String) (ref : ℕ) (rest : List (String × ℕ))
    → store.sessions ≡ (key, ref) ∷ rest
    → ((evict key store).sessions ≡ rest) × ((evict key store).options ≡ store.options)
unfolding evict get delete
evict-oldest store key ref rest h = rw h (ground arith)

-- The number of the entries is enough fuel: there is room afterwards.
evict_oldest-room :
    (fuel bound : ℕ) (store : SessionStore)
    → length store.sessions ≤ fuel
    → store.options.max_sessions ≤ bound
    → 1 ≤ bound
    → length (evict_oldest fuel store).sessions < bound
unfolding evict_oldest
evict_oldest-room zero bound store h m b = omega (arith, h, b)
evict_oldest-room (suc fuel) bound store h m b =
    elim (Bool-cases (leb store.options.max_sessions (length store.sessions))) [
      | inr room ↦ rw room (ground arith)
      | inl full ↦ rw full (first (evict_oldest-room fuel bound) store.sessions refl)
    ]
  where
    first :
        ((s : SessionStore)
          → length s.sessions ≤ fuel
          → s.options.max_sessions ≤ bound
          → 1 ≤ bound
          → length (evict_oldest fuel s).sessions < bound)
        → (entries : List (String × ℕ)) → store.sessions ≡ entries
        → length
            (elim entries as (λ _. SessionStore) [
              | [] ↦ store
              | (oldest, _) ∷ _ ↦ evict_oldest fuel (evict oldest store)
            ]).sessions
          < bound
    first ih [] e = rw e (omega (arith, b))
    first ih ((oldest, ref) ∷ rest) e =
        let (left, options) = evict-oldest store oldest ref rest e in
        let fewer : length store.sessions ≡ suc (length rest) = ap length e in
        ih (evict oldest store) (omega (arith, fewer, h, ap length left))
          (omega (arith, m, ap (λ o. o.max_sessions) options)) b

-- A limit of none leaves room for one: the session that is created.
abbrev pub limit_of : ℕ → ℕ
limit_of zero = 1
limit_of (suc n) = suc n

limit_of-bounds : (n : ℕ) → (n ≤ limit_of n) × (1 ≤ limit_of n)
limit_of-bounds zero = (omega arith, omega arith)
limit_of-bounds (suc n) = (omega arith, omega arith)

-- However many sessions are live before, after `create` at most `maxSessions` are, or one where
-- `maxSessions` is 0: `create` makes room first, and the loop that makes it ends.
pub create_is_bounded :
    (digest : List ℕ → String) (token : String) (now created : ℕ) (store : SessionStore)
    → length (create digest token now created store).1.sessions
      ≤ limit_of store.options.max_sessions
unfolding create
create_is_bounded digest token now created store =
    let pruned = prune now store in
    let (fits, some_room) = limit_of-bounds store.options.max_sessions in
    let same = ap (λ o. o.max_sessions) (prune-Keeps now store).options in
    let less =
      evict_oldest-room (length pruned.sessions) (limit_of store.options.max_sessions) pruned
        (omega arith) (omega (arith, same, fits)) some_room in
    let room' = evict_oldest (length pruned.sessions) pruned in
    omega (arith, less, length-set (digest _) (length room'.objects) room'.sessions)
