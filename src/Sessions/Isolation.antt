-- ===== src/Sessions/Isolation.antt =====
-- Sessions do not get at each other's invocations, over any sequence of calls.
use virtual_haibin.Prelude.{
  ℕ, suc, ◌+◌, ◌≤◌, String, false, Option, some, List, [], ◌∷◌, length, ◌≡◌, ◌≢◌, inl, inr, sym,
  arith,
}
use virtual_haibin.Sessions.{
  Session, SessionStore, foreign, retired, get, object_at, claim_invocation, mark_decided,
  can_read_evidence, create, authenticate, size,
}
use virtual_haibin.Sessions.Ownership.{
  Keeps, Keeps-refl, Keeps-trans, create-Keeps, authenticate-Keeps, mark_decided-Keeps,
  claim_invocation-Keeps, prune-Keeps,
}

-- A call of the session store. A reference is any: callers keep the objects of ended sessions.
pub data Event : Type 0 where
  creating : String → ℕ → ℕ → Event
  authenticating : Option String → ℕ → Event
  claiming : ℕ → String → Event
  deciding : ℕ → String → Event
  sizing : ℕ → Event

module _ (digest : List ℕ → String) where
  unfoldable pub react : Event → SessionStore → SessionStore
  react (creating token now created) store = (create digest token now created store).1
  react (authenticating header now) store = (authenticate digest header now store).1
  react (claiming ref id) store = (claim_invocation ref id store).1
  react (deciding ref id) store = mark_decided ref id store
  react (sizing now) store = (size now store).1

  unfoldable pub react_all : List Event → SessionStore → SessionStore
  react_all [] store = store
  react_all (event ∷ events) store = react_all events (react event store)

  widen : (store after : SessionStore) → Keeps 0 store after → Keeps 1 store after
  widen store after k = record {
    options = k.options;
    grows = omega (arith, k.grows);
    owner = k.owner;
  }

  react-Keeps :
      (event : Event) (store : SessionStore)
      → suc (length store.owners) ≤ store.options.max_owned
      → Keeps 1 store (react event store)
  unfolding react
  react-Keeps (creating token now created) store room =
      widen store _ (create-Keeps digest token now created store)
  react-Keeps (authenticating header now) store room =
      widen store _ (authenticate-Keeps digest header now store)
  react-Keeps (claiming ref id) store room = claim_invocation-Keeps ref id store room
  react-Keeps (deciding ref id) store room = widen store _ (mark_decided-Keeps ref id store)
  react-Keeps (sizing now) store room = widen store _ (unfold size in prune-Keeps now store)

  react_all-Keeps :
      (events : List Event) (store : SessionStore)
      → length store.owners + length events ≤ store.options.max_owned
      → Keeps (length events) store (react_all events store)
  unfolding react_all
  react_all-Keeps [] store room = Keeps-refl store
  react_all-Keeps (event ∷ events) store room =
      let k = react-Keeps event store (omega (arith, room)) in
      let rest =
        react_all-Keeps events (react event store) (rw k.options (omega (arith, room, k.grows))) in
      let counted : suc (length events) ≡ 1 + length events = omega arith in
      rw counted (
        Keeps-trans 1 (length events) store (react event store)
          (react_all events (react event store)) k rest)

  claim-foreign :
      (store : SessionStore) (ref : ℕ) (id owner : String) (session : Session)
      → get id store.owners ≡ some owner
      → object_at ref store.objects ≡ some session
      → owner ≢ session.key
      → (claim_invocation ref id store ≡ (foreign, store))
        × (can_read_evidence ref id store ≡ false)
  unfolding claim_invocation can_read_evidence
  claim-foreign store ref id owner session o s d =
      (ground (arith, o, s, d), ground (arith, o, s, d))

  -- An invocation id is never handed over: once it is owned under a key, as long as the number of
  -- owned ids and of the calls together is at most the bound on remembered owners, after any sequence
  -- of calls, by holders of any session, a session of another key is refused the id as foreign, which
  -- changes nothing, and cannot read its evidence.
  pub never_handed_over :
      (events : List Event) (store : SessionStore) (id key : String) (ref : ℕ) (session : Session)
      → get id store.owners ≡ some key
      → length store.owners + length events ≤ store.options.max_owned
      → object_at ref (react_all events store).objects ≡ some session
      → session.key ≢ key
      → session.key ≢ retired
      → (claim_invocation ref id (react_all events store) ≡ (foreign, react_all events store))
        × (can_read_evidence ref id (react_all events store) ≡ false)
  never_handed_over events store id key ref session owned room there other live =
      let after = react_all events store in
      elim ((react_all-Keeps events store room).owner id key owned) [
        | inl e ↦ claim-foreign after ref id key session e there (λ p. other (sym p))
        | inr e ↦ claim-foreign after ref id retired session e there (λ p. live (sym p))
      ]
