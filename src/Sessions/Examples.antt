-- ===== src/Sessions/Examples.antt =====
-- Sessions on concrete data.
use virtual_haibin.Prelude.{
  ℕ, ◌+◌, ◌≤◌, String, String-discrete, false, some, List, [], ◌∷◌, length, ◌≡◌, ◌≢◌, refl, arith,
  eqb, if◌then◌else◌, ◌==◌,
}
use virtual_haibin.Sessions.{
  Session, SessionStore, foreign, get, set, object_at, change_object, claim_invocation,
  take_invocation, trim_owners, mark_decided, can_read_evidence, key_of, create, prune,
  prune_entries, evict_oldest, new_session, evict, retire_all, delete, retired,
}
use virtual_haibin.Sessions.Isolation.{
  Event, creating, claiming, deciding, react, react_all, never_handed_over,
}
use virtual_haibin.Sessions.Bounds.{create_is_bounded}

-- A parameter in place of the SHA-256 of a token.
abbrev digest : List ℕ → String
digest [] = "k"
digest (c ∷ _) = if eqb c b'a' then "ka" else "kb"

abbrev session_b : Session
session_b = new_session "kb" 1 100

-- Two sessions; the first has claimed an id.
abbrev store_1 : SessionStore
store_1 = record {
  options = record { ttl_ms = 100; max_sessions = 2; max_invocations = 5; max_owned = 50 };
  objects = record (new_session "ka" 0 100) { invocations = "i1" ∷ [] } ∷ session_b ∷ [];
  sessions = ("ka", 0) ∷ ("kb", 1) ∷ [];
  owners = ("i1", "ka") ∷ [];
}

abbrev later : List Event
later = claiming 1 "i1" ∷ deciding 1 "i1" ∷ creating "c" 120 120 ∷ []

ne_of_test : (s t : String) → (s == t) ≡ false → s ≢ t
ne_of_test s t h = ground arith

other_key : session_b.key ≢ "ka"
unfolding String-discrete
other_key = ne_of_test "kb" "ka" refl

live_key : session_b.key ≢ retired
unfolding String-discrete
live_key = ne_of_test "kb" retired refl

owned_1 : get "i1" store_1.owners ≡ some "ka"
unfolding get String-discrete
owned_1 = refl

room_1 : length store_1.owners + length later ≤ 50
room_1 = omega arith

there_1 : object_at 1 (react_all digest later store_1).objects ≡ some session_b
unfolding react_all react create prune prune_entries evict_oldest evict retire_all delete set get
    claim_invocation take_invocation mark_decided key_of object_at change_object trim_owners
    String-discrete
there_1 = refl

never_handed_over_example :
    (claim_invocation 1 "i1" (react_all digest later store_1)
      ≡ (foreign, react_all digest later store_1))
    × (can_read_evidence 1 "i1" (react_all digest later store_1) ≡ false)
never_handed_over_example =
    never_handed_over digest later store_1 "i1" "ka" 1 session_b owned_1 room_1 there_1 other_key
      live_key

create_is_bounded_example : length (create digest "c" 2 2 store_1).1.sessions ≤ 2
create_is_bounded_example = create_is_bounded digest "c" 2 2 store_1
