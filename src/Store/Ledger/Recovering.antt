-- ===== src/Store/Ledger/Recovering.antt =====
-- The recovery at startup keeps the tables sound.
use virtual_haibin.Prelude.{
  ℕ, String, true, false, some, List, [], ◌∷◌, ◌≡◌, refl, arith, inl, inr, Bool-cases, Option-cases,
  ltb,
}
use virtual_haibin.Decimal.{atomic_check, big_int}
use virtual_haibin.Store.{
  InvocationState, InvocationRecord, Db, RecoveryResult, StoreError, reserved, failed,
  reconciliation_required, same_state, not_one_change, missing_invocation, missing_grant,
  below_reservation, constraint_failed,
}
use virtual_haibin.Store.Monad.{thrown, continue, Ends, Ends-continue, Ends-transaction}
use virtual_haibin.Store.Table.{find_invocation, find_grant, update_grant}
use virtual_haibin.Store.Table.Rows.{All-find}
use virtual_haibin.Store.Statements.{
  is_some, set_amounts, set_state, grant_check, update_grant_amounts, require_grant, update_one,
  require_invocation, transition_state, release_reservation,
}
use virtual_haibin.Store.Recovery.{
  recover_row, recover_rows, recover_body, recover_interrupted_invocations, never_transmitted,
  add_recovered,
}
use virtual_haibin.Store.Ledger.{IsOwned, IsSound}
use virtual_haibin.Store.Ledger.Settling.{backed, released, release-eval, update_grant_amounts-eval}
use virtual_haibin.Store.Ledger.Outcomes.{transition_state-eval, unpaid-check}
use virtual_haibin.Store.Ledger.Sound.{release-Books, same-Books}
use virtual_haibin.Store.Ledger.Effects.{
  Effect, moves, suspends, releases, KeepsGrants-refl, KeepsGrants-amounts,
}
use virtual_haibin.Store.Ledger.Methods.{Good, unpaid-Keeps}

-- Writes one after the other.
pub data Run (db : Db) : Db → Type 0 where
  done : Run db db
  step : {mid db' : Db} → Run db mid → Effect mid db' → Run db db'

pub Run-trans : {a b c : Db} → Run a b → Run b c → Run a c
Run-trans r done = r
Run-trans r (step s e) = step (Run-trans r s) e

-- A release writes no row of the invocations.
amounts-rows :
    (r c : String) (now : ℕ) (i n : String) (db : Db)
    → Ends (λ db'. db'.invocations ≡ db.invocations) (update_grant_amounts r c now i n db)
unfolding update_grant_amounts
amounts-rows r c now i n db = elim (Option-cases (find_grant i n db.grants)) [
  | inl missing ↦ rw (missing, update_grant_amounts) refl
  | inr (g, e) ↦ elim (Bool-cases (grant_check (set_amounts r c now g))) [
    | inl good ↦ let goes = update_grant_amounts-eval r c now i n db g e good in rw goes refl
    | inr bad ↦
        let stops : update_grant_amounts r c now i n db ≡ thrown constraint_failed =
          unfold update_grant_amounts in ground (arith, e, bad) in
        rw stops tt
  ]
]

release-rows :
    (row : InvocationRecord) (now : ℕ) (db : Db)
    → Ends (λ db'. db'.invocations ≡ db.invocations) (release_reservation row now db)
release-rows row now db = elim (Option-cases (find_grant row.issuer row.grant_id db.grants)) [
  | inl missing ↦
      let stops : release_reservation row now db ≡ thrown (missing_grant row.issuer row.grant_id) =
        unfold release_reservation require_grant in ground (arith, missing) in
      rw stops tt
  | inr (g, e) ↦ elim (Bool-cases (ltb (big_int g.reserved_atomic) (big_int row.amount_atomic))) [
    | inl short ↦
        let stops : release_reservation row now db ≡ thrown (below_reservation row.invocation_id) =
          unfold release_reservation require_grant in ground (arith, e, short) in
        rw stops tt
    | inr enough ↦
        let goes : release_reservation row now db
            ≡ update_grant_amounts (released g row) g.consumed_atomic now g.issuer g.grant_id db =
          unfold release_reservation require_grant in ground (arith, e, enough) in
        rw goes (amounts-rows (released g row) g.consumed_atomic now g.issuer g.grant_id db)
  ]
]

-- A transition from a state that the row is not in throws.
transition-Ends :
    (P : Db → Type 0) (id : String) (from to : InvocationState) (reason : String) (now : ℕ)
    (db : Db) (row : InvocationRecord)
    → find_invocation id db.invocations ≡ some row
    → same_state row.state from ≡ false
    → Ends P (transition_state id from to reason now db)
transition-Ends P id from to reason now db row e other =
    let stops : transition_state id from to reason now db ≡ thrown (not_one_change id) =
      unfold transition_state update_one in ground (arith, e, other) in
    rw stops tt

same_state-eq : (s t : InvocationState) → same_state s t ≡ true → s ≡ t
same_state-eq s t h = ground arith

module _ (issuer_of grant_id_of : String → String) where
  -- What several writes that began at `db` leave.
  abbrev pub GoodRun : Db → Db → Type 0
  GoodRun db db' = IsSound issuer_of grant_id_of db' × Run db db'

  module _ (db : Db) (sound : IsSound issuer_of grant_id_of db) (reason : String) (now : ℕ)
      (id : String) (row : InvocationRecord) (found : find_invocation id db.invocations ≡ some row)
      (s : row.state ≡ reserved) where
    amount_check : atomic_check row.amount_atomic ≡ true
    amount_check =
        (All-find (IsOwned issuer_of grant_id_of db.grants) id db.invocations row sound.owned
          found).amount_check

    suspend-Ends :
        Ends
          (Good issuer_of grant_id_of db)
          (transition_state id reserved reconciliation_required reason now db)
    suspend-Ends =
        rw
          (transition_state-eval id reserved reconciliation_required reason now db row found (rw s)
            (unpaid-check (set_state reconciliation_required reason now row) amount_check refl))
          (
            same-Books issuer_of grant_id_of db sound id
                (set_state reconciliation_required reason now) row found
                (unpaid-Keeps reconciliation_required reason now row (λ h. cc)) (rw s) (rw s),
            record {
              rows =
                  moves id row (set_state reconciliation_required reason now) found
                    (suspends reason now s) refl;
              grants = KeepsGrants-refl db.grants;
            },
          )

    release-Ends : Ends (Good issuer_of grant_id_of db) (
        continue
          (λ _. transition_state id reserved failed reason now)
          (release_reservation row now db))
    release-Ends =
        let (g, granted, own, le) = backed issuer_of grant_id_of db sound id row found (rw s) in
        rw (release-eval issuer_of grant_id_of db sound id row found (rw s) now g granted own le) (
          rw
            (transition_state-eval id reserved failed reason now
              (record db {
                grants =
                    update_grant g.issuer g.grant_id
                      (set_amounts (released g row) g.consumed_atomic now) db.grants;
              })
              row found (rw s) (unpaid-check (set_state failed reason now row) amount_check refl))
            (
              release-Books issuer_of grant_id_of db sound id (set_state failed reason now) row
                  found (rw s) g granted own le (unpaid-Keeps failed reason now row (λ h. cc)) now
                  refl refl,
              record {
                rows =
                    moves id row (set_state failed reason now) found (releases reason now s) refl;
                grants = KeepsGrants-amounts _ _ now db.grants g own;
              },
            ))

  -- One round of the recovery, on any row that a snapshot shows.
  pub recover_row-Ends :
      (db : Db) (reason : String) (now : ℕ) (row : InvocationRecord)
      → IsSound issuer_of grant_id_of db
      → Ends (Good issuer_of grant_id_of db) (recover_row reason now row db)
  recover_row-Ends db reason now row sound =
      elim (Option-cases (find_invocation row.invocation_id db.invocations)) [
        | inl missing ↦
            let stops : (e : StoreError) × (recover_row reason now row db ≡ thrown e) =
              elim (Bool-cases (is_some row.payment_attempt)) [
                | inl yes_attempt ↦ (
                  not_one_change row.invocation_id,
                  unfold recover_row transition_state update_one in
                      ground (arith, missing, yes_attempt),
                )
                | inr no_attempt ↦ (
                  missing_invocation row.invocation_id,
                  unfold recover_row require_invocation in ground (arith, missing, no_attempt),
                )
              ] in
            rw stops.1 tt
        | inr (current, found) ↦ elim (Bool-cases (is_some row.payment_attempt)) [
          | inl yes_attempt ↦
              let goes : recover_row reason now row db
                  ≡ transition_state row.invocation_id reserved reconciliation_required reason now
                      db =
                unfold recover_row in ground (arith, yes_attempt) in
              elim (Bool-cases (same_state current.state reserved)) [
                | inl s ↦ rw goes (
                    suspend-Ends db sound reason now row.invocation_id current found
                      (same_state-eq current.state reserved s))
                | inr other ↦ rw goes (
                    transition-Ends (Good issuer_of grant_id_of db) row.invocation_id reserved
                      reconciliation_required reason now db current found other)
              ]
          | inr no_attempt ↦
              let why = never_transmitted reason in
              let goes : recover_row reason now row db
                  ≡ continue (λ _. transition_state row.invocation_id reserved failed why now)
                      (release_reservation current now db) =
                unfold recover_row require_invocation in ground (arith, no_attempt, found) in
              elim (Bool-cases (same_state current.state reserved)) [
                | inl s ↦ rw goes (
                    release-Ends db sound why now row.invocation_id current found
                      (same_state-eq current.state reserved s))
                | inr other ↦ rw goes (
                    Ends-continue (λ db'. db'.invocations ≡ db.invocations)
                      (Good issuer_of grant_id_of db) _ (release_reservation current now db)
                      (release-rows current now db)
                      (λ _ db' same.
                        transition-Ends (Good issuer_of grant_id_of db) row.invocation_id reserved
                          failed why now db' current (rw same found) other))
              ]
        ]
      ]

  pub recover_rows-Ends :
      (base : Db) (reason : String) (now : ℕ) (rows : List InvocationRecord)
      (result : RecoveryResult) (db : Db)
      → GoodRun base db
      → Ends (GoodRun base) (recover_rows reason now rows result db)
  unfolding recover_rows
  recover_rows-Ends base reason now [] result db good = good
  recover_rows-Ends base reason now (row ∷ rows) result db (sound, run) =
      Ends-continue (Good issuer_of grant_id_of db) (GoodRun base)
        (λ _. recover_rows reason now rows (add_recovered row result))
        (recover_row reason now row db) (recover_row-Ends db reason now row sound)
        (λ _ db' g.
          recover_rows-Ends base reason now rows (add_recovered row result) db' (g.0, step run g.1))

  -- The recovery keeps the tables sound, and changes them only along the edges.
  pub recover-GoodRun :
      (db : Db) (reason : String) (now : ℕ)
      → IsSound issuer_of grant_id_of db
      → GoodRun db (recover_interrupted_invocations reason now db).1
  recover-GoodRun db reason now sound =
      unfold recover_interrupted_invocations in
      Ends-transaction (GoodRun db) (recover_body reason now) db (sound, done)
        (unfold recover_body in recover_rows-Ends db reason now _ _ db (sound, done))
