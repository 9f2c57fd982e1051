-- ===== src/Store/Ledger/Methods.antt =====
-- Every method on one invocation keeps the tables sound and takes an edge, whatever its arguments.
use Prim.Native.String.{◌++◌ as concat}
use virtual_haibin.Prelude.{
  ℕ, String, true, some, [], ◌∷◌, ◌++◌, ◌≡◌, refl, arith, ◌⊎◌, inl, inr, Option-cases, Bool-cases,
}
use virtual_haibin.Store.{
  InvocationState, InvocationRecord, Db, ConfirmPayment, StoreError, ReconciliationOutcome, settled,
  not_settled, reserved, confirmed, failed, reconciliation_required, same_state,
  invalid_state_transition, missing_invocation,
}
use virtual_haibin.Store.Monad.{ok, thrown, transaction}
use virtual_haibin.Store.Table.{find_invocation, update_invocation}
use virtual_haibin.Store.Table.Rows.{All-find}
use virtual_haibin.Store.Statements.{set_state, require_state, require_invocation}
use virtual_haibin.Store.Operations.{
  fail, fail_body, confirm, confirm_body, set_confirmed, resolve_reconciliation,
  resolve_reconciliation_body, set_resolved, mark_reconciliation_required,
  mark_reconciliation_required_body,
}
use virtual_haibin.Store.Ledger.{IsOwned, IsSound}
use virtual_haibin.Store.Ledger.Settling.{backed}
use virtual_haibin.Store.Ledger.Outcomes.{
  moved, transition_state-eval, require_state-eval, unpaid-check, fail-eval, confirm-eval,
  resolve_settled-eval, resolve_not_settled-eval,
}
use virtual_haibin.Store.Ledger.Sound.{Keeps, release-Books, consume-Books, same-Books}
use virtual_haibin.Store.Ledger.Effects.{
  confirms, releases, suspends, settles, abandons, unchanged, moves, Effect, KeepsGrants-refl,
  KeepsGrants-amounts,
}

-- Whether `#requireState` lets the method go on.
pub require_state-cases :
    (id : String) (expected : InvocationState) (db : Db)
    → ((row : InvocationRecord) × (find_invocation id db.invocations ≡ some row)
        × (row.state ≡ expected))
      ⊎ ((e : StoreError) × (require_state id expected db ≡ thrown e))
unfolding require_state require_invocation
require_state-cases id expected db = elim (Option-cases (find_invocation id db.invocations)) [
  | inl missing ↦ inr (missing_invocation id, ground arith)
  | inr (row, e) ↦ elim (Bool-cases (same_state row.state expected)) [
    | inl same ↦ inl (row, e, same_state-eq row.state expected same)
    | inr other ↦ inr (invalid_state_transition id, ground arith)
  ]
]
  where
    same_state-eq : (s t : InvocationState) → same_state s t ≡ true → s ≡ t
    same_state-eq s t h = ground arith

pub unpaid-Keeps :
    (to : InvocationState) (reason : String) (now : ℕ) (row : InvocationRecord)
    → ¬ (to ≡ confirmed)
    → Keeps row (set_state to reason now row)
unpaid-Keeps to reason now row d = record {
  issuer = refl;
  grant_id = refl;
  fingerprint = refl;
  amount = refl;
  paid = λ h. absurd (d h);
}

module _ (issuer_of grant_id_of : String → String) where
  -- What a method that began at `db` leaves.
  abbrev pub Good : Db → Db → Type 0
  Good db db' = IsSound issuer_of grant_id_of db' × Effect db db'

  pub Good-refl : (db : Db) → IsSound issuer_of grant_id_of db → Good db db
  Good-refl db sound =
      (sound, record { rows = unchanged refl; grants = KeepsGrants-refl db.grants })

  module _ (db : Db) (sound : IsSound issuer_of grant_id_of db) (id : String) where
    pub fail-Good : (reason : String) (now : ℕ) → Good db (fail id reason now db).1
    fail-Good reason now = elim (require_state-cases id reserved db) [
      | inr (e, h) ↦
          let stays : fail id reason now db ≡ (thrown e, db) =
            unfold fail fail_body transaction in ground (arith, h) in
          rw stays (Good-refl db sound)
      | inl (row, found, s) ↦
          let (g, granted, own, le) = backed issuer_of grant_id_of db sound id row found (rw s) in
          rw
            (fail-eval issuer_of grant_id_of db sound id row found (rw s) g granted own le reason
              now s)
            (
              release-Books issuer_of grant_id_of db sound id (set_state failed reason now) row
                  found (rw s) g granted own le (unpaid-Keeps failed reason now row (λ h. cc)) now
                  refl refl,
              record {
                rows =
                    moves id row (set_state failed reason now) found (releases reason now s) refl;
                grants = KeepsGrants-amounts _ _ now db.grants g own;
              },
            )
    ]

    pub confirm-Good : (payment : ConfirmPayment) (now : ℕ) → Good db (confirm id payment now db).1
    confirm-Good payment now = elim (require_state-cases id reserved db) [
      | inr (e, h) ↦
          let stays : confirm id payment now db ≡ (thrown e, db) =
            unfold confirm confirm_body transaction in ground (arith, h) in
          rw stays (Good-refl db sound)
      | inl (row, found, s) ↦
          let (g, granted, own, le) = backed issuer_of grant_id_of db sound id row found (rw s) in
          rw
            (confirm-eval issuer_of grant_id_of db sound id row found (rw s) g granted own le
              payment now s)
            (
              consume-Books issuer_of grant_id_of db sound id (set_confirmed payment now) row found
                  (rw s) g granted own le
                  (record {
                    issuer = refl;
                    grant_id = refl;
                    fingerprint = refl;
                    amount = refl;
                    paid = λ h. refl;
                  })
                  now refl refl,
              record {
                rows = moves id row (set_confirmed payment now) found (confirms payment now s) refl;
                grants = KeepsGrants-amounts _ _ now db.grants g own;
              },
            )
    ]

    pub resolve-Good :
        (outcome : ReconciliationOutcome) (now : ℕ)
        → Good db (resolve_reconciliation id outcome now db).1
    resolve-Good outcome now = elim (require_state-cases id reconciliation_required db) [
      | inr (e, h) ↦
          let stays : resolve_reconciliation id outcome now db ≡ (thrown e, db) =
            unfold resolve_reconciliation resolve_reconciliation_body transaction in
            ground (arith, h) in
          rw stays (Good-refl db sound)
      | inl (row, found, s) ↦ resolved outcome now row found s
    ]
      where
        resolved :
            (outcome : ReconciliationOutcome) (now : ℕ) (row : InvocationRecord)
            → find_invocation id db.invocations ≡ some row
            → row.state ≡ reconciliation_required
            → Good db (resolve_reconciliation id outcome now db).1
        resolved (settled settlement) now row found s =
            let (g, granted, own, le) = backed issuer_of grant_id_of db sound id row found (rw s) in
            rw
              (resolve_settled-eval issuer_of grant_id_of db sound id row found (rw s) g granted own
                le settlement now s)
              (
                consume-Books issuer_of grant_id_of db sound id (set_resolved settlement now) row
                    found (rw s) g granted own le
                    (record {
                      issuer = refl;
                      grant_id = refl;
                      fingerprint = refl;
                      amount = refl;
                      paid = λ h. refl;
                    })
                    now refl refl,
                record {
                  rows =
                      moves id row (set_resolved settlement now) found (settles settlement now s)
                        refl;
                  grants = KeepsGrants-amounts _ _ now db.grants g own;
                },
              )
        resolved (not_settled reason) now row found s =
            let why = concat "reconciled: " reason in
            let (g, granted, own, le) = backed issuer_of grant_id_of db sound id row found (rw s) in
            rw
              (resolve_not_settled-eval issuer_of grant_id_of db sound id row found (rw s) g granted
                own le reason now s)
              (
                release-Books issuer_of grant_id_of db sound id (set_state failed why now) row found
                    (rw s) g granted own le (unpaid-Keeps failed why now row (λ h. cc)) now refl
                    refl,
                record {
                  rows = moves id row (set_state failed why now) found (abandons why now s) refl;
                  grants = KeepsGrants-amounts _ _ now db.grants g own;
                },
              )

    pub mark-Good :
        (reason : String) (now : ℕ) → Good db (mark_reconciliation_required id reason now db).1
    mark-Good reason now = elim (require_state-cases id reserved db) [
      | inr (e, h) ↦
          let stays : mark_reconciliation_required id reason now db ≡ (thrown e, db) =
            unfold mark_reconciliation_required mark_reconciliation_required_body transaction in
            ground (arith, h) in
          rw stays (Good-refl db sound)
      | inl (row, found, s) ↦
          let a =
            (All-find (IsOwned issuer_of grant_id_of db.grants) id db.invocations row sound.owned
              found).amount_check in
          let goes : mark_reconciliation_required id reason now db ≡ (
            ok tt,
            record db {
              invocations =
                  update_invocation id (set_state reconciliation_required reason now)
                    db.invocations;
              transitions =
                  db.transitions
                  ++ moved id (some reserved) reconciliation_required (some reason) now ∷ [];
            },
          ) =
            unfold mark_reconciliation_required mark_reconciliation_required_body transaction in
            ground (
              arith,
              require_state-eval id reserved db row found s,
              transition_state-eval id reserved reconciliation_required reason now db row found
                  (rw s) (unpaid-check (set_state reconciliation_required reason now row) a refl),
            ) in
          rw goes (
            same-Books issuer_of grant_id_of db sound id
                (set_state reconciliation_required reason now) row found
                (unpaid-Keeps reconciliation_required reason now row (λ h. cc)) (rw s) (rw s),
            record {
              rows =
                  moves id row (set_state reconciliation_required reason now) found
                    (suspends reason now s) refl;
              grants = KeepsGrants-refl db.grants;
            },
          )
    ]
