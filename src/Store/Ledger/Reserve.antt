-- ===== src/Store/Ledger/Reserve.antt =====
-- `reserve`, whatever the evaluator answers.
use virtual_haibin.Prelude.{
  ℕ, String, true, not, ◌||◌, Option, none, some, [], ◌∷◌, ◌++◌, ◌≡◌, refl, arith, inl, inr,
  Bool-cases, Option-cases, ◌==◌,
}
use virtual_haibin.Decimal.{atomic_check}
use virtual_haibin.Store.{
  InvocationRecord, GrantRecord, Db, ReserveInput, ReserveResult, BudgetDecision, allowed, refused,
  existing, constraint_failed,
}
use virtual_haibin.Store.Monad.{Action, ok, thrown, Ends, Ends-map, Ends-transaction}
use virtual_haibin.Store.Table.{find_invocation, find_grant}
use virtual_haibin.Store.Table.Rows.{find_grant-append}
use virtual_haibin.Store.Statements.{grant_check, insert_grant, require_grant}
use virtual_haibin.Store.Operations.{
  pinned, conflicting, pin_grant, decide_budget, decide, is_retry, reserve_body, reserve,
  write_denial, write_reservation,
}
use virtual_haibin.Store.Ledger.{IsSound}
use virtual_haibin.Store.Ledger.Writes.{new_grant-Books}
use virtual_haibin.Store.Ledger.Effects.{KeepsGrants-trans, KeepsGrants-append}
use virtual_haibin.Store.Ledger.Methods.{Good, Good-refl}
use virtual_haibin.Store.Ledger.Reserving.{Replaces, IsCoherent}
use virtual_haibin.Store.Ledger.Budget.{relabel, denial-Ends, reservation-Ends}

-- The row that `insertGrant` writes.
abbrev new_grant : ReserveInput → ℕ → GrantRecord
new_grant input now = record {
  issuer = input.grant.issuer;
  grant_id = input.grant.grant_id;
  permit_digest = input.grant.permit_digest;
  max_total_atomic = input.grant.max_total_atomic;
  reserved_atomic = "0";
  consumed_atomic = "0";
  created_at = now;
  updated_at = now;
}

abbrev granted_db : ReserveInput → ℕ → Db → Db
granted_db input now db = record db { grants = db.grants ++ new_grant input now ∷ [] }

grant_check-total :
    (g : GrantRecord) → grant_check g ≡ true → atomic_check g.max_total_atomic ≡ true
unfolding grant_check
grant_check-total g h = ground arith

module _ (issuer_of grant_id_of : String → String) (input : ReserveInput)
    (evaluate : String → BudgetDecision) (coherent : IsCoherent issuer_of grant_id_of input)
    (old : Option InvocationRecord) (now : ℕ) where
  budget-Ends :
      (db : Db)
      → IsSound issuer_of grant_id_of db
      → Replaces input old db
      → (g : GrantRecord) → find_grant input.grant.issuer input.grant.grant_id db.grants ≡ some g
      → Ends (Good issuer_of grant_id_of db) (decide_budget input evaluate old now (pinned g) db)
  budget-Ends db sound replaces g granted = unfold decide_budget in split (evaluate _)
    where
      split :
          (d : BudgetDecision)
          → Ends (Good issuer_of grant_id_of db) (
              (elim d as (λ _. Action ReserveResult) [
                | refused codes ↦ write_denial input old codes now
                | allowed ↦ write_reservation input old g now
              ])
                db)
      split (refused codes) =
          denial-Ends issuer_of grant_id_of input coherent old now db sound replaces g granted codes
      split allowed =
          reservation-Ends issuer_of grant_id_of input coherent old now db sound replaces g granted

  module _ (db : Db) (sound : IsSound issuer_of grant_id_of db)
      (replaces : Replaces input old db) where
    -- What is good after the grant is inserted is good.
    after_grant :
        (db' : Db)
        → find_grant input.grant.issuer input.grant.grant_id db.grants ≡ none
        → Good issuer_of grant_id_of (granted_db input now db) db'
        → Good issuer_of grant_id_of db db'
    after_grant db' absent (sound', effect) = (
      sound',
      record {
        rows = relabel db (granted_db input now db) db' refl effect.rows;
        grants =
            KeepsGrants-trans db.grants (granted_db input now db).grants db'.grants
              (KeepsGrants-append db.grants (new_grant input now) absent) effect.grants;
      },
    )

    pub decide-Ends : Ends (Good issuer_of grant_id_of db) (decide input evaluate old now db)
    decide-Ends =
        elim (Option-cases (find_grant input.grant.issuer input.grant.grant_id db.grants)) [
          | inr (g, granted) ↦
              elim (Bool-cases (
                not (g.permit_digest == input.grant.permit_digest)
                || not (g.max_total_atomic == input.grant.max_total_atomic))) [
                  | inl conflict ↦
                      let stops : decide input evaluate old now db
                          ≡ decide_budget input evaluate old now (conflicting g) db =
                        unfold decide pin_grant in ground (arith, granted, conflict) in
                      rw stops (unfold decide_budget in Good-refl issuer_of grant_id_of db sound)
                  | inr same ↦
                      let goes : decide input evaluate old now db
                          ≡ decide_budget input evaluate old now (pinned g) db =
                        unfold decide pin_grant in ground (arith, granted, same) in
                      rw goes (budget-Ends db sound replaces g granted)
                ]
          | inl absent ↦ elim (Bool-cases (grant_check (new_grant input now))) [
            | inr bad ↦
                let stops : decide input evaluate old now db ≡ thrown constraint_failed =
                  unfold decide pin_grant insert_grant in ground (arith, absent, bad) in
                rw stops tt
            | inl good ↦
                let here =
                  find_grant-append input.grant.issuer input.grant.grant_id db.grants
                    (new_grant input now) absent refl refl in
                let goes : decide input evaluate old now db
                    ≡ decide_budget input evaluate old now (pinned (new_grant input now))
                        (granted_db input now db) =
                  unfold decide pin_grant insert_grant require_grant in
                  ground (arith, absent, good, here) in
                rw goes (
                  Ends-map (Good issuer_of grant_id_of (granted_db input now db))
                    (Good issuer_of grant_id_of db)
                    (decide_budget input evaluate old now (pinned (new_grant input now))
                      (granted_db input now db))
                    (budget-Ends (granted_db input now db)
                      (new_grant-Books issuer_of grant_id_of db.grants db.invocations
                        (new_grant input now) sound absent
                        (grant_check-total (new_grant input now) good) refl refl)
                      (same_rows old replaces) (new_grant input now) here)
                    (λ db' h. after_grant db' absent h))
          ]
        ]
      where
        same_rows :
            (o : Option InvocationRecord)
            → Replaces input o db
            → Replaces input o (granted_db input now db)
        same_rows none h = h
        same_rows (some row) h = h

-- `reserve` keeps the tables sound and changes them only along the edges, whatever its evaluator
-- answers.
pub reserve-Good :
    (issuer_of grant_id_of : String → String) (input : ReserveInput)
    (evaluate : String → BudgetDecision) (now : ℕ) (db : Db)
    → IsCoherent issuer_of grant_id_of input
    → IsSound issuer_of grant_id_of db
    → Good issuer_of grant_id_of db (reserve input evaluate now db).1
reserve-Good issuer_of grant_id_of input evaluate now db coherent sound =
    unfold reserve in
    Ends-transaction (Good issuer_of grant_id_of db) (reserve_body input evaluate now) db
      (Good-refl issuer_of grant_id_of db sound) body
  where
    body : Ends (Good issuer_of grant_id_of db) (reserve_body input evaluate now db)
    body = elim (Option-cases (find_invocation input.invocation_id db.invocations)) [
      | inl absent ↦
          let goes : reserve_body input evaluate now db ≡ decide input evaluate none now db =
            unfold reserve_body in ground (arith, absent) in
          rw goes
            (decide-Ends issuer_of grant_id_of input evaluate coherent none now db sound absent)
      | inr (row, found) ↦ elim (Bool-cases (is_retry row input)) [
        | inr known ↦
            let stops : reserve_body input evaluate now db ≡ ok (existing row, db) =
              unfold reserve_body in ground (arith, found, known) in
            rw stops (Good-refl issuer_of grant_id_of db sound)
        | inl retry ↦
            let goes : reserve_body input evaluate now db
                ≡ decide input evaluate (some row) now db =
              unfold reserve_body in ground (arith, found, retry) in
            rw goes (
              decide-Ends issuer_of grant_id_of input evaluate coherent (some row) now db sound
                (found, ground arith, ground arith))
      ]
    ]
