-- ===== src/Store/Ledger/History.antt =====
-- Sequences of calls of the store, in any order and with any arguments.
use virtual_haibin.Prelude.{ℕ, ◌+◌, ◌≤◌, String, Option, some, List, [], ◌∷◌, ◌≡◌, arith}
use virtual_haibin.Decimal.{big_int}
use virtual_haibin.Payments.{PaymentAttempt}
use virtual_haibin.Evidence.{SignedServiceAuthorizationV1, SignedAuthorizationReceipt}
use virtual_haibin.Store.{
  Db, ReserveInput, BudgetDecision, ConfirmPayment, ReconciliationOutcome, GrantRecord,
}
use virtual_haibin.Store.Table.{find_grant}
use virtual_haibin.Store.Operations.{
  reserve, record_payment_attempt, confirm, resolve_reconciliation, fail,
  mark_reconciliation_required, attach_receipt,
}
use virtual_haibin.Store.Recovery.{recover_interrupted_invocations}
use virtual_haibin.Store.Ledger.{held, spent, IsSound}
use virtual_haibin.Store.Ledger.Effects.{KeepsGrants, KeepsGrants-refl, KeepsGrants-trans}
use virtual_haibin.Store.Ledger.Methods.{Good, fail-Good, confirm-Good, resolve-Good, mark-Good}
use virtual_haibin.Store.Ledger.Records.{attempt-Good, receipt-Good}
use virtual_haibin.Store.Ledger.Reserving.{IsCoherent}
use virtual_haibin.Store.Ledger.Reserve.{reserve-Good}
use virtual_haibin.Store.Ledger.Recovering.{Run, done, step, Run-trans, GoodRun, recover-GoodRun}

-- A call of a method that changes state, at a reading of the clock.
pub data Call : Type 0 where
  reserving : ReserveInput → (String → BudgetDecision) → ℕ → Call
  attempting : String → PaymentAttempt → Option SignedServiceAuthorizationV1 → ℕ → Call
  confirming : String → ConfirmPayment → ℕ → Call
  resolving : String → ReconciliationOutcome → ℕ → Call
  failing : String → String → ℕ → Call
  suspending : String → String → ℕ → Call
  receipting : String → SignedAuthorizationReceipt → ℕ → Call
  recovering : String → ℕ → Call

unfoldable pub perform : Call → Db → Db
perform (reserving input evaluate now) db = (reserve input evaluate now db).1
perform (attempting id attempt authorization now) db =
    (record_payment_attempt id attempt authorization now db).1
perform (confirming id payment now) db = (confirm id payment now db).1
perform (resolving id outcome now) db = (resolve_reconciliation id outcome now db).1
perform (failing id reason now) db = (fail id reason now db).1
perform (suspending id reason now) db = (mark_reconciliation_required id reason now db).1
perform (receipting id receipt now) db = (attach_receipt id receipt now db).1
perform (recovering reason now) db = (recover_interrupted_invocations reason now db).1

unfoldable pub perform_all : List Call → Db → Db
perform_all [] db = db
perform_all (call ∷ calls) db = perform_all calls (perform call db)

Run-grants : {db db' : Db} → Run db db' → KeepsGrants db.grants db'.grants
Run-grants {db} done = KeepsGrants-refl db.grants
Run-grants {db} {db'} (step {mid} run effect) =
    KeepsGrants-trans db.grants mid.grants db'.grants (Run-grants run) effect.grants

module _ (issuer_of grant_id_of : String → String) where
  -- Every reservation of the history names the grant of its fingerprint.
  abbrev pub IsCoherentCall : Call → Type 0
  IsCoherentCall (reserving input evaluate now) = IsCoherent issuer_of grant_id_of input
  IsCoherentCall _ = Unit

  abbrev pub AreCoherent : List Call → Type 0
  AreCoherent [] = Unit
  AreCoherent (call ∷ calls) = IsCoherentCall call × AreCoherent calls

  once : (db db' : Db) → Good issuer_of grant_id_of db db' → GoodRun issuer_of grant_id_of db db'
  once db db' g = (g.0, step done g.1)

  pub perform-GoodRun :
      (call : Call) (db : Db)
      → IsCoherentCall call
      → IsSound issuer_of grant_id_of db
      → GoodRun issuer_of grant_id_of db (perform call db)
  unfolding perform
  perform-GoodRun (reserving input evaluate now) db c s =
      once db _ (reserve-Good issuer_of grant_id_of input evaluate now db c s)
  perform-GoodRun (attempting id attempt authorization now) db c s =
      once db _ (attempt-Good issuer_of grant_id_of db s id attempt authorization now)
  perform-GoodRun (confirming id payment now) db c s =
      once db _ (confirm-Good issuer_of grant_id_of db s id payment now)
  perform-GoodRun (resolving id outcome now) db c s =
      once db _ (resolve-Good issuer_of grant_id_of db s id outcome now)
  perform-GoodRun (failing id reason now) db c s =
      once db _ (fail-Good issuer_of grant_id_of db s id reason now)
  perform-GoodRun (suspending id reason now) db c s =
      once db _ (mark-Good issuer_of grant_id_of db s id reason now)
  perform-GoodRun (receipting id receipt now) db c s =
      once db _ (receipt-Good issuer_of grant_id_of db s id receipt now)
  perform-GoodRun (recovering reason now) db c s =
      recover-GoodRun issuer_of grant_id_of db reason now s

  pub perform_all-GoodRun :
      (calls : List Call) (db : Db)
      → AreCoherent calls
      → IsSound issuer_of grant_id_of db
      → GoodRun issuer_of grant_id_of db (perform_all calls db)
  unfolding perform_all
  perform_all-GoodRun [] db c s = (s, done)
  perform_all-GoodRun (call ∷ calls) db (c, cs) s =
      let first = perform-GoodRun call db c s in
      let rest = perform_all-GoodRun calls (perform call db) cs first.0 in
      (rest.0, Run-trans first.1 rest.1)

  -- The budget holds: after any sequence of calls on sound tables, where the fingerprint of every
  -- reservation determines its grant, of every grant the amounts held by its reserved and
  -- unreconciled invocations and those of its confirmed ones together are at most the grant's total,
  -- and they are what its two columns say.
  pub budget_holds :
      (calls : List Call) (db : Db) (issuer grant_id : String) (g : GrantRecord)
      → IsSound issuer_of grant_id_of db
      → AreCoherent calls
      → find_grant issuer grant_id (perform_all calls db).grants ≡ some g
      → (held g.issuer g.grant_id (perform_all calls db).invocations
            + spent g.issuer g.grant_id (perform_all calls db).invocations
          ≤ big_int g.max_total_atomic)
        × (big_int g.reserved_atomic ≡ held g.issuer g.grant_id (perform_all calls db).invocations)
        × (big_int g.consumed_atomic ≡ spent g.issuer g.grant_id (perform_all calls db).invocations)
  budget_holds calls db issuer grant_id g sound coherent found =
      let b = (perform_all-GoodRun calls db coherent sound).0.balanced issuer grant_id g found in
      (omega (arith, b.bounded, b.reserved_sum, b.consumed_sum), b.reserved_sum, b.consumed_sum)

  -- A grant's terms are pinned: on sound tables, no sequence of calls, where the fingerprint of every
  -- reservation determines its grant, removes a grant or changes its permit digest or its total.
  pub grant_terms_pinned :
      (calls : List Call) (db : Db) (issuer grant_id : String) (g : GrantRecord)
      → IsSound issuer_of grant_id_of db
      → AreCoherent calls
      → find_grant issuer grant_id db.grants ≡ some g
      → (g' : GrantRecord) × (find_grant issuer grant_id (perform_all calls db).grants ≡ some g')
        × (g'.permit_digest ≡ g.permit_digest)
        × (g'.max_total_atomic ≡ g.max_total_atomic)
  grant_terms_pinned calls db issuer grant_id g sound coherent found =
      let (g', e, same) =
        Run-grants (perform_all-GoodRun calls db coherent sound).1 issuer grant_id g found in
      (g', e, same.digest, same.total)
