-- ===== src/Authority/Keeps/Reconciling.antt =====
-- `reconcile` and the startup recovery keep the tables sound.
use virtual_haibin.Prelude.{ℕ, String, Option, none, some, List, [], ◌∷◌}
use virtual_haibin.Payments.{
  PaymentAttempt, SettlementLookup, confirmed, failed_onchain, expired, pending, inconclusive,
  ConfirmedSettlement,
}
use virtual_haibin.Store.{
  InvocationRecord, invalid_state_transition, ReconciliationOutcome, settled, not_settled,
}
use virtual_haibin.Store.Operations.{resolve_reconciliation}
use virtual_haibin.Store.Recovery.{recover_interrupted_invocations, list_reconciliation_required}
use virtual_haibin.Store.Ledger.Methods.{resolve-Good}
use virtual_haibin.Store.Ledger.Recovering.{recover-GoodRun}
use virtual_haibin.Store.Ledger.History.{AreCoherent}
use virtual_haibin.Authority.{
  Externals, AuthorityOptions, PaymentProvider, AuthorityError, LookupReply, store_failed,
}
use virtual_haibin.Authority.Monad.{Schedule, Service, access}
use virtual_haibin.Authority.Reconcile.{
  unless_resolved, resolve_confirmed, resolve_failed, apply_lookup, apply_reply, reconcile_attempt,
  reconcile_invocation, reconcile_each, reconcile_once, recover_service,
}
use virtual_haibin.Authority.Keeps.{
  Keeps, Keeps-pure, Keeps-raise, Keeps-bind, Keeps-catch, Keeps-access, Keeps-method, Keeps-query,
}
use virtual_haibin.Authority.Keeps.Steps.{ensure_receipt-Keeps}

module _ {Candidate : Type 0} (issuer_of grant_id_of : String → String) (ext : Externals Candidate)
    (options : AuthorityOptions) (schedule : Schedule)
    (coherent : (n : ℕ) → AreCoherent issuer_of grant_id_of (schedule.others n))
    (provider : PaymentProvider) where
  abbrev Kept : {A : Type 0} → Service A → Type 0
  Kept m = Keeps issuer_of grant_id_of m

  resolve-Keeps :
      (id : String) (outcome : ReconciliationOutcome)
      → Kept (access schedule (resolve_reconciliation id outcome))
  resolve-Keeps id outcome =
      Keeps-method issuer_of grant_id_of schedule coherent (resolve_reconciliation id outcome)
        (λ now db s. resolve-Good issuer_of grant_id_of db s id outcome now)

  resolve_confirmed-Keeps :
      (id : String) (settlement : ConfirmedSettlement)
      → Kept (resolve_confirmed ext options schedule provider id settlement)
  unfolding resolve_confirmed
  resolve_confirmed-Keeps id settlement =
      Keeps-bind issuer_of grant_id_of _ _ (resolve-Keeps id (settled settlement)) (λ row.
        Keeps-bind issuer_of grant_id_of _ _
          (ensure_receipt-Keeps issuer_of grant_id_of ext options schedule coherent row)
          (λ _. Keeps-pure issuer_of grant_id_of _))

  resolve_failed-Keeps :
      (id reason : String) → Kept (resolve_failed ext options schedule provider id reason)
  unfolding resolve_failed
  resolve_failed-Keeps id reason =
      Keeps-bind issuer_of grant_id_of _ _ (resolve-Keeps id (not_settled reason))
        (λ _. Keeps-pure issuer_of grant_id_of _)

  unless_resolved-Keeps : (e : AuthorityError) → Kept (unless_resolved e)
  unless_resolved-Keeps (store_failed (invalid_state_transition id)) =
      Keeps-pure issuer_of grant_id_of _
  unless_resolved-Keeps e = Keeps-raise issuer_of grant_id_of e

  apply_lookup-Keeps :
      (id : String) (lookup : SettlementLookup)
      → Kept (apply_lookup ext options schedule provider id lookup)
  unfolding apply_lookup
  apply_lookup-Keeps id (confirmed settlement) =
      Keeps-catch issuer_of grant_id_of _ _ _ (resolve_confirmed-Keeps id settlement)
        (Keeps-pure issuer_of grant_id_of) unless_resolved-Keeps
  apply_lookup-Keeps id (failed_onchain transaction_id detail) =
      Keeps-catch issuer_of grant_id_of _ _ _ (resolve_failed-Keeps id _)
        (Keeps-pure issuer_of grant_id_of) unless_resolved-Keeps
  apply_lookup-Keeps id (expired height) =
      Keeps-catch issuer_of grant_id_of _ _ _ (resolve_failed-Keeps id _)
        (Keeps-pure issuer_of grant_id_of) unless_resolved-Keeps
  apply_lookup-Keeps id (pending height) = Keeps-pure issuer_of grant_id_of _
  apply_lookup-Keeps id (inconclusive detail) = Keeps-pure issuer_of grant_id_of _

  apply_reply-Keeps :
      (id : String) (reply : LookupReply)
      → Kept (apply_reply ext options schedule provider id reply)
  apply_reply-Keeps id none = Keeps-pure issuer_of grant_id_of _
  apply_reply-Keeps id (some lookup) = apply_lookup-Keeps id lookup

  reconcile_attempt-Keeps :
      (id : String) (attempt : Option PaymentAttempt)
      → Kept (reconcile_attempt ext options schedule provider id attempt)
  reconcile_attempt-Keeps id none = Keeps-pure issuer_of grant_id_of _
  reconcile_attempt-Keeps id (some attempt) =
      apply_reply-Keeps id (provider.lookup_settlement attempt)

  reconcile_invocation-Keeps :
      (invocation : InvocationRecord)
      → Kept (reconcile_invocation ext options schedule provider invocation)
  unfolding reconcile_invocation
  reconcile_invocation-Keeps invocation =
      reconcile_attempt-Keeps invocation.invocation_id invocation.payment_attempt

  reconcile_each-Keeps :
      (invocations : List InvocationRecord)
      → Kept (reconcile_each ext options schedule provider invocations)
  unfolding reconcile_each
  reconcile_each-Keeps [] = Keeps-pure issuer_of grant_id_of _
  reconcile_each-Keeps (invocation ∷ invocations) =
      Keeps-bind issuer_of grant_id_of _ _ (reconcile_invocation-Keeps invocation) (λ outcome.
        Keeps-bind issuer_of grant_id_of _ _ (reconcile_each-Keeps invocations)
          (λ reports. Keeps-pure issuer_of grant_id_of _))

  pub reconcile-Keeps : Kept (reconcile_once ext options schedule provider)
  unfolding reconcile_once
  reconcile-Keeps =
      Keeps-bind issuer_of grant_id_of _ _
        (Keeps-query issuer_of grant_id_of schedule coherent list_reconciliation_required)
        reconcile_each-Keeps

  pub recover-Keeps : Kept (recover_service ext options schedule provider)
  unfolding recover_service
  recover-Keeps =
      Keeps-access issuer_of grant_id_of schedule coherent
        (recover_interrupted_invocations "authority restarted while payment was in progress")
        (λ now db s.
          recover-GoodRun issuer_of grant_id_of db
            "authority restarted while payment was in progress" now s)
