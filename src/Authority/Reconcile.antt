-- ===== src/Authority/Reconcile.antt =====
-- apps/authority/src/authorize.ts: `#reconcileOnce`, and the startup recovery of the service. The
-- details of a report are left out.
use Prim.Native.String.{◌++◌ as concat}
use virtual_haibin.Prelude.{String, Option, none, some, List, [], ◌∷◌}
use virtual_haibin.Payments.{
  PaymentAttempt, ConfirmedSettlement, SettlementLookup, failed_onchain, expired, pending,
  inconclusive,
}
use virtual_haibin.Payments as Payments
use virtual_haibin.Store.{
  InvocationRecord, RecoveryResult, settled, not_settled, invalid_state_transition,
}
use virtual_haibin.Store.Operations.{resolve_reconciliation}
use virtual_haibin.Store.Recovery.{recover_interrupted_invocations, list_reconciliation_required}
use virtual_haibin.Authority.{
  AuthorityOptions, Externals, PaymentProvider, AuthorityError, LookupReply, store_failed,
  ReconciliationOutcome, ReconciliationReport, confirmed, failed, still_pending,
  no_attempt_recorded, lookup_error, already_resolved,
}
use virtual_haibin.Authority.Monad.{
  Schedule, Service, ◌>>=◌, ◌>>◌, pure, raise, attempt_catch, access, query,
}
use virtual_haibin.Authority.Receipts.{ensure_receipt}

-- Resolved by another process: an error of the store that says so. Any other is thrown again.
abbrev pub unless_resolved : AuthorityError → Service ReconciliationOutcome
unless_resolved (store_failed (invalid_state_transition id)) = pure already_resolved
unless_resolved e = raise e

module _ {Candidate : Type 0} (ext : Externals Candidate) (options : AuthorityOptions)
    (schedule : Schedule) (provider : PaymentProvider) where
  unfoldable pub resolve_confirmed : String → ConfirmedSettlement → Service ReconciliationOutcome
  resolve_confirmed id settlement = do
    row ← access schedule (resolve_reconciliation id (settled settlement))
    ensure_receipt ext options schedule row
    pure confirmed

  unfoldable pub resolve_failed : String → String → Service ReconciliationOutcome
  resolve_failed id reason = do
    access schedule (resolve_reconciliation id (not_settled reason))
    pure failed

  -- What the chain says of the attempt.
  unfoldable pub apply_lookup : String → SettlementLookup → Service ReconciliationOutcome
  apply_lookup id (Payments.confirmed settlement) =
      attempt_catch (resolve_confirmed id settlement) pure unless_resolved
  apply_lookup id (failed_onchain transaction_id detail) =
      attempt_catch
        (resolve_failed id (concat "transaction " (concat transaction_id " failed on-chain"))) pure
        unless_resolved
  apply_lookup id (expired height) =
      attempt_catch
        (resolve_failed id
          (concat "no matching transaction and blockhash expired (height " (concat height ")")))
        pure unless_resolved
  apply_lookup id (pending height) = pure still_pending
  apply_lookup id (inconclusive detail) = pure still_pending

  abbrev pub apply_reply : String → LookupReply → Service ReconciliationOutcome
  apply_reply id none = pure lookup_error
  apply_reply id (some lookup) = apply_lookup id lookup

  abbrev pub reconcile_attempt : String → Option PaymentAttempt → Service ReconciliationOutcome
  reconcile_attempt id none = pure no_attempt_recorded
  reconcile_attempt id (some attempt) = apply_reply id (provider.lookup_settlement attempt)

  unfoldable pub reconcile_invocation : InvocationRecord → Service ReconciliationOutcome
  reconcile_invocation invocation =
      reconcile_attempt invocation.invocation_id invocation.payment_attempt

  unfoldable pub reconcile_each : List InvocationRecord → Service (List ReconciliationReport)
  reconcile_each [] = pure []
  reconcile_each (invocation ∷ invocations) = do
    outcome ← reconcile_invocation invocation
    reports ← reconcile_each invocations
    pure (record { invocation_id = invocation.invocation_id; outcome = outcome } ∷ reports)

  unfoldable pub reconcile_once : Service (List ReconciliationReport)
  reconcile_once = do
    invocations ← query schedule list_reconciliation_required
    reconcile_each invocations

  unfoldable pub recover_service : Service RecoveryResult
  recover_service =
      access schedule
        (recover_interrupted_invocations "authority restarted while payment was in progress")
