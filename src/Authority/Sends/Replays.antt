-- ===== src/Authority/Sends/Replays.antt =====
-- What never transmits: a request whose invocation is known, and a reconciliation.
use virtual_haibin.Prelude.{
  suc, String, true, false, Option, none, some, List, [], ◌∷◌, ◌≡◌, ◌≢◌, refl, arith,
}
use virtual_haibin.Payments.{
  SettlementLookup, confirmed, failed_onchain, expired, pending, inconclusive, PaymentAttempt,
}
use virtual_haibin.Store.{InvocationState, InvocationRecord, invalid_state_transition}
use virtual_haibin.Store as Data
use virtual_haibin.Store.Table.{find_invocation}
use virtual_haibin.Store.Ledger.History.{perform_all}
use virtual_haibin.Authority.{
  Externals, AuthorityOptions, PaymentProvider, AuthenticatedRequest, AuthorityError, store_failed,
  invocation_conflict, reconciliation_required, invocation_in_progress, LookupReply,
}
use virtual_haibin.Authority.Monad.{World, Schedule, failed, ◌>>=◌, access, raise}
use virtual_haibin.Authority.Process.{process, resolve_existing, is_retryable}
use virtual_haibin.Authority.Reconcile.{
  unless_resolved, resolve_confirmed, resolve_failed, apply_lookup, apply_reply, reconcile_attempt,
  reconcile_invocation, reconcile_each, reconcile_once,
}
use virtual_haibin.Authority.Sends.{
  Silent, Silent-pure, Silent-raise, Silent-access, Silent-bind, Silent-catch,
}
use virtual_haibin.Authority.Sends.Permitted.{resolve_existing-Silent, ensure_receipt-Silent}

module _ {Candidate : Type 0} (ext : Externals Candidate) (options : AuthorityOptions)
    (schedule : Schedule) (provider : PaymentProvider) where
  unless_resolved-Silent : (e : AuthorityError) → Silent (unless_resolved e)
  unless_resolved-Silent (store_failed (invalid_state_transition id)) = Silent-pure _
  unless_resolved-Silent e = Silent-raise e

  failed-Silent :
      (id reason : String) → Silent (resolve_failed ext options schedule provider id reason)
  unfolding resolve_failed
  failed-Silent id reason = Silent-bind _ _ (Silent-access schedule _) (λ _. Silent-pure _)

  lookup-Silent :
      (id : String) (l : SettlementLookup)
      → Silent (apply_lookup ext options schedule provider id l)
  unfolding apply_lookup resolve_confirmed
  lookup-Silent id (confirmed settlement) =
      Silent-catch _ _ _
        (Silent-bind _ _ (Silent-access schedule _) (λ row.
          Silent-bind _ _ (ensure_receipt-Silent ext options schedule provider row)
            (λ _. Silent-pure _)))
        Silent-pure unless_resolved-Silent
  lookup-Silent id (failed_onchain transaction_id detail) =
      Silent-catch _ _ _ (failed-Silent id _) Silent-pure unless_resolved-Silent
  lookup-Silent id (expired height) =
      Silent-catch _ _ _ (failed-Silent id _) Silent-pure unless_resolved-Silent
  lookup-Silent id (pending height) = Silent-pure _
  lookup-Silent id (inconclusive detail) = Silent-pure _

  attempt-Silent :
      (id : String) (o : Option PaymentAttempt)
      → Silent (reconcile_attempt ext options schedule provider id o)
  attempt-Silent id none = Silent-pure _
  attempt-Silent id (some attempt) = by_reply (provider.lookup_settlement attempt)
    where
      by_reply : (r : LookupReply) → Silent (apply_reply ext options schedule provider id r)
      by_reply none = Silent-pure _
      by_reply (some l) = lookup-Silent id l

  each-Silent :
      (rows : List InvocationRecord) → Silent (reconcile_each ext options schedule provider rows)
  unfolding reconcile_each reconcile_invocation
  each-Silent [] = Silent-pure _
  each-Silent (row ∷ rows) =
      Silent-bind _ _ (attempt-Silent row.invocation_id row.payment_attempt)
        (λ outcome. Silent-bind _ _ (each-Silent rows) (λ reports. Silent-pure _))

  -- A reconciliation transmits no payment, whatever the chain says and whatever the schedule does.
  pub reconcile_never_pays :
      (w : World) → (reconcile_once ext options schedule provider w).1.sent ≡ w.sent
  reconcile_never_pays w = whole.quiet w
    where
      whole : Silent (reconcile_once ext options schedule provider)
      whole = unfold reconcile_once in Silent-bind _ _ (Silent-access schedule _) each-Silent

  module _ (auth : AuthenticatedRequest) (w : World) (row : InvocationRecord)
      (alive : schedule.alive w.step ≡ true)
      (found : find_invocation auth.request.invocation_id
          (perform_all (schedule.others w.step) w.db).invocations
        ≡ some row)
      (known : is_retryable row auth.fingerprint ≡ false) where
    process-known :
        process ext options schedule provider auth w
        ≡ resolve_existing ext options schedule provider row auth.fingerprint
            (record w { db = perform_all (schedule.others w.step) w.db; step = suc w.step })
    unfolding process ◌>>=◌ access
    process-known = rw (alive, found, known) refl

    -- A request whose invocation the running process finds stored, unless it is FAILED under the same
    -- fingerprint, transmits no payment; it is refused as a conflict where the fingerprint is another,
    -- as in progress where the row is RESERVED, and as unreconciled where it is
    -- RECONCILIATION_REQUIRED.
    pub known_invocation_never_paid :
        ((process ext options schedule provider auth w).1.sent ≡ w.sent)
        × (row.fingerprint ≢ auth.fingerprint
            → (process ext options schedule provider auth w).0
              ≡ failed (invocation_conflict row.invocation_id))
        × (row.fingerprint ≡ auth.fingerprint
            → row.state ≡ Data.reserved
            → (process ext options schedule provider auth w).0
              ≡ failed (invocation_in_progress row.invocation_id))
        × (row.fingerprint ≡ auth.fingerprint
            → row.state ≡ Data.reconciliation_required
            → (process ext options schedule provider auth w).0
              ≡ failed (reconciliation_required row.invocation_id))
    known_invocation_never_paid = rw process-known (
      (resolve_existing-Silent ext options schedule provider row auth.fingerprint).quiet _,
      (λ other. unfold resolve_existing raise in ground (arith, other)),
      (λ same s. unfold resolve_existing raise in ground (arith, same, s)),
      (λ same s. unfold resolve_existing raise in ground (arith, same, s)),
    )
