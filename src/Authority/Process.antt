-- ===== src/Authority/Process.antt =====
-- apps/authority/src/authorize.ts: `authorize`, `#process` and `#resolveExisting`.
use virtual_haibin.Prelude.{
  ℕ, String, Bool, true, false, not, ◌&&◌, Option, none, some, List, [], ◌∷◌, if◌then◌else◌, ◌==◌,
}
use virtual_haibin.Decimal.{is_empty}
use virtual_haibin.Mandate.{SignedPurchasePermitV2, AuthorizationRequestV2}
use virtual_haibin.Payments.{PaidRequest, PaymentRequirement, PaymentChallenge}
use virtual_haibin.Store.{
  InvocationState, InvocationRecord, reserved, denied, confirmed, failed,
  reconciliation_required as blocked, same_state, ReserveInput, ReserveResult, existing,
  grant_conflict, was_reserved, was_denied,
}
use virtual_haibin.Store.Table.{find_invocation}
use virtual_haibin.Store.Operations.{reserve, fail}
use virtual_haibin.Authority.{
  AuthorizeRequestInput, AuthorityOptions, AuthorizeResult, AuthenticatedRequest, Externals,
  PaymentProvider, invocation_conflict, reconciliation_required, invocation_in_progress,
  grant_permit_conflict, internal,
}
use virtual_haibin.Authority.Monad.{
  Reply, Schedule, Service, ◌>>=◌, ◌>>◌, pure, raise, access, query, read_clock,
}
use virtual_haibin.Authority.Authenticate.{
  authenticate, authenticated, rejected as unauthenticated, Authentication,
}
use virtual_haibin.Authority.Decision.{policy, signed_terms, evaluate}
use virtual_haibin.Authority.Receipts.{ensure_receipt, result}
use virtual_haibin.Authority.Pay.{pay}
use virtual_haibin.Authority.Gather.{Gathered, no_challenge, gather}

abbrev pub is_retryable : InvocationRecord → String → Bool
is_retryable row fingerprint = same_state row.state failed && row.fingerprint == fingerprint

-- An entry of `#pending`: the fingerprint of a request that is being processed, and what comes of it.
pub record Pending : Type 0 where
  pub invocation_id : String
  pub fingerprint : String
  pub outcome : Reply AuthorizeResult

unfoldable pub get_pending : String → List Pending → Option Pending
get_pending id [] = none
get_pending id (entry ∷ entries) =
    if entry.invocation_id == id then some entry else get_pending id entries

abbrev pub as_replay : AuthorizeResult → AuthorizeResult
as_replay answer = record answer { replay = true }

abbrev pub reserve_input : AuthenticatedRequest → ℕ → Option PaymentRequirement → ReserveInput
reserve_input auth decided_at requirement =
    let request = auth.request in
    record {
      invocation_id = request.invocation_id;
      fingerprint = auth.fingerprint;
      grant = record {
        issuer = auth.permit.issuer;
        grant_id = auth.permit.grant_id;
        permit_digest = request.permit_digest;
        max_total_atomic = auth.permit.max_total_atomic;
      };
      agent = auth.permit.authorized_agent;
      request = request;
      amount_atomic = request.amount_atomic;
      decided_at = decided_at;
      payment_requirement = requirement;
      authorization =
          some (record { permit = auth.permit; agent_signature = auth.agent_signature });
    }

module _ {Candidate : Type 0} (ext : Externals Candidate) (options : AuthorityOptions)
    (schedule : Schedule) (provider : PaymentProvider) where
  -- `return this.#result(invocation, await this.#ensureReceipt(invocation), replay)`
  unfoldable pub answer : Bool → InvocationRecord → Service AuthorizeResult
  answer replay invocation = do
    receipt ← ensure_receipt ext options schedule invocation
    pure (result provider.settlement_profile invocation receipt replay)

  -- The `switch` of `#resolveExisting`.
  abbrev pub answer_known : InvocationRecord → InvocationState → Service AuthorizeResult
  answer_known invocation denied = answer true invocation
  answer_known invocation confirmed = answer true invocation
  answer_known invocation blocked = raise (reconciliation_required invocation.invocation_id)
  answer_known invocation reserved = raise (invocation_in_progress invocation.invocation_id)
  answer_known invocation failed = raise (internal "Unexpected FAILED invocation")

  unfoldable pub resolve_existing : InvocationRecord → String → Service AuthorizeResult
  resolve_existing invocation fingerprint =
      if not (invocation.fingerprint == fingerprint)
      then raise (invocation_conflict invocation.invocation_id)
      else answer_known invocation invocation.state

  abbrev pub gather_if : Bool → SignedPurchasePermitV2 → AuthorizationRequestV2 → Service Gathered
  gather_if true permit request = gather ext options provider permit request
  gather_if false permit request = pure (no_challenge none [])

  abbrev pub pay_gathered :
      AuthenticatedRequest
      → InvocationRecord
      → Option PaidRequest
      → Option PaymentChallenge
      → Option PaymentRequirement
      → Service InvocationRecord
  pay_gathered auth invocation (some paid_request) (some quoted) (some requirement) =
      pay ext options schedule provider auth.permit invocation paid_request quoted requirement
  pay_gathered auth invocation _ _ _ = do
    access schedule
        (fail auth.request.invocation_id "internal: reserved without a payment requirement")
    raise (internal "Reserved an invocation without a payment requirement.")

  -- The `switch` on what the store decided.
  unfoldable pub conclude :
      AuthenticatedRequest → Gathered → ReserveResult → Service AuthorizeResult
  conclude auth gathered (grant_conflict grant) = raise (grant_permit_conflict auth.permit.grant_id)
  conclude auth gathered (existing invocation) = resolve_existing invocation auth.fingerprint
  conclude auth gathered (was_denied invocation) = answer false invocation
  conclude auth gathered (was_reserved invocation) = do
    paid ← pay_gathered auth invocation gathered.paid_request gathered.quoted gathered.requirement
    answer false paid

  -- `#process` for an invocation that is new, or FAILED with the same fingerprint.
  unfoldable pub process_fresh : AuthenticatedRequest → Service AuthorizeResult
  process_fresh auth = do
    let permit = auth.permit
    let request = auth.request
    decided_at ← read_clock schedule
    gathered ←
        gather_if (is_empty (policy permit request decided_at (signed_terms request) "0")) permit
          request
    decision ← access schedule (
        reserve (reserve_input auth decided_at gathered.requirement)
          (evaluate permit request decided_at gathered.challenge_codes gathered.requirement))
    conclude auth gathered decision

  abbrev pub process_known :
      AuthenticatedRequest → Option InvocationRecord → Service AuthorizeResult
  process_known auth none = process_fresh auth
  process_known auth (some known) =
      if is_retryable known auth.fingerprint
      then process_fresh auth
      else resolve_existing known auth.fingerprint

  unfoldable pub process : AuthenticatedRequest → Service AuthorizeResult
  process auth = do
    known ← query schedule (λ db. find_invocation auth.request.invocation_id db.invocations)
    process_known auth known

  -- A duplicate of a request that this process is working on waits for its outcome.
  abbrev pub attach : AuthenticatedRequest → Option Pending → Service AuthorizeResult
  attach auth none = process auth
  attach auth (some pending) =
      if not (pending.fingerprint == auth.fingerprint)
      then raise (invocation_conflict auth.request.invocation_id)
      else (do answer ← (λ w. (pending.outcome, w)); pure (as_replay answer))

  abbrev pub authorize_authenticated : Authentication → List Pending → Service AuthorizeResult
  authorize_authenticated (unauthenticated e) pending = raise e
  authorize_authenticated (authenticated auth) pending =
      attach auth (get_pending auth.request.invocation_id pending)

  unfoldable pub authorize :
      AuthorizeRequestInput Candidate → List Pending → Service AuthorizeResult
  authorize input pending = do
    now ← read_clock schedule
    authorize_authenticated (authenticate ext options input now) pending
