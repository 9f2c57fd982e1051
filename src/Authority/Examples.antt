-- ===== src/Authority/Examples.antt =====
-- The service on concrete data.
mod Runs
pub mod Cases
mod Completion
use virtual_haibin.Prelude.{
  ℕ, ◌+◌, ◌≤◌, String, Bool, true, false, String-discrete, Option, none, some, List, [], ◌∷◌, ◌++◌,
  ◌≡◌, ◌⊎◌, ◌↔◌, ◌≢◌, refl, ap, All, ◌==◌,
}
use virtual_haibin.Decimal.{to_string, big_int, atomic_check}
use virtual_haibin.Mandate.{
  ExactOperation, AuthorizationRequestV1, AuthorizationRequestV2, SignedPurchasePermitV2,
}
use virtual_haibin.Payments.{
  PaidResource, PaidRequest, PaymentRequirement, PaymentAttempt, PaymentExecution, challenge,
  SettlementLookup, confirmed, ConfirmedSettlement, PaidResult,
}
use virtual_haibin.Challenge.{SettlementProfile, Url, paid_service_key}
use virtual_haibin.Store.{Db, GrantRecord}
use virtual_haibin.Store.Table.{find_invocation, find_grant}
use virtual_haibin.Authority.{
  AuthorizeRequestInput, AuthorityOptions, Externals, PaymentProvider, fetched, submits, returned,
}
use virtual_haibin.Authority.Monad.{Sent, World, Schedule}
use virtual_haibin.Decimal.{is_canonical_atomic_amount}
use virtual_haibin.Policy.{
  evaluate_purchase_permit, evaluate_exact_operation, field_denials, limit_denials,
}
use virtual_haibin.Challenge.{
  build_paid_request, create_paid_request, get_resource, select_and_validate_challenge,
  select_candidate, requirement_denials,
}
use virtual_haibin.Store.Monad.{transaction}
use virtual_haibin.Store.Table.{update_invocation, update_grant}
use virtual_haibin.Store.Statements.{
  grant_check, insert_grant, update_grant_amounts, invocation_check, insert_invocation, update_one,
  record_transition, require_invocation, require_state, require_grant, transition_state,
  consume_reservation,
}
use virtual_haibin.Store.Operations.{
  reserve, reserve_body, decide, decide_budget, pin_grant, write_decision, write_reservation, join,
  confirm, confirm_body, record_payment_attempt, record_payment_attempt_body, attach_receipt,
  attach_receipt_body, store_receipt, mark_reconciliation_required,
  mark_reconciliation_required_body,
}
use virtual_haibin.Store.Recovery.{
  recover_interrupted_invocations, recover_body, recover_rows, select_by_state,
  list_reconciliation_required,
}
use virtual_haibin.Store.Ledger.{IsSound, held, spent}
use virtual_haibin.Store.Ledger.History.{perform_all}
use virtual_haibin.Authority.Monad.{◌>>=◌, pure, raise, access, attempt_catch, read_clock, transmit}
use virtual_haibin.Authority.Authenticate.{authenticate, check_permit, check_request}
use virtual_haibin.Authority.Decision.{policy, add_all, decision_codes, evaluate}
use virtual_haibin.Authority.Receipts.{ensure_receipt, build_receipt, result, payment_evidence}
use virtual_haibin.Authority.Binding.{
  build_request, build_for, outbound_matches_authorization, get_grant_budget, grant_budget,
  accept_acknowledgement, pinned_key, acknowledges,
}
use virtual_haibin.Authority.Pay.{
  pay, sign_service_authorization, settle, confirm_payment, suspend_unknown, suspend_unrecorded,
  release_unsigned, release_unsubmitted,
}
use virtual_haibin.Authority.Gather.{gather, get_profile}
use virtual_haibin.Authority.Process.{
  authorize, process, process_fresh, get_pending, conclude, answer, resolve_existing,
}
use virtual_haibin.Authority.Reconcile.{
  reconcile_once, reconcile_each, reconcile_invocation, apply_lookup, resolve_confirmed,
  resolve_failed, recover_service,
}
use virtual_haibin.Authority.Keeps.Budget.{
  ServiceCall, authorizing, reconciling, restarting, serve, serve_all, serve_all-GoodRun,
  service_budget_holds, IsDetermined, IsCoherentCall,
}
use virtual_haibin.Store.{failed, reserved, InvocationRecord}
use virtual_haibin.Authority.{
  AuthenticatedRequest, invocation_conflict, invocation_in_progress, reconciliation_required,
}
use virtual_haibin.Authority.Monad as Monad
use virtual_haibin.Authority.Authenticate.{authenticated, authenticated_request}
use virtual_haibin.Authority.Authentic.{IsAuthentic, authenticate_iff}
use virtual_haibin.Authority.Acknowledged.{budget_view_exact, acknowledgement-IsKept_iff, IsKept}
use virtual_haibin.Authority.Sends.Safety.{IsRightful}
use virtual_haibin.Authority.Sends.Replays.{reconcile_never_pays, known_invocation_never_paid}
use virtual_haibin.Store as Data
use virtual_haibin.Store.{v2}
use virtual_haibin.Evidence.{SignedServiceAuthorizationV1, SignedServiceAcknowledgementV1}
use virtual_haibin.Authority.Binding.{without_acknowledgement}
use virtual_haibin.Authority.Process.{is_retryable}

abbrev pub operation_a : ExactOperation
operation_a = record { method = "POST"; resource = "/r"; operation = "summarize"; dataset_id = "a" }

abbrev pub request_a : AuthorizationRequestV2
request_a = record {
  request = record {
    audience = "vh";
    grant_id = "g";
    permit_digest = "d";
    invocation_id = "i1";
    service = "s";
    capability = "c";
    network = "n";
    mint = "m";
    recipient = "r";
    amount_atomic = "10";
    issued_at = 5;
  };
  operation = operation_a;
}

abbrev pub permit_a : SignedPurchasePermitV2
permit_a = record {
  permit = record {
    terms = record {
      grant_id = "g";
      issuer = "h";
      authorized_agent = "a";
      service = "s";
      capability = "c";
      network = "n";
      mint = "m";
      recipient = "r";
      max_per_call_atomic = "10";
      max_total_atomic = "25";
      issued_at = 1;
      expires_at = 1000;
    };
    operation = operation_a;
  };
  signature = "permit signature";
}

abbrev pub input_a : AuthorizeRequestInput SignedPurchasePermitV2
input_a = record {
  permit = permit_a;
  authorization_request = request_a;
  agent_signature = some "sig";
}

abbrev pub externals_a : Externals SignedPurchasePermitV2
externals_a = record {
  verify_permit = λ permit. some permit;
  verify_request_signature = λ request signature agent. signature == "sig";
  permit_digest = λ permit. "d";
  operation_digest = λ operation. "o";
  hash_fingerprint = λ input. "f1";
  sign_receipt =
      λ fields binding. record { fields = fields; binding = binding; signature = "signed" };
  sign_authorization = λ authorization. some (record authorization { signature = "signed" });
  authorization_digest = λ authorization. "ad";
  decode_acknowledgement = λ header. none;
  verify_acknowledgement = λ ack key. true;
  parse_url = λ url. some (record {
    href = url;
    protocol = "https:";
    username = "";
    password = "";
    search = "";
    hash = "";
    pathname = "/r";
  });
  paid_digest = λ method url content_type body. "sha";
  canonical_body = λ operation dataset_id. "body";
  store_message = λ e. "error";
}

abbrev pub resource_a : PaidResource
resource_a = record { service_id = "s"; capability = "c"; url = "https://s/r"; method = "POST" }

abbrev pub profile_a : SettlementProfile
profile_a = record {
  name = "devnet";
  permit_network = "n";
  rpc_url = "https://rpc";
  accepted_challenge_networks = "n" ∷ [];
  allowed_assets = record { mint = "m"; label = "M" } ∷ [];
  protocol = "x402";
  x402_version = 2;
  scheme = "exact";
  required_blockhash_prefix = "";
}

abbrev pub options_a : AuthorityOptions
options_a = record {
  authority_address = "authority";
  audience = "vh";
  issuer_entitlement = record { issuer = "h"; settlement_profiles = "n" ∷ [] };
  trusted_service_keys = [];
  paid_services = ("s\0c", resource_a) ∷ [];
  settlement_profiles = ("n", profile_a) ∷ [];
  max_request_age_ms = 120;
  max_future_skew_ms = 30;
}

abbrev pub requirement_a : PaymentRequirement
requirement_a = record {
  protocol = "x402";
  x402_version = 2;
  accepts_index = 0;
  scheme = "exact";
  network = "n";
  asset = "m";
  pay_to = "r";
  amount_atomic = "10";
  fee_payer = some "facilitator";
  max_timeout_seconds = none;
  resource_url = some "https://s/r";
}

abbrev pub attempt_a : PaymentAttempt
attempt_a = record {
  scheme = "exact";
  settlement_profile = "devnet";
  network = "n";
  payer = "wallet";
  payer_signature = "ps";
  fee_payer = "facilitator";
  asset = "m";
  pay_to = "r";
  amount_atomic = "10";
  blockhash = "b";
  last_valid_block_height = "9";
  resource_url = "https://s/r";
  request_sha256 = "sha";
  transaction_base64 = none;
  prepared_at = 6;
}

abbrev pub settlement_a : ConfirmedSettlement
settlement_a = record {
  transaction_id = "t1";
  slot = none;
  facilitator_reported_transaction = none;
  confirmed_at = 7;
}

abbrev pub result_a : PaidResult
result_a = record {
  http_status = 200;
  json = "{}";
  sha256 = "rs";
  bytes = 2;
  body_base64 = none;
  service_acknowledgement_header = none;
}

abbrev pub provider_a : PaymentProvider
provider_a = record {
  settlement_profile = "devnet";
  payer_address = "wallet";
  fetch_challenge = λ request reference.
      fetched (
        challenge (record { requirements = requirement_a ∷ []; request_sha256 = "sha"; raw = "" }));
  execute = λ request quoted requirement reference authorization.
      submits attempt_a
        (returned (record { attempt = attempt_a; settlement = settlement_a; result = result_a }));
  refusal = λ e. "refused";
  lookup_settlement = λ attempt. some (confirmed settlement_a);
}

abbrev pub schedule_a : Schedule
schedule_a = record { others = λ n. []; clock = λ n. 6; alive = λ n. true }

abbrev pub world_a : World
world_a = record {
  db = record { grants = []; invocations = []; transitions = [] };
  step = 0;
  sent = [];
}
