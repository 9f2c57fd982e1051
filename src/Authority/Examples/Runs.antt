-- ===== src/Authority/Examples/Runs.antt =====
-- A payment from the request to its receipt, and what the theorems say of it.
use virtual_haibin.Prelude.{
  ◌-◌, ◌+◌, ◌≤◌, String-discrete, some, List, [], ◌∷◌, ◌≡◌, ◌↔◌, refl, ap, All,
}
use virtual_haibin.Decimal.{to_string, big_int, atomic_check}
use virtual_haibin.Mandate.{SignedPurchasePermitV2}
use virtual_haibin.Challenge.{paid_service_key}
use virtual_haibin.Store.{GrantRecord}
use virtual_haibin.Store.Table.{find_invocation, find_grant}
use virtual_haibin.Authority.Monad.{World}
use virtual_haibin.Decimal.{is_canonical_atomic_amount}
use virtual_haibin.Policy.{
  evaluate_purchase_permit, evaluate_exact_operation, field_denials, limit_denials,
}
use virtual_haibin.Challenge.{
  build_paid_request, create_paid_request, get_resource, select_and_validate_challenge,
  select_candidate, requirement_denials,
}
use virtual_haibin.Store.Monad.{transaction}
use virtual_haibin.Store.Table.{update_invocation, update_grant}
use virtual_haibin.Store.Statements.{
  grant_check, insert_grant, update_grant_amounts, invocation_check, insert_invocation, update_one,
  record_transition, require_invocation, require_state, require_grant, transition_state,
  consume_reservation,
}
use virtual_haibin.Store.Operations.{
  reserve, reserve_body, decide, decide_budget, pin_grant, write_decision, write_reservation, join,
  confirm, confirm_body, record_payment_attempt, record_payment_attempt_body, attach_receipt,
  attach_receipt_body, store_receipt, mark_reconciliation_required,
  mark_reconciliation_required_body,
}
use virtual_haibin.Store.Recovery.{
  recover_interrupted_invocations, recover_rows, select_by_state, list_reconciliation_required,
}
use virtual_haibin.Store.Ledger.{IsSound, held, spent}
use virtual_haibin.Store.Ledger.History.{perform_all}
use virtual_haibin.Authority.Monad.{◌>>=◌, pure, raise, access, attempt_catch, read_clock, transmit}
use virtual_haibin.Authority.Authenticate.{authenticate, check_permit, check_request}
use virtual_haibin.Authority.Decision.{policy, add_all, decision_codes, evaluate}
use virtual_haibin.Authority.Receipts.{ensure_receipt, build_receipt, result, payment_evidence}
use virtual_haibin.Authority.Binding.{
  build_request, build_for, outbound_matches_authorization, get_grant_budget, grant_budget,
  accept_acknowledgement, pinned_key, acknowledges,
}
use virtual_haibin.Authority.Pay.{
  pay, sign_service_authorization, settle, confirm_payment, suspend_unknown, suspend_unrecorded,
  release_unsigned, release_unsubmitted,
}
use virtual_haibin.Authority.Gather.{gather, get_profile}
use virtual_haibin.Authority.Process.{
  authorize, process, process_fresh, get_pending, conclude, answer, resolve_existing,
}
use virtual_haibin.Authority.Reconcile.{
  reconcile_once, reconcile_each, reconcile_invocation, apply_lookup, resolve_confirmed,
  resolve_failed, recover_service,
}
use virtual_haibin.Authority.Keeps.Budget.{
  ServiceCall, authorizing, reconciling, restarting, serve, serve_all, serve_all-GoodRun,
  service_budget_holds, IsCoherentCall,
}
use virtual_haibin.Authority.Authenticate.{authenticated, authenticated_request}
use virtual_haibin.Authority.Authentic.{IsAuthentic, authenticate_iff}
use virtual_haibin.Authority.Acknowledged.{budget_view_exact}
use virtual_haibin.Store.Operations.{fail, fail_body}
use virtual_haibin.Store.Statements.{release_reservation}
use virtual_haibin.Authority.{PaymentProvider, not_submitted, payment_not_submitted}
use virtual_haibin.Authority.Monad.{failed}
use virtual_haibin.Authority.Sends.Retry.{retry_only_if_unsent}
use virtual_haibin.Authority.Sends.Replays.{reconcile_never_pays}
use virtual_haibin.Authority.Examples.{
  request_a, permit_a, input_a, externals_a, options_a, provider_a, schedule_a, world_a,
}

abbrev calls_a : List (ServiceCall SignedPurchasePermitV2)
calls_a =
    authorizing schedule_a provider_a [] input_a
    ∷ reconciling schedule_a provider_a
    ∷ restarting schedule_a provider_a
    ∷ []

abbrev grant_a : GrantRecord
grant_a = record {
  issuer = "h";
  grant_id = "g";
  permit_digest = "d";
  max_total_atomic = "25";
  reserved_atomic = "0";
  consumed_atomic = "10";
  created_at = 6;
  updated_at = 6;
}

-- The payment is made and confirmed.
granted_a :
    find_grant "h" "g" (serve_all externals_a options_a calls_a world_a).db.grants ≡ some grant_a
unfolding serve serve_all authorize authenticate check_permit check_request process process_fresh
    get_pending gather get_profile build_request build_for build_paid_request create_paid_request
    get_resource paid_service_key select_and_validate_challenge select_candidate requirement_denials
    policy add_all decision_codes evaluate evaluate_purchase_permit evaluate_exact_operation
    field_denials limit_denials is_canonical_atomic_amount conclude answer resolve_existing
    ensure_receipt build_receipt result payment_evidence pay outbound_matches_authorization
    get_grant_budget grant_budget sign_service_authorization settle confirm_payment
    accept_acknowledgement pinned_key acknowledges suspend_unknown suspend_unrecorded
    release_unsigned release_unsubmitted reconcile_once reconcile_each reconcile_invocation
    apply_lookup resolve_confirmed resolve_failed recover_service ◌>>=◌ pure raise access
    attempt_catch read_clock transmit perform_all recover_interrupted_invocations
    list_reconciliation_required confirm confirm_body consume_reservation require_state
    attach_receipt attach_receipt_body store_receipt mark_reconciliation_required
    mark_reconciliation_required_body record_payment_attempt record_payment_attempt_body
    transition_state reserve reserve_body decide decide_budget pin_grant write_decision
    write_reservation join insert_grant grant_check update_grant_amounts invocation_check
    insert_invocation update_one record_transition require_invocation require_grant find_invocation
    update_invocation find_grant update_grant transaction to_string big_int atomic_check
    String-discrete recover_rows select_by_state
granted_a = refl

coherent_a : All (IsCoherentCall (λ _. "h") (λ _. "g") externals_a options_a) calls_a
coherent_a = (
  (
    (λ n. tt),
    (λ permit e d.
        (ap (λ p. p.issuer) (same_permit permit e), ap (λ p. p.grant_id) (same_permit permit e))),
  ),
  ((λ n. tt), ((λ n. tt), tt)),
)
  where
    same_permit :
        (permit : SignedPurchasePermitV2) → some permit_a ≡ some permit → permit ≡ permit_a
    same_permit permit e = cc (e)

IsSound-empty : IsSound (λ _. "h") (λ _. "g") world_a.db
unfolding find_grant
IsSound-empty = record { owned = tt; balanced = λ issuer grant_id g e. absurd (cc (e)) }

service_budget_holds_example :
    held "h" "g" (serve_all externals_a options_a calls_a world_a).db.invocations
      + spent "h" "g" (serve_all externals_a options_a calls_a world_a).db.invocations
    ≤ big_int "25"
service_budget_holds_example =
    service_budget_holds (λ _. "h") (λ _. "g") externals_a options_a calls_a world_a "h" "g" grant_a
      IsSound-empty coherent_a granted_a

authenticate_iff_example :
    let auth = authenticated_request externals_a options_a permit_a request_a "sig" in
    (authenticate externals_a options_a input_a 6 ≡ authenticated auth)
    ↔ IsAuthentic externals_a options_a input_a 6 auth
authenticate_iff_example =
    authenticate_iff externals_a options_a input_a 6
      (authenticated_request externals_a options_a permit_a request_a "sig")

abbrev world_b : World
world_b = serve_all externals_a options_a calls_a world_a

budget_view_exact_example :
    let committed = held "h" "g" world_b.db.invocations + spent "h" "g" world_b.db.invocations in
    (committed ≤ big_int "25")
    × ((grant_budget grant_a).remaining_atomic ≡ to_string (big_int "25" - committed))
budget_view_exact_example =
    budget_view_exact (λ _. "h") (λ _. "g") world_b.db "h" "g" grant_a
      (serve_all-GoodRun (λ _. "h") (λ _. "g") externals_a options_a calls_a world_a coherent_a
        IsSound-empty).0
      granted_a

reconcile_never_pays_example :
    (reconcile_once externals_a options_a schedule_a provider_a world_b).1.sent ≡ world_b.sent
reconcile_never_pays_example =
    reconcile_never_pays externals_a options_a schedule_a provider_a world_b

-- A provider that gives up before it transmits.
abbrev provider_b : PaymentProvider
provider_b = record provider_a {
  execute = λ request quoted requirement reference authorization. not_submitted "no blockhash";
}

refused_b :
    (authorize externals_a options_a schedule_a provider_b input_a [] world_a).0
    ≡ failed (payment_not_submitted "i1")
unfolding authorize authenticate check_permit check_request process process_fresh get_pending gather
    get_profile build_request build_for build_paid_request create_paid_request get_resource
    paid_service_key select_and_validate_challenge select_candidate requirement_denials policy
    add_all decision_codes evaluate evaluate_purchase_permit evaluate_exact_operation field_denials
    limit_denials is_canonical_atomic_amount conclude answer resolve_existing ensure_receipt
    build_receipt result payment_evidence pay outbound_matches_authorization get_grant_budget
    grant_budget sign_service_authorization settle confirm_payment accept_acknowledgement pinned_key
    acknowledges suspend_unknown suspend_unrecorded release_unsigned release_unsubmitted
    reconcile_once reconcile_each reconcile_invocation apply_lookup resolve_confirmed resolve_failed
    recover_service ◌>>=◌ pure raise access attempt_catch read_clock transmit perform_all
    recover_interrupted_invocations list_reconciliation_required confirm confirm_body
    consume_reservation require_state attach_receipt attach_receipt_body store_receipt
    mark_reconciliation_required mark_reconciliation_required_body record_payment_attempt
    record_payment_attempt_body transition_state reserve reserve_body decide decide_budget pin_grant
    write_decision write_reservation join insert_grant grant_check update_grant_amounts
    invocation_check insert_invocation update_one record_transition require_invocation require_grant
    find_invocation update_invocation find_grant update_grant transaction to_string big_int
    atomic_check String-discrete fail fail_body release_reservation
refused_b = refl

retry_only_if_unsent_example :
    (authorize externals_a options_a schedule_a provider_b input_a [] world_a).1.sent ≡ []
retry_only_if_unsent_example =
    retry_only_if_unsent externals_a options_a schedule_a provider_b input_a [] world_a "i1"
      refused_b
