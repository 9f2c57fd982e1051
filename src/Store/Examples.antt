-- ===== src/Store/Examples.antt =====
-- The store on concrete data.
use virtual_haibin.Prelude.{
  String-discrete, none, some, List, [], ◌∷◌, ◌≡◌, refl, subst, ap, ◌⊎◌, ◌≢◌, ◌+◌, ◌≤◌,
}
use virtual_haibin.Decimal.{to_string, big_int, atomic_check}
use virtual_haibin.Mandate.{AuthorizationRequestV1, ExactOperation}
use virtual_haibin.Payments.{PaymentAttempt, ConfirmedSettlement}
use virtual_haibin.Evidence.{SignedAuthorizationReceipt, allow}
use virtual_haibin.Store.{missing_invocation}
use virtual_haibin.Store.{
  Db, GrantRecord, InvocationRecord, v2, ReserveInput, allowed, reserved, ConfirmPayment,
  was_reserved, failed, reconciliation_required, existing, settled, not_settled,
  invalid_state_transition,
}
use virtual_haibin.Store.Monad.{ok, thrown, transaction}
use virtual_haibin.Store.Table.{find_invocation, update_invocation, find_grant, update_grant}
use virtual_haibin.Store.Statements.{
  grant_check, insert_grant, update_grant_amounts, invocation_check, insert_invocation, update_one,
  record_transition, require_invocation, require_state, require_grant, transition_state,
  consume_reservation, set_state,
}
use virtual_haibin.Store.Operations.{
  reserve, reserve_body, decide, decide_budget, pin_grant, write_decision, write_reservation, join,
  confirm, confirm_body, set_confirmed, set_attempt, set_resolved, fail, resolve_reconciliation,
  record_payment_attempt, attach_receipt, attach_receipt_body, store_receipt,
  mark_reconciliation_required, mark_reconciliation_required_body,
}
use virtual_haibin.Store.Ledger.{IsSound, held, spent}
use virtual_haibin.Store.Ledger.Reserving.{IsCoherent}
use virtual_haibin.Store.Ledger.Reserve.{reserve-Good}
use virtual_haibin.Store.Ledger.History.{
  Call, confirming, suspending, receipting, perform, perform_all, budget_holds, AreCoherent,
  reserving, perform_all-GoodRun, grant_terms_pinned,
}
use virtual_haibin.Store.Ledger.Finality.{decision_is_final, receipt_is_final, SameDecision}
use virtual_haibin.Store.Ledger.Results.{
  Pays, confirm-Pays, fail-Pays, resolve-Pays, confirm_iff_reserved, never_reserved_again,
  never_paid_again, attempt_recorded_once,
}

abbrev empty_db : Db
empty_db = record { grants = []; invocations = []; transitions = [] }

abbrev terms_a : AuthorizationRequestV1
terms_a = record {
  audience = "vh";
  grant_id = "g";
  permit_digest = "d";
  invocation_id = "i1";
  service = "s";
  capability = "c";
  network = "n";
  mint = "m";
  recipient = "r";
  amount_atomic = "10";
  issued_at = 5;
}

abbrev operation_a : ExactOperation
operation_a = record { method = "POST"; resource = "/r"; operation = "summarize"; dataset_id = "a" }

abbrev input_a : ReserveInput
input_a = record {
  invocation_id = "i1";
  fingerprint = "f1";
  grant = record { issuer = "h"; grant_id = "g"; permit_digest = "d"; max_total_atomic = "25" };
  agent = "a";
  request = record { request = terms_a; operation = operation_a };
  amount_atomic = "10";
  decided_at = 6;
  payment_requirement = none;
  authorization = none;
}

abbrev grant_a : GrantRecord
grant_a = record {
  issuer = "h";
  grant_id = "g";
  permit_digest = "d";
  max_total_atomic = "25";
  reserved_atomic = "10";
  consumed_atomic = "0";
  created_at = 7;
  updated_at = 7;
}

abbrev pub row_a : InvocationRecord
row_a = record {
  invocation_id = "i1";
  fingerprint = "f1";
  issuer = "h";
  grant_id = "g";
  agent = "a";
  request = v2 (record { request = terms_a; operation = operation_a });
  amount_atomic = "10";
  state = reserved;
  reason_codes = [];
  payment_transaction_id = none;
  payment_requirement = none;
  payment_attempt = none;
  settlement = none;
  result = none;
  receipt = none;
  authorization = none;
  service_authorization = none;
  state_reason = none;
  decided_at = 6;
  created_at = 7;
  updated_at = 7;
}

-- The tables after one reservation.
abbrev pub db_a : Db
db_a = record {
  grants = grant_a ∷ [];
  invocations = row_a ∷ [];
  transitions =
      record { invocation_id = "i1"; from_state = none; to_state = reserved; reason = none; at = 7 }
      ∷ [];
}

reserve_a : reserve input_a (λ _. allowed) 7 empty_db ≡ (ok (was_reserved row_a), db_a)
unfolding reserve reserve_body decide decide_budget pin_grant write_decision write_reservation join
    insert_grant grant_check update_grant_amounts invocation_check insert_invocation update_one
    record_transition require_invocation require_grant find_invocation update_invocation find_grant
    update_grant transaction to_string big_int atomic_check String-discrete
reserve_a = refl

IsSound-empty : IsSound (λ _. "h") (λ _. "g") empty_db
IsSound-empty = record {
  owned = tt;
  balanced = λ issuer grant_id g found. absurd (unfold find_grant in cc (found));
}

IsCoherent-a : IsCoherent (λ _. "h") (λ _. "g") input_a
IsCoherent-a = record { issuer = refl; grant_id = refl }

pub IsSound-a : IsSound (λ _. "h") (λ _. "g") db_a
IsSound-a =
    subst (IsSound (λ _. "h") (λ _. "g")) (ap (λ p. p.1) reserve_a)
      (reserve-Good (λ _. "h") (λ _. "g") input_a (λ _. allowed) 7 empty_db IsCoherent-a
        IsSound-empty).0

pub found_a : find_invocation "i1" db_a.invocations ≡ some row_a
unfolding find_invocation String-discrete
found_a = refl

granted_a : find_grant "h" "g" db_a.grants ≡ some grant_a
unfolding find_grant String-discrete
granted_a = refl

abbrev payment_a : ConfirmPayment
payment_a = record { transaction_id = "tx"; settled_at = 9; settlement = none; result = none }

abbrev receipt_a : SignedAuthorizationReceipt
receipt_a = record {
  fields = record {
    invocation_id = "i1";
    grant_id = "g";
    authority = "vh";
    agent = "a";
    permit_digest = "d";
    request_fingerprint = "f1";
    service = "s";
    capability = "c";
    network = "n";
    mint = "m";
    recipient = "r";
    amount_atomic = "10";
    decision = allow;
    reason_codes = [];
    payment_transaction_id = some "tx";
    decided_at = 6;
  };
  binding = none;
  signature = "sig";
}

confirm-Pays_example :
    ((confirm "i1" payment_a 8 db_a).0 ≡ ok (set_confirmed payment_a 8 row_a))
    × Pays db_a
        (confirm "i1" payment_a 8 db_a).1
        "i1"
        row_a
        (set_confirmed payment_a 8 row_a)
        (big_int "10")
confirm-Pays_example =
    confirm-Pays (λ _. "h") (λ _. "g") db_a "i1" row_a IsSound-a found_a payment_a 8 refl

fail-Pays_example :
    ((fail "i1" "challenge" 8 db_a).0 ≡ ok tt)
    × Pays db_a (fail "i1" "challenge" 8 db_a).1 "i1" row_a (set_state failed "challenge" 8 row_a) 0
fail-Pays_example =
    fail-Pays (λ _. "h") (λ _. "g") db_a "i1" row_a IsSound-a found_a "challenge" 8 refl

confirm_iff_reserved_example :
    ((row : InvocationRecord) × (find_invocation "i1" db_a.invocations ≡ some row)
      × (row.state ≡ reserved)
      × ((confirm "i1" payment_a 8 db_a).0 ≡ ok (set_confirmed payment_a 8 row)))
    ⊎ (((find_invocation "i1" db_a.invocations ≡ none)
          × (confirm "i1" payment_a 8 db_a ≡ (thrown (missing_invocation "i1"), db_a)))
        ⊎ ((row : InvocationRecord) × (find_invocation "i1" db_a.invocations ≡ some row)
            × (row.state ≢ reserved)
            × (confirm "i1" payment_a 8 db_a ≡ (thrown (invalid_state_transition "i1"), db_a))))
confirm_iff_reserved_example =
    confirm_iff_reserved (λ _. "h") (λ _. "g") db_a "i1" payment_a 8 IsSound-a

-- A day of the store: one reservation, its payment, and the receipt.
abbrev day : List Call
day =
    reserving input_a (λ _. allowed) 7
    ∷ confirming "i1" payment_a 8
    ∷ receipting "i1" receipt_a 9
    ∷ []

abbrev grant_b : GrantRecord
grant_b = record grant_a { reserved_atomic = "0"; consumed_atomic = "10"; updated_at = 8 }

abbrev row_b : InvocationRecord
row_b = record (set_confirmed payment_a 8 row_a) { receipt = some receipt_a; updated_at = 9 }

coherent_day : AreCoherent (λ _. "h") (λ _. "g") day
coherent_day = (IsCoherent-a, (tt, (tt, tt)))

abbrev db_b : Db
db_b = perform_all day empty_db

IsSound-b : IsSound (λ _. "h") (λ _. "g") db_b
IsSound-b = (perform_all-GoodRun (λ _. "h") (λ _. "g") day empty_db coherent_day IsSound-empty).0

granted_b : find_grant "h" "g" db_b.grants ≡ some grant_b
unfolding perform perform_all confirm confirm_body consume_reservation require_state attach_receipt
    attach_receipt_body store_receipt mark_reconciliation_required mark_reconciliation_required_body
    transition_state reserve reserve_body decide decide_budget pin_grant write_decision
    write_reservation join insert_grant grant_check update_grant_amounts invocation_check
    insert_invocation update_one record_transition require_invocation require_grant find_invocation
    update_invocation find_grant update_grant transaction to_string big_int atomic_check
    String-discrete
granted_b = refl

found_b : find_invocation "i1" db_b.invocations ≡ some row_b
unfolding perform perform_all confirm confirm_body consume_reservation require_state attach_receipt
    attach_receipt_body store_receipt mark_reconciliation_required mark_reconciliation_required_body
    transition_state reserve reserve_body decide decide_budget pin_grant write_decision
    write_reservation join insert_grant grant_check update_grant_amounts invocation_check
    insert_invocation update_one record_transition require_invocation require_grant find_invocation
    update_invocation find_grant update_grant transaction to_string big_int atomic_check
    String-discrete
found_b = refl

budget_holds_example :
    (held "h" "g" db_b.invocations + spent "h" "g" db_b.invocations ≤ big_int "25")
    × (big_int "0" ≡ held "h" "g" db_b.invocations)
    × (big_int "10" ≡ spent "h" "g" db_b.invocations)
budget_holds_example =
    budget_holds (λ _. "h") (λ _. "g") day empty_db "h" "g" grant_b IsSound-empty coherent_day
      granted_b

grant_terms_pinned_example :
    (g' : GrantRecord) × (find_grant "h" "g" (perform_all day db_a).grants ≡ some g')
    × (g'.permit_digest ≡ "d")
    × (g'.max_total_atomic ≡ "25")
grant_terms_pinned_example =
    grant_terms_pinned (λ _. "h") (λ _. "g") day db_a "h" "g" grant_a IsSound-a coherent_day
      granted_a

decision_is_final_example :
    (row' : InvocationRecord) × (find_invocation "i1" (perform_all day db_b).invocations
      ≡ some row')
    × SameDecision row_b row'
decision_is_final_example =
    decision_is_final (λ _. "h") (λ _. "g") day db_b "i1" row_b IsSound-b coherent_day found_b refl

receipt_is_final_example :
    (row' : InvocationRecord) × (find_invocation "i1" (perform_all day db_b).invocations
      ≡ some row')
    × (row'.receipt ≡ some receipt_a)
receipt_is_final_example =
    receipt_is_final (λ _. "h") (λ _. "g") day db_b "i1" row_b IsSound-b coherent_day found_b
      receipt_a refl

never_reserved_again_example :
    (row' : InvocationRecord) × SameDecision row_b row'
    × (reserve input_a (λ _. allowed) 20 (perform_all day db_b)
        ≡ (ok (existing row'), perform_all day db_b))
never_reserved_again_example =
    never_reserved_again (λ _. "h") (λ _. "g") day db_b "i1" row_b IsSound-b coherent_day found_b
      input_a (λ _. allowed) 20 refl refl

abbrev attempt_a : PaymentAttempt
attempt_a = record {
  scheme = "exact";
  settlement_profile = "sandbox";
  network = "n";
  payer = "p";
  payer_signature = "ps";
  fee_payer = "f";
  asset = "m";
  pay_to = "r";
  amount_atomic = "10";
  blockhash = "b";
  last_valid_block_height = "100";
  resource_url = "http://s/r";
  request_sha256 = "00";
  transaction_base64 = none;
  prepared_at = 7;
}

abbrev attempt_b : PaymentAttempt
attempt_b = record attempt_a { payer_signature = "ps2" }

-- The invocation with an attempt, in other tables.
abbrev held_a : InvocationRecord
held_a = set_attempt attempt_a none 8 row_a

abbrev db_held : Db
db_held = record { grants = []; invocations = held_a ∷ []; transitions = [] }

found_held : find_invocation "i1" db_held.invocations ≡ some held_a
unfolding find_invocation String-discrete
found_held = refl

attempt_recorded_once_example :
    let db' = (record_payment_attempt "i1" attempt_a none 8 db_a).1 in
    ((record_payment_attempt "i1" attempt_a none 8 db_a).0 ≡ ok tt)
    × (find_invocation "i1" db'.invocations ≡ some (set_attempt attempt_a none 8 row_a))
    × (db'.grants ≡ db_a.grants)
    × (record_payment_attempt "i1" attempt_b none 9 db'
        ≡ (thrown (invalid_state_transition "i1"), db'))
    × (record_payment_attempt "i1" attempt_b none 9 db_held
        ≡ (thrown (invalid_state_transition "i1"), db_held))
attempt_recorded_once_example =
    attempt_recorded_once (λ _. "h") (λ _. "g") db_a "i1" row_a IsSound-a found_a attempt_a
      attempt_b attempt_a none none 8 9 db_held held_a refl refl found_held refl

never_paid_again_example :
    let db' = perform_all day db_b in
    (confirm "i1" payment_a 20 db' ≡ (thrown (invalid_state_transition "i1"), db'))
    × (fail "i1" "late" 20 db' ≡ (thrown (invalid_state_transition "i1"), db'))
    × (record_payment_attempt "i1" attempt_a none 20 db'
        ≡ (thrown (invalid_state_transition "i1"), db'))
never_paid_again_example =
    never_paid_again (λ _. "h") (λ _. "g") day db_b "i1" row_b IsSound-b coherent_day found_b
      payment_a "late" attempt_a none 20 refl

-- The tables once a reservation waits for reconciliation.
abbrev held_up : List Call
held_up = reserving input_a (λ _. allowed) 7 ∷ suspending "i1" "timeout" 8 ∷ []

abbrev row_c : InvocationRecord
row_c = set_state reconciliation_required "timeout" 8 row_a

abbrev db_c : Db
db_c = perform_all held_up empty_db

found_c : find_invocation "i1" db_c.invocations ≡ some row_c
unfolding perform perform_all confirm confirm_body consume_reservation require_state attach_receipt
    attach_receipt_body store_receipt mark_reconciliation_required mark_reconciliation_required_body
    transition_state reserve reserve_body decide decide_budget pin_grant write_decision
    write_reservation join insert_grant grant_check update_grant_amounts invocation_check
    insert_invocation update_one record_transition require_invocation require_grant find_invocation
    update_invocation find_grant update_grant transaction to_string big_int atomic_check
    String-discrete
found_c = refl

IsSound-c : IsSound (λ _. "h") (λ _. "g") db_c
IsSound-c =
    (perform_all-GoodRun (λ _. "h") (λ _. "g") held_up empty_db (IsCoherent-a, (tt, tt))
      IsSound-empty).0

abbrev settlement_a : ConfirmedSettlement
settlement_a = record {
  transaction_id = "tx";
  slot = none;
  facilitator_reported_transaction = none;
  confirmed_at = 9;
}

resolve-Pays_example :
    let settles = resolve_reconciliation "i1" (settled settlement_a) 10 db_c in
    let releases = resolve_reconciliation "i1" (not_settled "expired") 10 db_c in
    let row' = set_resolved settlement_a 10 row_c in
    let row'' = set_state failed "reconciled: expired" 10 row_c in
    (settles.0 ≡ ok row')
    × Pays db_c settles.1 "i1" row_c row' (big_int "10")
    × (releases.0 ≡ ok row'')
    × Pays db_c releases.1 "i1" row_c row'' 0
resolve-Pays_example =
    resolve-Pays (λ _. "h") (λ _. "g") db_c "i1" row_c IsSound-c found_c settlement_a "expired" 10
      refl
