-- ===== src/Policy/Examples.antt =====
-- Permits and requests on concrete data.
use virtual_haibin.Prelude.{true, some, [], ◌≡◌, ◌↔◌, refl, ◌≤◌, String-discrete, arith}
use virtual_haibin.Decimal.{is_canonical_atomic_amount, big_int}
use virtual_haibin.Mandate.{ExactOperation, operations_equal, UnsignedPurchasePermitV1}
use virtual_haibin.Policy.{
  PurchaseRequestV1, evaluate_purchase_permit, evaluate_exact_operation, field_denials,
  limit_denials,
}
use virtual_haibin.Policy.Permit.{
  MatchesTerms, WithinLimits, evaluate_allows_iff, evaluate_monotone,
}
use virtual_haibin.Policy.Operation.{
  evaluate_operation_allows_iff, evaluate_operation-operations_equal, evaluate_operation-nil_iff,
}

abbrev permit_a : UnsignedPurchasePermitV1
permit_a = record {
  grant_id = "g";
  issuer = "h";
  authorized_agent = "a";
  service = "s";
  capability = "c";
  network = "n";
  mint = "m";
  recipient = "r";
  max_per_call_atomic = "10";
  max_total_atomic = "25";
  issued_at = 1;
  expires_at = 100;
}

abbrev purchase_a : PurchaseRequestV1
purchase_a = record {
  service = "s";
  capability = "c";
  network = "n";
  mint = "m";
  recipient = "r";
  amount_atomic = "10";
  already_spent_atomic = "15";
  now = some 50;
}

abbrev operation_a : ExactOperation
operation_a = record { method = "POST"; resource = "/r"; operation = "summarize"; dataset_id = "a" }

abbrev operation_b : ExactOperation
operation_b = record { method = "POST"; resource = "/r"; operation = "summarize"; dataset_id = "b" }

evaluate_allows_iff_example :
    ((evaluate_purchase_permit 0 permit_a purchase_a).allowed ≡ true)
    ↔ (MatchesTerms 50 permit_a purchase_a × WithinLimits permit_a purchase_a)
evaluate_allows_iff_example = evaluate_allows_iff 0 permit_a purchase_a

allowed_a : (evaluate_purchase_permit 0 permit_a purchase_a).allowed ≡ true
unfolding evaluate_purchase_permit field_denials limit_denials is_canonical_atomic_amount big_int
    String-discrete
allowed_a = refl

canonical_three : is_canonical_atomic_amount "3" ≡ true
unfolding is_canonical_atomic_amount
canonical_three = refl

three_le : big_int "3" ≤ big_int "15"
unfolding big_int
three_le = omega arith

evaluate_monotone_example :
    (evaluate_purchase_permit 0 permit_a (record purchase_a { already_spent_atomic = "3" })).allowed
    ≡ true
evaluate_monotone_example =
    evaluate_monotone 0 permit_a purchase_a "3" canonical_three three_le allowed_a

evaluate_operation_allows_iff_example :
    ((evaluate_exact_operation operation_a operation_b).allowed ≡ true)
    ↔ (operation_b ≡ operation_a)
evaluate_operation_allows_iff_example = evaluate_operation_allows_iff operation_a operation_b

evaluate_operation-operations_equal_example :
    (evaluate_exact_operation operation_a operation_b).allowed
    ≡ operations_equal operation_b operation_a
evaluate_operation-operations_equal_example =
    evaluate_operation-operations_equal operation_a operation_b

evaluate_operation-nil_iff_example :
    ((evaluate_exact_operation operation_a operation_b).reason_codes ≡ [])
    ↔ ((evaluate_exact_operation operation_a operation_b).allowed ≡ true)
evaluate_operation-nil_iff_example = evaluate_operation-nil_iff operation_a operation_b
