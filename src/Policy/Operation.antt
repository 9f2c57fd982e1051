-- ===== src/Policy/Operation.antt =====
-- The comparison of a requested operation with the approved one.
use virtual_haibin.Prelude.{◌≡◌, ◌↔◌, true, [], arith}
use virtual_haibin.Mandate.{ExactOperation, operations_equal}
use virtual_haibin.Policy.{evaluate_exact_operation}

-- An operation is allowed exactly when it is the approved one, in every field; nothing else of the
-- request counts.
pub evaluate_operation_allows_iff :
    (permitted requested : ExactOperation)
    → ((evaluate_exact_operation permitted requested).allowed ≡ true) ↔ (requested ≡ permitted)
unfolding evaluate_exact_operation
evaluate_operation_allows_iff permitted requested = ground arith

-- `evaluateExactOperation` and `operationsEqual` agree.
pub evaluate_operation-operations_equal :
    (permitted requested : ExactOperation)
    → (evaluate_exact_operation permitted requested).allowed ≡ operations_equal requested permitted
unfolding evaluate_exact_operation operations_equal
evaluate_operation-operations_equal permitted requested = ground arith

-- The operation is allowed exactly when no reason code is reported.
pub evaluate_operation-nil_iff :
    (permitted requested : ExactOperation)
    → ((evaluate_exact_operation permitted requested).reason_codes ≡ [])
      ↔ ((evaluate_exact_operation permitted requested).allowed ≡ true)
unfolding evaluate_exact_operation
evaluate_operation-nil_iff permitted requested = ground arith
