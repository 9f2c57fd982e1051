-- ===== src/Policy.antt =====
-- packages/policy/src: the evaluation of a purchase request against a permit, and the comparison of
-- the requested operation with the approved one. The human-readable `reasons` that stand beside
-- the reason codes are left out.
pub mod Permit
pub mod Operation
mod Examples
use virtual_haibin.Prelude.{
  ℕ, ◌+◌, String, Bool, true, false, not, ◌||◌, Option, none, some, List, [], ◌∷◌, ◌++◌, ltb, eqb,
  if◌then◌else◌, ◌==◌,
}
use virtual_haibin.Decimal.{is_canonical_atomic_amount, big_int, is_empty}
use virtual_haibin.Mandate.{ExactOperation, UnsignedPurchasePermitV1}

pub record PurchaseRequestV1 : Type 0 where
  pub service : String
  pub capability : String
  pub network : String
  pub mint : String
  pub recipient : String
  pub amount_atomic : String
  pub already_spent_atomic : String
  pub now : Option ℕ

pub data PurchasePermitReasonCode : Type 0 where
  permit_expired service_mismatch capability_mismatch network_mismatch mint_mismatch
        recipient_mismatch invalid_amount per_call_limit_exceeded total_budget_exceeded :
      PurchasePermitReasonCode

pub data OperationReasonCode : Type 0 where
  operation_method_mismatch operation_resource_mismatch operation_not_authorized
        operation_argument_not_authorized :
      OperationReasonCode

pub record Decision (Code : Type 0) : Type 0 where
  pub allowed : Bool
  pub reason_codes : List Code

-- `if (test) deny(code, …)`
abbrev pub deny_if : {Code : Type 0} → Bool → Code → List Code
deny_if true code = code ∷ []
deny_if false code = []

-- `request.now ?? Date.now()`
abbrev pub now_or : Option ℕ → ℕ → ℕ
now_or none clock = clock
now_or (some now) clock = now

-- The checks that come before the amount is read.
unfoldable pub field_denials :
    ℕ → UnsignedPurchasePermitV1 → PurchaseRequestV1 → List PurchasePermitReasonCode
field_denials now permit request =
    deny_if (ltb permit.expires_at now) permit_expired
    ++ (deny_if (not (request.service == permit.service)) service_mismatch
        ++ (deny_if (not (request.capability == permit.capability)) capability_mismatch
            ++ (deny_if (not (request.network == permit.network)) network_mismatch
                ++ (deny_if (not (request.mint == permit.mint)) mint_mismatch
                    ++ deny_if (not (request.recipient == permit.recipient)) recipient_mismatch))))

-- The checks of the amounts, once these are known to be canonical and positive.
unfoldable pub limit_denials :
    UnsignedPurchasePermitV1 → PurchaseRequestV1 → List PurchasePermitReasonCode
limit_denials permit request =
    deny_if (ltb (big_int permit.max_per_call_atomic) (big_int request.amount_atomic))
      per_call_limit_exceeded
    ++ deny_if
        (ltb (big_int permit.max_total_atomic)
          (big_int request.already_spent_atomic + big_int request.amount_atomic))
        total_budget_exceeded

-- `clock` is the reading of `Date.now()`.
unfoldable pub evaluate_purchase_permit :
    ℕ → UnsignedPurchasePermitV1 → PurchaseRequestV1 → Decision PurchasePermitReasonCode
evaluate_purchase_permit clock permit request =
    let denied = field_denials (now_or request.now clock) permit request in
    if not (is_canonical_atomic_amount request.amount_atomic)
      || not (is_canonical_atomic_amount request.already_spent_atomic)
    then record { allowed = false; reason_codes = denied ++ invalid_amount ∷ [] }
    else if eqb (big_int request.amount_atomic) 0
    then record { allowed = false; reason_codes = denied ++ invalid_amount ∷ [] }
    else (let codes = denied ++ limit_denials permit request in
        record { allowed = is_empty codes; reason_codes = codes })

unfoldable pub evaluate_exact_operation :
    ExactOperation → ExactOperation → Decision OperationReasonCode
evaluate_exact_operation permitted requested =
    let codes =
      deny_if (not (requested.method == permitted.method)) operation_method_mismatch
      ++ (deny_if (not (requested.resource == permitted.resource)) operation_resource_mismatch
          ++ (deny_if (not (requested.operation == permitted.operation)) operation_not_authorized
              ++ deny_if (not (requested.dataset_id == permitted.dataset_id))
                  operation_argument_not_authorized)) in
    record { allowed = is_empty codes; reason_codes = codes }
