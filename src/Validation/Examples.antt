-- ===== src/Validation/Examples.antt =====
-- The validators on concrete values.
use virtual_haibin.Prelude.{String, true, ◌≡◌, ◌↔◌, refl, String-discrete}
use virtual_haibin.Decimal.{big_int, is_canonical_atomic_amount}
use virtual_haibin.Mandate.{ExactOperation, UnsignedPurchasePermitV2, AuthorizationRequestV2}
use virtual_haibin.Validation.{
  Json, number, text, boolean, object, no_more, field, get, has_only, valid, ◌>>=◌, ensure,
  text_field, time_field, is_number, is_text, is_false,
}
use virtual_haibin.Validation.Patterns.{
  matches_digest, is_bounded, utf16_length, matches_grant_id, matches_identifier, matches_resource,
  matches_segments, matches_dataset_id,
}
use virtual_haibin.Validation.Operation.{
  is_method, is_report_operation, validate_operation_fields, validate_exact_operation,
}
use virtual_haibin.Validation.Permit.{
  is_supported_network, is_public_key, validate_shared_fields, validate_permit_fields,
  validate_unsigned_purchase_permit_v2,
}
use virtual_haibin.Validation.Request.{
  named_field, validate_shared_request_fields, validate_request_fields,
  validate_authorization_request_v2,
}
use virtual_haibin.Validation.Accepts.{IsPermit, validate-IsPermit_iff}
use virtual_haibin.Validation.Requests.{IsRequest, validate-IsRequest_iff}
use virtual_haibin.Validation.RoundTrip.{operation_json, permit_fields, validate_permit_again}

abbrev operation_a : ExactOperation
operation_a = record {
  method = "POST";
  resource = "/api/v1/report";
  operation = "export";
  dataset_id = "dataset-a";
}

abbrev permit_a : UnsignedPurchasePermitV2
permit_a = record {
  terms = record {
    grant_id = "g-1";
    issuer = "Human";
    authorized_agent = "Agent";
    service = "reports";
    capability = "report:generate";
    network = "devnet";
    mint = "Mint";
    recipient = "Payee";
    max_per_call_atomic = "10";
    max_total_atomic = "25";
    issued_at = 1;
    expires_at = 1000;
  };
  operation = operation_a;
}

-- Fields that a permit does not have are dropped.
abbrev candidate_a : Json
candidate_a = object (field "extra" (boolean true) (permit_fields permit_a))

accepted_a : validate_unsigned_purchase_permit_v2 (λ key. true) candidate_a ≡ valid permit_a
unfolding validate_unsigned_purchase_permit_v2 validate_permit_fields validate_shared_fields
    is_public_key is_supported_network validate_exact_operation validate_operation_fields is_method
    is_report_operation matches_grant_id matches_identifier matches_resource matches_segments
    matches_dataset_id get has_only ◌>>=◌ ensure text_field time_field is_number is_text is_false
    is_canonical_atomic_amount big_int String-discrete
accepted_a = refl

validate_permit_again_example :
    validate_unsigned_purchase_permit_v2 (λ key. true) (object (permit_fields permit_a))
    ≡ valid permit_a
validate_permit_again_example = validate_permit_again (λ key. true) candidate_a permit_a accepted_a

validate-IsPermit_iff_example :
    (validate_unsigned_purchase_permit_v2 (λ key. true) candidate_a ≡ valid permit_a)
    ↔ IsPermit (λ key. true) candidate_a permit_a
validate-IsPermit_iff_example = validate-IsPermit_iff (λ key. true) candidate_a permit_a

abbrev digest_a : String
digest_a = "00112233445566778899aabbccddeeff00112233445566778899aabbccddeeff"

abbrev request_a : AuthorizationRequestV2
request_a = record {
  request = record {
    audience = "vh";
    grant_id = "g-1";
    permit_digest = digest_a;
    invocation_id = "i1";
    service = "reports";
    capability = "report:generate";
    network = "devnet";
    mint = "Mint";
    recipient = "Payee";
    amount_atomic = "10";
    issued_at = 5;
  };
  operation = operation_a;
}

abbrev candidate_r : Json
candidate_r = object (
    field "protocol" (text "virtual-haibin/authorization-request") (
      field "version" (number 2) (
        field "audience" (text "vh") (
          field "grantId" (text "g-1") (
            field "permitDigest" (text digest_a) (
              field "invocationId" (text "i1") (
                field "service" (text "reports") (
                  field "capability" (text "report:generate") (
                    field "network" (text "devnet") (
                      field "mint" (text "Mint") (
                        field "recipient" (text "Payee") (
                          field "amountAtomic" (text "10") (
                            field "issuedAt" (number 5)
                              (field "operation" (operation_json operation_a) no_more))))))))))))))

accepted_r : validate_authorization_request_v2 candidate_r ≡ valid request_a
unfolding validate_authorization_request_v2 validate_request_fields validate_shared_request_fields
    named_field validate_exact_operation validate_operation_fields is_method is_report_operation
    matches_digest matches_identifier is_bounded utf16_length matches_resource matches_segments
    matches_dataset_id get has_only ◌>>=◌ ensure text_field time_field is_number is_text
    is_canonical_atomic_amount String-discrete
accepted_r = refl

validate-IsRequest_iff_example :
    (validate_authorization_request_v2 candidate_r ≡ valid request_a)
    ↔ IsRequest candidate_r request_a
validate-IsRequest_iff_example = validate-IsRequest_iff candidate_r request_a
