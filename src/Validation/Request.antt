-- ===== src/Validation/Request.antt =====
-- packages/mandate/src/authorization-request.ts: the validation of an untrusted request.
use virtual_haibin.Prelude.{ℕ, String, Bool, ◌&&◌, List, [], ◌∷◌, ◌++◌}
use virtual_haibin.Decimal.{is_canonical_atomic_amount}
use virtual_haibin.Mandate.{ExactOperation, AuthorizationRequestV1, AuthorizationRequestV2}
use virtual_haibin.Validation.{
  Json, object, Fields, get, has_only, Checked, valid, invalid, ◌>>=◌, ◌>>◌, ensure, text_field,
  time_field, is_number, is_text,
}
use virtual_haibin.Validation.Patterns.{matches_identifier, matches_digest, is_bounded}
use virtual_haibin.Validation.Operation.{OperationProblem, validate_exact_operation}

-- What is wrong with a request: the field that its message names.
pub data RequestProblem : Type 0 where
  not_an_object unexpected_field unsupported : RequestProblem
  bad_field : String → RequestProblem
  bad_operation : OperationProblem → RequestProblem

abbrev pub request_fields_v1 : List String
request_fields_v1 =
    "protocol" ∷ "version" ∷ "audience" ∷ "grantId" ∷ "permitDigest" ∷ "invocationId" ∷ "service"
    ∷ "capability" ∷ "network" ∷ "mint" ∷ "recipient" ∷ "amountAtomic" ∷ "issuedAt" ∷ []

abbrev pub request_fields_v2 : List String
request_fields_v2 = request_fields_v1 ++ "operation" ∷ []

abbrev pub authorization_request_protocol : String
authorization_request_protocol = "virtual-haibin/authorization-request"

abbrev pub as_bad_operation :
    Checked OperationProblem ExactOperation → Checked RequestProblem ExactOperation
as_bad_operation (valid operation) = valid operation
as_bad_operation (invalid problem) = invalid (bad_operation problem)

unfoldable pub named_field : (String → Bool) → String → Fields → Checked RequestProblem String
named_field test name fields = text_field test (get name fields) (bad_field name)

unfoldable pub validate_shared_request_fields :
    Fields → ℕ → List String → Checked RequestProblem AuthorizationRequestV1
unfolding named_field
validate_shared_request_fields fields version allowed = do
  ensure (has_only allowed fields) unexpected_field
  ensure
      (is_text authorization_request_protocol (get "protocol" fields)
        && is_number version (get "version" fields))
      unsupported
  audience ← named_field matches_identifier "audience" fields
  grant_id ← named_field matches_identifier "grantId" fields
  invocation_id ← named_field matches_identifier "invocationId" fields
  permit_digest ← named_field matches_digest "permitDigest" fields
  service ← named_field is_bounded "service" fields
  capability ← named_field is_bounded "capability" fields
  network ← named_field is_bounded "network" fields
  mint ← named_field is_bounded "mint" fields
  recipient ← named_field is_bounded "recipient" fields
  amount ← named_field is_canonical_atomic_amount "amountAtomic" fields
  issued_at ← time_field (get "issuedAt" fields) (bad_field "issuedAt")
  valid (record {
    audience = audience;
    grant_id = grant_id;
    permit_digest = permit_digest;
    invocation_id = invocation_id;
    service = service;
    capability = capability;
    network = network;
    mint = mint;
    recipient = recipient;
    amount_atomic = amount;
    issued_at = issued_at;
  })

unfoldable pub validate_request_fields : Fields → Checked RequestProblem AuthorizationRequestV2
validate_request_fields fields = do
  request ← validate_shared_request_fields fields 2 request_fields_v2
  operation ← as_bad_operation (validate_exact_operation (get "operation" fields))
  valid (record { request = request; operation = operation })

unfoldable pub validate_authorization_request_v2 :
    Json → Checked RequestProblem AuthorizationRequestV2
validate_authorization_request_v2 (object fields) = validate_request_fields fields
validate_authorization_request_v2 _ = invalid not_an_object

unfoldable pub validate_authorization_request : Json → Checked RequestProblem AuthorizationRequestV1
validate_authorization_request (object fields) =
    validate_shared_request_fields fields 1 request_fields_v1
validate_authorization_request _ = invalid not_an_object
