-- ===== src/Validation/Requests.antt =====
-- Which JSON values are accepted as an authorization request.
use virtual_haibin.Prelude.{ℕ, String, true, ◌&&◌, List, ◌≡◌, ◌↔◌, refl, subst}
use virtual_haibin.Decimal.{is_canonical_atomic_amount}
use virtual_haibin.Mandate.{ExactOperation, AuthorizationRequestV1, AuthorizationRequestV2}
use virtual_haibin.Validation.{
  Json, object, Fields, get, has_only, Checked, valid, invalid, ◌>>=◌, ensure, is_number, is_text,
}
use virtual_haibin.Validation.Patterns.{matches_identifier, matches_digest, is_bounded}
use virtual_haibin.Validation.Operation.{OperationProblem}
use virtual_haibin.Validation.Request.{
  bad_field, request_fields_v2, authorization_request_protocol, as_bad_operation,
  validate_shared_request_fields, validate_request_fields, named_field,
  validate_authorization_request_v2,
}
use virtual_haibin.Validation.Rules.{
  IsText, IsTime, bind-post, ensure-valid, text_field-valid, text_field-eval, valid-injective,
  time_field-valid, time_field-eval,
}
use virtual_haibin.Validation.Accepts.{IsOperation, IsOperation-valid, operation-eval}

-- An object of the given fields and no other, each well formed.
pub record HasRequest (fields : Fields) (version : ℕ) (allowed : List String)
    (r : AuthorizationRequestV1) : Type 0 where
  pub only : has_only allowed fields ≡ true
  pub protocol :
      (is_text authorization_request_protocol (get "protocol" fields)
        && is_number version (get "version" fields))
      ≡ true
  pub audience : IsText matches_identifier (get "audience" fields) r.audience
  pub grant_id : IsText matches_identifier (get "grantId" fields) r.grant_id
  pub invocation_id : IsText matches_identifier (get "invocationId" fields) r.invocation_id
  pub permit_digest : IsText matches_digest (get "permitDigest" fields) r.permit_digest
  pub service : IsText is_bounded (get "service" fields) r.service
  pub capability : IsText is_bounded (get "capability" fields) r.capability
  pub network : IsText is_bounded (get "network" fields) r.network
  pub mint : IsText is_bounded (get "mint" fields) r.mint
  pub recipient : IsText is_bounded (get "recipient" fields) r.recipient
  pub amount_atomic : IsText is_canonical_atomic_amount (get "amountAtomic" fields) r.amount_atomic
  pub issued_at : IsTime (get "issuedAt" fields) r.issued_at

request-valid :
    (fields : Fields) (version : ℕ) (allowed : List String) (r : AuthorizationRequestV1)
    → validate_shared_request_fields fields version allowed ≡ valid r
    → HasRequest fields version allowed r
unfolding validate_shared_request_fields named_field
request-valid fields version allowed = bind-post (HasRequest fields version allowed) _ _ (λ u₀ only.
    bind-post (HasRequest fields version allowed) _ _ (λ u₁ protocol.
      bind-post (HasRequest fields version allowed) _ _ (λ audience h_audience.
        bind-post (HasRequest fields version allowed) _ _ (λ grant_id h_grant_id.
          bind-post (HasRequest fields version allowed) _ _ (λ invocation_id h_invocation_id.
            bind-post (HasRequest fields version allowed) _ _ (λ permit_digest h_permit_digest.
              bind-post (HasRequest fields version allowed) _ _ (λ service h_service.
                bind-post (HasRequest fields version allowed) _ _ (λ capability h_capability.
                  bind-post (HasRequest fields version allowed) _ _ (λ network h_network.
                    bind-post (HasRequest fields version allowed) _ _ (λ mint h_mint.
                      bind-post (HasRequest fields version allowed) _ _ (λ recipient h_recipient.
                        bind-post (HasRequest fields version allowed) _ _
                          (λ amount_atomic h_amount_atomic.
                            bind-post (HasRequest fields version allowed) _ _ (λ issued_at h_issued.
                              λ r e.
                                subst (HasRequest fields version allowed) (valid-injective e)
                                  (record {
                                    only = ensure-valid _ _ u₀ only;
                                    protocol = ensure-valid _ _ u₁ protocol;
                                    audience = text_field-valid _ _ _ audience h_audience;
                                    grant_id = text_field-valid _ _ _ grant_id h_grant_id;
                                    invocation_id =
                                        text_field-valid _ _ _ invocation_id h_invocation_id;
                                    permit_digest =
                                        text_field-valid _ _ _ permit_digest h_permit_digest;
                                    service = text_field-valid _ _ _ service h_service;
                                    capability = text_field-valid _ _ _ capability h_capability;
                                    network = text_field-valid _ _ _ network h_network;
                                    mint = text_field-valid _ _ _ mint h_mint;
                                    recipient = text_field-valid _ _ _ recipient h_recipient;
                                    amount_atomic =
                                        text_field-valid _ _ _ amount_atomic h_amount_atomic;
                                    issued_at = time_field-valid _ _ issued_at h_issued;
                                  }))))))))))))))

request-eval :
    (fields : Fields) (version : ℕ) (allowed : List String) (r : AuthorizationRequestV1)
    → HasRequest fields version allowed r
    → validate_shared_request_fields fields version allowed ≡ valid r
unfolding validate_shared_request_fields named_field ◌>>=◌ ensure
request-eval fields version allowed r h = rw (
  h.only,
  h.protocol,
  text_field-eval _ _ (bad_field "audience") r.audience h.audience,
  text_field-eval _ _ (bad_field "grantId") r.grant_id h.grant_id,
  text_field-eval _ _ (bad_field "invocationId") r.invocation_id h.invocation_id,
  text_field-eval _ _ (bad_field "permitDigest") r.permit_digest h.permit_digest,
  text_field-eval _ _ (bad_field "service") r.service h.service,
  text_field-eval _ _ (bad_field "capability") r.capability h.capability,
  text_field-eval _ _ (bad_field "network") r.network h.network,
  text_field-eval _ _ (bad_field "mint") r.mint h.mint,
  text_field-eval _ _ (bad_field "recipient") r.recipient h.recipient,
  text_field-eval _ _ (bad_field "amountAtomic") r.amount_atomic h.amount_atomic,
  time_field-eval _ (bad_field "issuedAt") r.issued_at h.issued_at,
)

pub record IsRequest (candidate : Json) (r : AuthorizationRequestV2) : Type 0 where
  pub fields : Fields
  pub is_object : candidate ≡ object fields
  pub has_request : HasRequest fields 2 request_fields_v2 r.request
  pub has_operation : IsOperation (get "operation" fields) r.operation

IsRequest-valid :
    (candidate : Json) (r : AuthorizationRequestV2)
    → validate_authorization_request_v2 candidate ≡ valid r
    → IsRequest candidate r
unfolding validate_authorization_request_v2 validate_request_fields
IsRequest-valid (object fields) = bind-post (IsRequest (object fields)) _ _ (λ request h.
    bind-post (IsRequest (object fields)) _ _ (λ operation o. λ r e.
      subst (IsRequest (object fields)) (valid-injective e) (record {
        fields = fields;
        is_object = refl;
        has_request = request-valid fields 2 request_fields_v2 request h;
        has_operation =
            IsOperation-valid (get "operation" fields) operation (unwrapped _ operation o);
      })))
  where
    unwrapped :
        (c : Checked OperationProblem ExactOperation) (op : ExactOperation)
        → as_bad_operation c ≡ valid op
        → c ≡ valid op
    unwrapped (valid a) op h = cc (h)
    unwrapped (invalid x) op h = absurd (cc (h))
IsRequest-valid _ = λ r e. absurd (cc (e))

candidate-eval :
    (candidate : Json) (r : AuthorizationRequestV2)
    → IsRequest candidate r
    → validate_authorization_request_v2 candidate ≡ valid r
unfolding validate_authorization_request_v2 validate_request_fields ◌>>=◌ ensure
candidate-eval candidate r h = rw (
  h.is_object,
  request-eval h.fields 2 request_fields_v2 r.request h.has_request,
  operation-eval (get "operation" h.fields) r.operation h.has_operation,
)

-- A JSON value is accepted as an authorization request of version 2 exactly when it is an object with
-- this protocol and version and with no field but those of a request, whose fields are those of the
-- request: identifiers, a digest, bounded texts, a canonical amount, a safe timestamp, and an
-- operation of its four fields and no other, each of its form.
pub validate-IsRequest_iff :
    (candidate : Json) (r : AuthorizationRequestV2)
    → (validate_authorization_request_v2 candidate ≡ valid r) ↔ IsRequest candidate r
validate-IsRequest_iff candidate r = (IsRequest-valid candidate r, candidate-eval candidate r)
