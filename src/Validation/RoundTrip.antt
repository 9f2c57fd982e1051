-- ===== src/Validation/RoundTrip.antt =====
-- What was accepted is accepted again as the same.
use virtual_haibin.Prelude.{String, Bool, false, Option, some, ◌≡◌, refl, String-discrete}
use virtual_haibin.Mandate.{ExactOperation, UnsignedPurchasePermitV2}
use virtual_haibin.Validation.{
  Json, boolean, number, text, object, Fields, no_more, field, get, has_only, valid, is_number,
  is_text, is_false,
}
use virtual_haibin.Validation.Permit.{purchase_permit_domain, validate_unsigned_purchase_permit_v2}
use virtual_haibin.Validation.Accepts.{IsOperation, HasTerms, validate-IsPermit_iff}

-- The values of TypeScript as they are: an operation and a permit as JSON objects.
abbrev pub operation_json : ExactOperation → Json
operation_json op = object (
    field "method" (text op.method) (
      field "resource" (text op.resource)
        (field "operation" (text op.operation) (field "datasetId" (text op.dataset_id) no_more))))

abbrev pub permit_fields : UnsignedPurchasePermitV2 → Fields
permit_fields p = field "version" (number 2) (
    field "domain" (text purchase_permit_domain) (
      field "grantId" (text p.grant_id) (
        field "issuer" (text p.issuer) (
          field "authorizedAgent" (text p.authorized_agent) (
            field "service" (text p.service) (
              field "capability" (text p.capability) (
                field "network" (text p.network) (
                  field "mint" (text p.mint) (
                    field "recipient" (text p.recipient) (
                      field "maxPerCallAtomic" (text p.max_per_call_atomic) (
                        field "maxTotalAtomic" (text p.max_total_atomic) (
                          field "issuedAt" (number p.issued_at) (
                            field "expiresAt" (number p.expires_at) (
                              field "subdelegation" (boolean false) (
                                field "operation" (operation_json p.operation)
                                  no_more)))))))))))))))

IsOperation-kept :
    (o : Option Json) (op : ExactOperation)
    → IsOperation o op
    → IsOperation (some (operation_json op)) op
unfolding get has_only String-discrete
IsOperation-kept o op i = record {
  fields = field "method" (text op.method) (
      field "resource" (text op.resource)
        (field "operation" (text op.operation) (field "datasetId" (text op.dataset_id) no_more)));
  is_object = refl;
  only = refl;
  method = record { present = refl; passes = i.method.passes };
  resource = record { present = refl; passes = i.resource.passes };
  operation = record { present = refl; passes = i.operation.passes };
  dataset_id = record { present = refl; passes = i.dataset_id.passes };
}

module _ (is_address : String → Bool) where
  terms-kept :
      (fields : Fields) (p : UnsignedPurchasePermitV2)
      → HasTerms is_address fields p.terms
      → HasTerms is_address (permit_fields p) p.terms
  unfolding get is_text is_false String-discrete
  terms-kept fields p h = record {
    domain = refl;
    grant_id = record { present = refl; passes = h.grant_id.passes };
    issuer = record { present = refl; passes = h.issuer.passes };
    authorized_agent = record { present = refl; passes = h.authorized_agent.passes };
    service = record { present = refl; passes = h.service.passes };
    capability = record { present = refl; passes = h.capability.passes };
    network = record { present = refl; passes = h.network.passes };
    mint = record { present = refl; passes = h.mint.passes };
    recipient = record { present = refl; passes = h.recipient.passes };
    max_per_call_atomic = record { present = refl; passes = h.max_per_call_atomic.passes };
    max_total_atomic = record { present = refl; passes = h.max_total_atomic.passes };
    per_call_positive = h.per_call_positive;
    per_call_total = h.per_call_total;
    total_bound = h.total_bound;
    issued_at = record { present = refl; safe = h.issued_at.safe };
    expires_at = record { present = refl; safe = h.expires_at.safe };
    ordered = h.ordered;
    subdelegation = refl;
  }

  -- A permit that validation returned for any JSON value is itself, as a JSON object, accepted as the
  -- same permit.
  pub validate_permit_again :
      (candidate : Json) (p : UnsignedPurchasePermitV2)
      → validate_unsigned_purchase_permit_v2 is_address candidate ≡ valid p
      → validate_unsigned_purchase_permit_v2 is_address (object (permit_fields p)) ≡ valid p
  unfolding get is_number String-discrete
  validate_permit_again candidate p e =
      let h = (validate-IsPermit_iff is_address candidate p).0 e in
      (validate-IsPermit_iff is_address (object (permit_fields p)) p).1 (record {
        fields = permit_fields p;
        is_object = refl;
        version = refl;
        has_terms = terms-kept h.fields p h.has_terms;
        has_operation = IsOperation-kept (get "operation" h.fields) p.operation h.has_operation;
      })
