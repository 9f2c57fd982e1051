-- ===== src/Validation/Accepts.antt =====
-- Which JSON values are accepted, and as what.
use virtual_haibin.Prelude.{
  ◌≤◌, ◌<◌, String, Bool, true, not, Option, none, some, ◌≡◌, ◌↔◌, refl, subst, arith, ltb, leb,
}
use virtual_haibin.Decimal.{big_int, is_canonical_atomic_amount, max_u64}
use virtual_haibin.Mandate.{ExactOperation, UnsignedPurchasePermitV1, UnsignedPurchasePermitV2}
use virtual_haibin.Validation.{
  Json, object, Fields, get, has_only, Checked, valid, invalid, ◌>>=◌, ensure, is_number, is_text,
  is_false,
}
use virtual_haibin.Validation.Patterns.{
  matches_grant_id, matches_identifier, matches_resource, matches_dataset_id,
}
use virtual_haibin.Validation.Operation.{
  OperationProblem, bad_method, bad_resource, bad_operation, bad_dataset_id, operation_fields,
  is_method, is_report_operation, validate_operation_fields, validate_exact_operation,
}
use virtual_haibin.Validation.Permit.{
  invalid_agent, invalid_amount, invalid_capability, invalid_grant_id, invalid_issuer, invalid_mint,
  invalid_network, invalid_recipient, invalid_service, invalid_time_range, purchase_permit_domain,
  is_supported_network, as_invalid_operation, fits, is_public_key, validate_shared_fields,
  validate_permit_fields, validate_unsigned_purchase_permit_v2,
}
use virtual_haibin.Validation.Rules.{
  IsText, IsTime, bind-post, bind-valid, ensure-valid, text_field-valid, text_field-eval,
  valid-injective, time_field-valid, time_field-eval,
}

-- An object of the four fields of an operation and no other, each well formed.
pub record IsOperation (o : Option Json) (op : ExactOperation) : Type 0 where
  pub fields : Fields
  pub is_object : o ≡ some (object fields)
  pub only : has_only operation_fields fields ≡ true
  pub method : IsText is_method (get "method" fields) op.method
  pub resource : IsText matches_resource (get "resource" fields) op.resource
  pub operation : IsText is_report_operation (get "operation" fields) op.operation
  pub dataset_id : IsText matches_dataset_id (get "datasetId" fields) op.dataset_id

IsOperation-of_fields :
    (fields : Fields) (op : ExactOperation)
    → validate_operation_fields fields ≡ valid op
    → IsOperation (some (object fields)) op
unfolding validate_operation_fields
IsOperation-of_fields fields op e =
    let (u, only, e) = bind-valid _ _ op e in
    let (method, m, e) = bind-valid _ _ op e in
    let (resource, r, e) = bind-valid _ _ op e in
    let (operation, o, e) = bind-valid _ _ op e in
    let (dataset_id, d, e) = bind-valid _ _ op e in
    let made : op ≡ record {
      method = method;
      resource = resource;
      operation = operation;
      dataset_id = dataset_id;
    } =
      cc (e) in
    record {
      fields = fields;
      is_object = refl;
      only = ensure-valid _ _ u only;
      method = rw made (text_field-valid _ _ _ method m);
      resource = rw made (text_field-valid _ _ _ resource r);
      operation = rw made (text_field-valid _ _ _ operation o);
      dataset_id = rw made (text_field-valid _ _ _ dataset_id d);
    }

pub IsOperation-valid :
    (o : Option Json) (op : ExactOperation)
    → validate_exact_operation o ≡ valid op
    → IsOperation o op
unfolding validate_exact_operation
IsOperation-valid (some (object fields)) op e = IsOperation-of_fields fields op e
IsOperation-valid (some _) op e = absurd (cc (e))
IsOperation-valid none op e = absurd (cc (e))

pub operation-eval :
    (o : Option Json) (op : ExactOperation)
    → IsOperation o op
    → validate_exact_operation o ≡ valid op
unfolding validate_exact_operation validate_operation_fields ◌>>=◌ ensure
operation-eval o op i =
    rw
      (
        i.is_object,
        i.only,
        text_field-eval _ _ bad_method op.method i.method,
        text_field-eval _ _ bad_resource op.resource i.resource,
        text_field-eval _ _ bad_operation op.operation i.operation,
        text_field-eval _ _ bad_dataset_id op.dataset_id i.dataset_id,
      )
      refl

module _ (is_address : String → Bool) where
  -- An object with the fields of a permit, each well formed: positive amounts of 64 bits, of which
  -- that of a call is within the total, and safe timestamps, of which the second is later.
  pub record HasTerms (fields : Fields) (p : UnsignedPurchasePermitV1) : Type 0 where
    pub domain : is_text purchase_permit_domain (get "domain" fields) ≡ true
    pub grant_id : IsText matches_grant_id (get "grantId" fields) p.grant_id
    pub issuer : IsText (is_public_key is_address) (get "issuer" fields) p.issuer
    pub authorized_agent :
        IsText (is_public_key is_address) (get "authorizedAgent" fields) p.authorized_agent
    pub service : IsText matches_identifier (get "service" fields) p.service
    pub capability : IsText matches_identifier (get "capability" fields) p.capability
    pub network : IsText is_supported_network (get "network" fields) p.network
    pub mint : IsText (is_public_key is_address) (get "mint" fields) p.mint
    pub recipient : IsText (is_public_key is_address) (get "recipient" fields) p.recipient
    pub max_per_call_atomic :
        IsText is_canonical_atomic_amount (get "maxPerCallAtomic" fields) p.max_per_call_atomic
    pub max_total_atomic :
        IsText is_canonical_atomic_amount (get "maxTotalAtomic" fields) p.max_total_atomic
    pub per_call_positive : 0 < big_int p.max_per_call_atomic
    pub per_call_total : big_int p.max_per_call_atomic ≤ big_int p.max_total_atomic
    pub total_bound : big_int p.max_total_atomic ≤ max_u64
    pub issued_at : IsTime (get "issuedAt" fields) p.issued_at
    pub expires_at : IsTime (get "expiresAt" fields) p.expires_at
    pub ordered : p.issued_at < p.expires_at
    pub subdelegation : is_false (get "subdelegation" fields) ≡ true

  shared-valid :
      (fields : Fields) (p : UnsignedPurchasePermitV1)
      → validate_shared_fields is_address fields ≡ valid p
      → HasTerms fields p
  unfolding validate_shared_fields
  shared-valid fields = bind-post (HasTerms fields) _ _ (λ u₀ domain.
      bind-post (HasTerms fields) _ _ (λ grant_id h_grant_id.
        bind-post (HasTerms fields) _ _ (λ issuer h_issuer.
          bind-post (HasTerms fields) _ _ (λ authorized_agent h_authorized_agent.
            bind-post (HasTerms fields) _ _ (λ service h_service.
              bind-post (HasTerms fields) _ _ (λ capability h_capability.
                bind-post (HasTerms fields) _ _ (λ network h_network.
                  bind-post (HasTerms fields) _ _ (λ mint h_mint.
                    bind-post (HasTerms fields) _ _ (λ recipient h_recipient.
                      bind-post (HasTerms fields) _ _ (λ max_per_call_atomic h_max_per_call_atomic.
                        bind-post (HasTerms fields) _ _ (λ max_total_atomic h_max_total_atomic.
                          bind-post (HasTerms fields) _ _ (λ u₁ call_fits.
                            bind-post (HasTerms fields) _ _ (λ u₂ total_fits.
                              bind-post (HasTerms fields) _ _ (λ u₃ within.
                                bind-post (HasTerms fields) _ _ (λ issued_at h_issued.
                                  bind-post (HasTerms fields) _ _ (λ expires_at h_expires.
                                    bind-post (HasTerms fields) _ _ (λ u₄ ordered.
                                      bind-post (HasTerms fields) _ _ (λ u₅ subdelegation. λ p e.
                                        let positive = ensure-valid _ _ u₁ call_fits in
                                        let bounded = ensure-valid _ _ u₂ total_fits in
                                        let total = ensure-valid _ _ u₃ within in
                                        let later = ensure-valid _ _ u₄ ordered in
                                        subst (HasTerms fields) (valid-injective e) (record {
                                          domain = ensure-valid _ _ u₀ domain;
                                          grant_id = (text_field-valid _ _ _ grant_id h_grant_id);
                                          issuer = (text_field-valid _ _ _ issuer h_issuer);
                                          authorized_agent =
                                              (text_field-valid _ _ _ authorized_agent
                                                h_authorized_agent);
                                          service = (text_field-valid _ _ _ service h_service);
                                          capability =
                                              (text_field-valid _ _ _ capability h_capability);
                                          network = (text_field-valid _ _ _ network h_network);
                                          mint = (text_field-valid _ _ _ mint h_mint);
                                          recipient =
                                              (text_field-valid _ _ _ recipient h_recipient);
                                          max_per_call_atomic =
                                              (text_field-valid _ _ _ max_per_call_atomic
                                                h_max_per_call_atomic);
                                          max_total_atomic =
                                              (text_field-valid _ _ _ max_total_atomic
                                                h_max_total_atomic);
                                          per_call_positive = (ground (arith, positive));
                                          per_call_total = (ground (arith, total));
                                          total_bound = (ground (arith, bounded));
                                          issued_at = (time_field-valid _ _ issued_at h_issued);
                                          expires_at = (time_field-valid _ _ expires_at h_expires);
                                          ordered = (ground (arith, later));
                                          subdelegation = ensure-valid _ _ u₅ subdelegation;
                                        })))))))))))))))))))

  shared-eval :
      (fields : Fields) (p : UnsignedPurchasePermitV1)
      → HasTerms fields p
      → validate_shared_fields is_address fields ≡ valid p
  unfolding validate_shared_fields ◌>>=◌ ensure
  shared-eval fields p h =
      let call_fits : fits p.max_per_call_atomic ≡ true =
        ground (arith, h.per_call_positive, h.per_call_total, h.total_bound) in
      let total_fits : fits p.max_total_atomic ≡ true =
        ground (arith, h.per_call_positive, h.per_call_total, h.total_bound) in
      let within : not (ltb (big_int p.max_total_atomic) (big_int p.max_per_call_atomic)) ≡ true =
        ground (arith, h.per_call_total) in
      let later : not (leb p.expires_at p.issued_at) ≡ true = ground (arith, h.ordered) in
      rw (
        h.domain,
        text_field-eval _ _ invalid_grant_id p.grant_id h.grant_id,
        text_field-eval _ _ invalid_issuer p.issuer h.issuer,
        text_field-eval _ _ invalid_agent p.authorized_agent h.authorized_agent,
        text_field-eval _ _ invalid_service p.service h.service,
        text_field-eval _ _ invalid_capability p.capability h.capability,
        text_field-eval _ _ invalid_network p.network h.network,
        text_field-eval _ _ invalid_mint p.mint h.mint,
        text_field-eval _ _ invalid_recipient p.recipient h.recipient,
        text_field-eval _ _ invalid_amount p.max_per_call_atomic h.max_per_call_atomic,
        text_field-eval _ _ invalid_amount p.max_total_atomic h.max_total_atomic,
        call_fits,
        total_fits,
        within,
        time_field-eval _ invalid_time_range p.issued_at h.issued_at,
        time_field-eval _ invalid_time_range p.expires_at h.expires_at,
        later,
        h.subdelegation,
      )

  pub record IsPermit (candidate : Json) (p : UnsignedPurchasePermitV2) : Type 0 where
    pub fields : Fields
    pub is_object : candidate ≡ object fields
    pub version : is_number 2 (get "version" fields) ≡ true
    pub has_terms : HasTerms fields p.terms
    pub has_operation : IsOperation (get "operation" fields) p.operation

  IsPermit-valid :
      (candidate : Json) (p : UnsignedPurchasePermitV2)
      → validate_unsigned_purchase_permit_v2 is_address candidate ≡ valid p
      → IsPermit candidate p
  unfolding validate_unsigned_purchase_permit_v2 validate_permit_fields
  IsPermit-valid (object fields) p e =
      let (u, version, e) = bind-valid _ _ p e in
      let (terms, t, e) = bind-valid _ _ p e in
      let (operation, o, e) = bind-valid _ _ p e in
      subst (IsPermit (object fields)) (valid-injective e) (record {
        fields = fields;
        is_object = refl;
        version = ensure-valid _ _ u version;
        has_terms = shared-valid fields terms t;
        has_operation =
            IsOperation-valid (get "operation" fields) operation (unwrapped _ operation o);
      })
    where
      unwrapped :
          (c : Checked OperationProblem ExactOperation) (op : ExactOperation)
          → as_invalid_operation c ≡ valid op
          → c ≡ valid op
      unwrapped (valid a) op h = cc (h)
      unwrapped (invalid x) op h = absurd (cc (h))
  IsPermit-valid _ p e = absurd (cc (e))

  permit-eval :
      (candidate : Json) (p : UnsignedPurchasePermitV2)
      → IsPermit candidate p
      → validate_unsigned_purchase_permit_v2 is_address candidate ≡ valid p
  unfolding validate_unsigned_purchase_permit_v2 validate_permit_fields ◌>>=◌ ensure
  permit-eval candidate p h = rw (
    h.is_object,
    h.version,
    shared-eval h.fields p.terms h.has_terms,
    operation-eval (get "operation" h.fields) p.operation h.has_operation,
  )

  -- A JSON value is accepted as a permit of version 2 exactly when it is an object with this version
  -- and domain whose fields are those of the permit: identifiers and a supported network of the right
  -- form, keys that are addresses, canonical amounts that are positive and fit in 64 bits, that of a
  -- call within the total, safe timestamps in order, no subdelegation, and an operation of its four
  -- fields and no other, each of its form.
  pub validate-IsPermit_iff :
      (candidate : Json) (p : UnsignedPurchasePermitV2)
      → (validate_unsigned_purchase_permit_v2 is_address candidate ≡ valid p) ↔ IsPermit candidate p
  validate-IsPermit_iff candidate p = (IsPermit-valid candidate p, permit-eval candidate p)
