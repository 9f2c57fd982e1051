-- ===== src/Authority/Receipts.antt =====
-- apps/authority/src/authorize.ts: `#ensureReceipt` and `#result`, what the service answers of a
-- stored invocation.
use virtual_haibin.Prelude.{
  String, Bool, Option, none, some, ◌≡◌, ◌⊎◌, inl, inr, refl, if◌then◌else◌,
}
use virtual_haibin.Mandate.{AuthorizationRequestV1, AuthorizationRequestV2}
use virtual_haibin.Payments.{PaymentRequirement}
use virtual_haibin.Evidence.{
  allow, deny, UnsignedAuthorizationReceiptV1, OperationBinding, SignedAuthorizationReceipt,
}
use virtual_haibin.Store.{
  StoredAuthorizationRequest, v1, v2, InvocationRecord, confirmed, same_state,
}
use virtual_haibin.Store.Operations.{attach_receipt, is_decided}
use virtual_haibin.Authority.{
  AuthorityOptions, AuthorizeResult, PaymentEvidence, internal, Externals,
}
use virtual_haibin.Authority.Monad.{Schedule, Service, pure, raise, access}

pub stored_cases :
    (r : StoredAuthorizationRequest)
    → ((q : AuthorizationRequestV1) × (r ≡ v1 q)) ⊎ ((q : AuthorizationRequestV2) × (r ≡ v2 q))
stored_cases (v1 q) = inl (q, refl)
stored_cases (v2 q) = inr (q, refl)

-- The fields that both versions of a stored request have.
abbrev pub common_fields : StoredAuthorizationRequest → AuthorizationRequestV1
common_fields (v1 request) = request
common_fields (v2 request) = request.request

abbrev pub receipt_fields : String → InvocationRecord → UnsignedAuthorizationReceiptV1
receipt_fields authority invocation =
    let request = common_fields invocation.request in
    record {
      invocation_id = invocation.invocation_id;
      grant_id = invocation.grant_id;
      authority = authority;
      agent = invocation.agent;
      permit_digest = request.permit_digest;
      request_fingerprint = invocation.fingerprint;
      service = request.service;
      capability = request.capability;
      network = request.network;
      mint = request.mint;
      recipient = request.recipient;
      amount_atomic = invocation.amount_atomic;
      decision = if same_state invocation.state confirmed then allow else deny;
      reason_codes = invocation.reason_codes;
      payment_transaction_id = invocation.payment_transaction_id;
      decided_at = invocation.decided_at;
    }

-- `value ?? other`
abbrev pub or_else : {A : Type 0} → Option A → Option A → Option A
or_else none other = other
or_else (some a) other = some a

abbrev pub maybe : {A B : Type 0} → (A → B) → Option A → Option B
maybe f none = none
maybe f (some a) = some (f a)

abbrev pub join_option : {A : Type 0} → Option (Option A) → Option A
join_option none = none
join_option (some o) = o

-- `#result`'s payment, for the provider's profile.
unfoldable pub payment_evidence : String → InvocationRecord → PaymentRequirement → PaymentEvidence
payment_evidence profile invocation requirement =
    let attempt = invocation.payment_attempt in
    record {
      settlement_profile = elim attempt [ none ↦ profile | some a ↦ a.settlement_profile ];
      protocol = requirement.protocol;
      scheme = requirement.scheme;
      challenge_network = requirement.network;
      asset = requirement.asset;
      pay_to = requirement.pay_to;
      amount_atomic = requirement.amount_atomic;
      resource_url = requirement.resource_url;
      request_sha256 = maybe (λ a. a.request_sha256) attempt;
      payer = maybe (λ a. a.payer) attempt;
      payer_signature = maybe (λ a. a.payer_signature) attempt;
      blockhash = maybe (λ a. a.blockhash) attempt;
      transaction_id =
          or_else (maybe (λ s. s.transaction_id) invocation.settlement)
            invocation.payment_transaction_id;
      slot = join_option (maybe (λ s. s.slot) invocation.settlement);
      result_sha256 = maybe (λ r. r.sha256) invocation.result;
    }

unfoldable pub result :
    String → InvocationRecord → SignedAuthorizationReceipt → Bool → AuthorizeResult
result profile invocation receipt replay = record {
  receipt = receipt;
  replay = replay;
  payment = maybe (payment_evidence profile invocation) invocation.payment_requirement;
  result = maybe (λ r. r.json) invocation.result;
}

module _ {Candidate : Type 0} (ext : Externals Candidate) (options : AuthorityOptions) where
  -- A v2 request gets a v2 receipt, with the operation.
  abbrev pub operation_binding : StoredAuthorizationRequest → Option OperationBinding
  operation_binding (v1 request) = none
  operation_binding (v2 request) = some (record {
    operation = request.operation;
    operation_digest = ext.operation_digest request.operation;
  })

  unfoldable pub build_receipt : InvocationRecord → SignedAuthorizationReceipt
  build_receipt invocation =
      ext.sign_receipt (receipt_fields options.authority_address invocation)
        (operation_binding invocation.request)

  unfoldable pub ensure_receipt : Schedule → InvocationRecord → Service SignedAuthorizationReceipt
  ensure_receipt schedule invocation = elim (invocation.receipt) [
    | some receipt ↦ pure receipt
    | none ↦
        if is_decided invocation.state
        then access schedule (attach_receipt invocation.invocation_id (build_receipt invocation))
        else raise (internal "no decision receipt")
  ]
