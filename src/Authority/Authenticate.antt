-- ===== src/Authority/Authenticate.antt =====
-- apps/authority/src/authorize.ts: `#authenticate` and the fingerprint of a request.
use virtual_haibin.Prelude.{
  ℕ, ◌+◌, String, Bool, true, false, not, ◌&&◌, ◌||◌, Option, none, some, ltb, any, if◌then◌else◌,
  ◌==◌,
}
use virtual_haibin.Mandate.{SignedPurchasePermitV2, AuthorizationRequestV2}
use virtual_haibin.Authority.{
  AuthorizeRequestInput, IssuerEntitlement, AuthorityOptions, AuthorityError, agent_authentication,
  issuer_not_entitled, AuthenticationReason, permit_invalid, agent_signature_missing,
  agent_signature_invalid, request_audience_mismatch, request_grant_mismatch,
  request_permit_digest_mismatch, request_timestamp_out_of_range, AuthenticatedRequest,
  FingerprintInput, Externals,
}

pub data Authentication : Type 0 where
  authenticated : AuthenticatedRequest → Authentication
  rejected : AuthorityError → Authentication

-- `if (test) reject(reason, …)`
abbrev pub reject_if : Bool → AuthenticationReason → Authentication → Authentication
reject_if true reason rest = rejected (agent_authentication reason)
reject_if false reason rest = rest

abbrev pub is_entitled : IssuerEntitlement → String → String → Bool
is_entitled entitlement issuer network =
    issuer == entitlement.issuer
    && any (λ profile. profile == network) entitlement.settlement_profiles

-- `computeRequestFingerprint`; the encoding of the fields as canonical JSON is part of the hash.
abbrev pub fingerprint_input :
    SignedPurchasePermitV2 → AuthorizationRequestV2 → String → FingerprintInput
fingerprint_input permit request operation_digest = record {
  permit_digest = request.permit_digest;
  grant_id = permit.grant_id;
  agent = permit.authorized_agent;
  invocation_id = request.invocation_id;
  service = request.service;
  capability = request.capability;
  network = request.network;
  mint = request.mint;
  recipient = request.recipient;
  amount_atomic = request.amount_atomic;
  operation_digest = operation_digest;
}

module _ {Candidate : Type 0} (ext : Externals Candidate) (options : AuthorityOptions) where
  abbrev pub authenticated_request :
      SignedPurchasePermitV2 → AuthorizationRequestV2 → String → AuthenticatedRequest
  authenticated_request permit request signature =
      let operation_digest = ext.operation_digest request.operation in
      record {
        permit = permit;
        request = request;
        agent_signature = record { signature = signature };
        operation_digest = operation_digest;
        fingerprint = ext.hash_fingerprint (fingerprint_input permit request operation_digest);
      }

  -- What is checked of a request under a permit that is verified.
  unfoldable pub check_request :
      SignedPurchasePermitV2 → AuthorizationRequestV2 → String → ℕ → Authentication
  check_request permit request signature now =
      if not (is_entitled options.issuer_entitlement permit.issuer permit.network)
      then rejected (issuer_not_entitled permit.issuer)
      else reject_if (not (ext.verify_request_signature request signature permit.authorized_agent))
          agent_signature_invalid
          (reject_if (not (request.audience == options.audience)) request_audience_mismatch (
            reject_if (not (request.grant_id == permit.grant_id)) request_grant_mismatch (
              reject_if (not (request.permit_digest == ext.permit_digest permit))
                request_permit_digest_mismatch
                (reject_if
                  (ltb (request.issued_at + options.max_request_age_ms) now
                    || ltb (now + options.max_future_skew_ms) request.issued_at)
                  request_timestamp_out_of_range
                  (authenticated (authenticated_request permit request signature))))))

  unfoldable pub check_permit :
      Option SignedPurchasePermitV2 → AuthorizationRequestV2 → String → ℕ → Authentication
  check_permit none request signature now = rejected (agent_authentication permit_invalid)
  check_permit (some permit) request signature now = check_request permit request signature now

  unfoldable pub authenticate : AuthorizeRequestInput Candidate → ℕ → Authentication
  authenticate input now = elim (input.agent_signature) [
    | none ↦ rejected (agent_authentication agent_signature_missing)
    | some signature ↦
        check_permit (ext.verify_permit input.permit) input.authorization_request signature now
  ]
