-- ===== src/Authority/Authentic.antt =====
-- When a request is authenticated.
use virtual_haibin.Prelude.{
  ℕ, ◌+◌, ◌≤◌, String, true, some, any, ◌≡◌, ◌↔◌, ◌==◌, inl, inr, Option-cases, arith,
}
use virtual_haibin.Mandate.{SignedPurchasePermitV2, AuthorizationRequestV2}
use virtual_haibin.Authority.{
  AuthorizeRequestInput, AuthorityOptions, Externals, AuthenticatedRequest,
}
use virtual_haibin.Authority.Authenticate.{
  authenticated, authenticated_request, check_request, check_permit, authenticate,
}

module _ {Candidate : Type 0} (ext : Externals Candidate) (options : AuthorityOptions) where
  -- What is asked of a request under a permit.
  pub record Accepts (permit : SignedPurchasePermitV2) (request : AuthorizationRequestV2)
      (signature : String) (now : ℕ) : Type 0 where
    pub issuer : permit.issuer ≡ options.issuer_entitlement.issuer
    pub profile :
        any (λ p. p == permit.network) options.issuer_entitlement.settlement_profiles ≡ true
    pub signed : ext.verify_request_signature request signature permit.authorized_agent ≡ true
    pub audience : request.audience ≡ options.audience
    pub grant_id : request.grant_id ≡ permit.grant_id
    pub permit_digest : request.permit_digest ≡ ext.permit_digest permit
    pub not_stale : now ≤ request.issued_at + options.max_request_age_ms
    pub not_early : request.issued_at ≤ now + options.max_future_skew_ms

  pub record IsAuthentic (input : AuthorizeRequestInput Candidate) (now : ℕ)
      (auth : AuthenticatedRequest) : Type 0 where
    pub permit : SignedPurchasePermitV2
    pub signature : String
    pub has_signature : input.agent_signature ≡ some signature
    pub verified : ext.verify_permit input.permit ≡ some permit
    pub accepts : Accepts permit input.authorization_request signature now
    pub normalized :
        auth ≡ authenticated_request ext options permit input.authorization_request signature

  module _ (permit : SignedPurchasePermitV2) (request : AuthorizationRequestV2) (signature : String)
      (now : ℕ) where
    check_request-Accepts :
        (auth : AuthenticatedRequest)
        → check_request ext options permit request signature now ≡ authenticated auth
        → Accepts permit request signature now
          × (auth ≡ authenticated_request ext options permit request signature)
    unfolding check_request
    check_request-Accepts auth e = (
      record {
        issuer = ground arith;
        profile = ground arith;
        signed = ground arith;
        audience = ground arith;
        grant_id = ground arith;
        permit_digest = ground arith;
        not_stale = ground arith;
        not_early = ground arith;
      },
      ground arith,
    )

    check_request-eval :
        Accepts permit request signature now
        → check_request ext options permit request signature now
          ≡ authenticated (authenticated_request ext options permit request signature)
    unfolding check_request
    check_request-eval a = ground (
      arith, a.issuer, a.profile, a.signed, a.audience, a.grant_id, a.permit_digest, a.not_stale,
      a.not_early,
    )

  -- A request is authenticated exactly when it carries a signature, its permit verifies, the permit's
  -- issuer is the entitled one and its network one of the entitled profiles, the signature is that of
  -- the permit's agent over the request, the request names this authority, the permit's grant and the
  -- permit's digest, and it was issued neither too long ago nor too far ahead; the result is then the
  -- permit and the request that were checked.
  pub authenticate_iff :
      (input : AuthorizeRequestInput Candidate) (now : ℕ) (auth : AuthenticatedRequest)
      → (authenticate ext options input now ≡ authenticated auth) ↔ IsAuthentic input now auth
  authenticate_iff input now auth = (forth, back)
    where
      forth : authenticate ext options input now ≡ authenticated auth → IsAuthentic input now auth
      forth e = elim (Option-cases input.agent_signature) [
        | inl missing ↦ absurd (unfold authenticate in ground (arith, missing, e))
        | inr (signature, h) ↦ elim (Option-cases (ext.verify_permit input.permit)) [
          | inl invalid ↦ absurd (unfold authenticate check_permit in ground (arith, h, invalid, e))
          | inr (permit, v) ↦
              let checks : check_request ext options permit input.authorization_request signature
                    now
                  ≡ authenticated auth =
                unfold authenticate check_permit in ground (arith, h, v, e) in
              let (a, n) =
                check_request-Accepts permit input.authorization_request signature now auth
                  checks in
              record {
                permit = permit;
                signature = signature;
                has_signature = h;
                verified = v;
                accepts = a;
                normalized = n;
              }
        ]
      ]

      back : IsAuthentic input now auth → authenticate ext options input now ≡ authenticated auth
      back a =
          let checks =
            check_request-eval a.permit input.authorization_request a.signature now a.accepts in
          unfold authenticate check_permit in
          ground (arith, a.has_signature, a.verified, checks, a.normalized)
