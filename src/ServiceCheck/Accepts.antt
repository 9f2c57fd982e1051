-- ===== src/ServiceCheck/Accepts.antt =====
-- When a service accepts a paid request.
use virtual_haibin.Prelude.{
  ◌+◌, ◌≤◌, String, Bool, true, false, Option, none, some, ◌≡◌, ◌≢◌, ◌↔◌, arith, inl, inr,
  Option-cases,
}
use virtual_haibin.Evidence.{SignedServiceAuthorizationV1}
use virtual_haibin.ServiceCheck.{
  ServiceContext, ServiceAuthorizationCheck, accepted, is_other_id, check_payment, check_request,
  check_authorization, check_header, check_service_authorization,
}

other_id-cases : (o : Option String) (id : String) → (is_other_id o id ≡ false) ↔ (o ≡ some id)
other_id-cases none id = (λ h. cc (h), λ h. cc (h))
other_id-cases (some header) id = (λ h. ground (arith, h), λ h. ground (arith, h))

module _ {Bytes : Type 0} (decode : String → Option SignedServiceAuthorizationV1)
    (verify : SignedServiceAuthorizationV1 → String → Bool) (pathname : String → Option String)
    (decode_utf8 : Bytes → String) (encode_utf8 : String → Bytes)
    (same_bytes : Bytes → Bytes → Bool) (digest : String → String → String) where
  -- The authorization `a` is for the request that was received, and for the service's own price.
  pub record IsAuthorized (context : ServiceContext Bytes) (a : SignedServiceAuthorizationV1)
      (sha : String) : Type 0 where
    pub header : String
    pub sent : context.header ≡ some header
    pub nonempty : header ≢ ""
    pub decoded : decode header ≡ some a
    pub signed : verify a context.pinned_authority ≡ true
    pub begun : a.issued_at ≤ context.now + 30000
    pub unexpired : context.now ≤ a.expires_at
    pub path : pathname a.url ≡ some context.path
    pub method : context.method ≡ a.method
    pub exact_bytes :
        same_bytes (encode_utf8 (decode_utf8 context.raw_body)) context.raw_body ≡ true
    pub digest_ok : digest a.url (decode_utf8 context.raw_body) ≡ a.request_sha256
    pub digest_is : sha ≡ a.request_sha256
    pub invocation : context.invocation_id_header ≡ some a.invocation_id
    pub asset : a.asset ≡ context.expected_payment.asset
    pub pay_to : a.pay_to ≡ context.expected_payment.pay_to
    pub amount : a.amount_atomic ≡ context.expected_payment.amount_atomic

  abbrev check : ServiceContext Bytes → ServiceAuthorizationCheck
  check =
      check_service_authorization decode verify pathname decode_utf8 encode_utf8 same_bytes digest

  accepts-IsAuthorized :
      (context : ServiceContext Bytes) (a : SignedServiceAuthorizationV1) (sha : String)
      → check context ≡ accepted a sha
      → IsAuthorized context a sha
  unfolding check_service_authorization check_header check_authorization check_request check_payment
  accepts-IsAuthorized context a sha h = elim (Option-cases context.header) [
    | inl e ↦ absurd (ground (arith, e, h))
    | inr (header, e) ↦ elim (Option-cases (decode header)) [
      | inl f ↦ absurd (ground (arith, e, f, h))
      | inr (b, f) ↦ elim (Option-cases (pathname b.url)) [
        | inl g ↦ absurd (ground (arith, e, f, g, h))
        | inr (path, g) ↦
            let other = other_id-cases context.invocation_id_header b.invocation_id in
            let it : b ≡ a = ground (arith, e, f, g, h) in
            let sha_is : digest b.url (decode_utf8 context.raw_body) ≡ sha =
              ground (arith, e, f, g, h) in
            let mine : IsAuthorized context b sha = record {
              header = header;
              sent = e;
              nonempty = ground (arith, e, f, g, h);
              decoded = f;
              signed = ground (arith, e, f, g, h);
              begun = ground (arith, e, f, g, h);
              unexpired = ground (arith, e, f, g, h);
              path = ground (arith, e, f, g, h);
              method = ground (arith, e, f, g, h);
              exact_bytes = ground (arith, e, f, g, h);
              digest_ok = ground (arith, e, f, g, h);
              digest_is = ground (arith, e, f, g, h);
              invocation = other.0 (ground (arith, e, f, g, h));
              asset = ground (arith, e, f, g, h);
              pay_to = ground (arith, e, f, g, h);
              amount = ground (arith, e, f, g, h);
            } in
            rw (← it) mine
      ]
    ]
  ]

  IsAuthorized-accepts :
      (context : ServiceContext Bytes) (a : SignedServiceAuthorizationV1) (sha : String)
      → IsAuthorized context a sha
      → check context ≡ accepted a sha
  unfolding check_service_authorization check_header check_authorization check_request check_payment
  IsAuthorized-accepts context a sha p =
      let other = (other_id-cases context.invocation_id_header a.invocation_id).1 p.invocation in
      ground (
        arith, p.sent, p.nonempty, p.decoded, p.signed, p.begun, p.unexpired, p.path, p.method,
        p.exact_bytes, p.digest_ok, p.digest_is, other, p.asset, p.pay_to, p.amount,
      )

  -- A service accepts a paid request exactly when its header carries an authorization that the pinned
  -- authority signed, within its validity (thirty seconds early at most), for this very method, path,
  -- body, digest and invocation, and for exactly the asset, recipient and amount of the service's
  -- price.
  pub accepts-IsAuthorized_iff :
      (context : ServiceContext Bytes) (a : SignedServiceAuthorizationV1) (sha : String)
      → (check_service_authorization decode verify pathname decode_utf8 encode_utf8 same_bytes
            digest context
          ≡ accepted a sha)
        ↔ IsAuthorized context a sha
  accepts-IsAuthorized_iff context a sha =
      (accepts-IsAuthorized context a sha, IsAuthorized-accepts context a sha)
