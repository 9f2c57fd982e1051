-- ===== src/ServiceCheck.antt =====
-- packages/evidence/src/service.ts: what an integrated service checks of a paid request before its
-- payment gate may settle. The text of a failure and the digest of the authorization, which go into
-- the answer only, are left out.
pub mod Accepts
mod Examples
use virtual_haibin.Prelude.{
  ℕ, ◌+◌, String, Bool, true, false, not, ◌&&◌, ◌||◌, Option, none, some, List, [], ◌∷◌, ltb,
  if◌then◌else◌, ◌==◌,
}
use virtual_haibin.Evidence.{SignedServiceAuthorizationV1}

pub data ServiceAuthorizationReasonCode : Type 0 where
  authorization_required authorization_invalid authorization_expired request_mismatch
        payment_mismatch :
      ServiceAuthorizationReasonCode

pub data ServiceAuthorizationCheck : Type 0 where
  accepted : SignedServiceAuthorizationV1 → String → ServiceAuthorizationCheck
  failed : ServiceAuthorizationReasonCode → ServiceAuthorizationCheck

pub record ExpectedPayment : Type 0 where
  pub asset : String
  pub pay_to : String
  pub amount_atomic : String

-- `Bytes` is the type of a request's body as it was received.
pub record ServiceContext (Bytes : Type 0) : Type 0 where
  pub header : Option String
  pub pinned_authority : String
  pub method : String
  pub path : String
  pub raw_body : Bytes
  pub invocation_id_header : Option String
  pub expected_payment : ExpectedPayment
  pub now : ℕ

-- `context.invocationIdHeader !== authorization.invocationId`
abbrev pub is_other_id : Option String → String → Bool
is_other_id none id = true
is_other_id (some header) id = not (header == id)

-- Code that is not of the module: `decode` parses a header, or throws; `verify` checks the signature
-- by a key; `pathname` reads a URL's path, or throws; `decode_utf8` and `encode_utf8` convert the
-- body, `same_bytes` compares bodies; `digest` is that of a POST of JSON to a URL.
module _ {Bytes : Type 0} (decode : String → Option SignedServiceAuthorizationV1)
    (verify : SignedServiceAuthorizationV1 → String → Bool) (pathname : String → Option String)
    (decode_utf8 : Bytes → String) (encode_utf8 : String → Bytes)
    (same_bytes : Bytes → Bytes → Bool) (digest : String → String → String) where
  unfoldable pub check_payment :
      ServiceContext Bytes → SignedServiceAuthorizationV1 → String → ServiceAuthorizationCheck
  check_payment context authorization request_sha256 =
      if not (authorization.asset == context.expected_payment.asset)
        || (not (authorization.pay_to == context.expected_payment.pay_to)
            || not (authorization.amount_atomic == context.expected_payment.amount_atomic))
      then failed payment_mismatch
      else accepted authorization request_sha256

  unfoldable pub check_request :
      ServiceContext Bytes → SignedServiceAuthorizationV1 → String → ServiceAuthorizationCheck
  check_request context authorization path =
      let body = decode_utf8 context.raw_body in
      let request_sha256 = digest authorization.url body in
      let next = check_payment context authorization request_sha256 in
      if not (context.method == authorization.method)
        || (not (context.path == path)
            || (not (same_bytes (encode_utf8 body) context.raw_body)
                || (not (request_sha256 == authorization.request_sha256)
                    || is_other_id context.invocation_id_header authorization.invocation_id)))
      then failed request_mismatch
      else next

  unfoldable pub check_authorization :
      ServiceContext Bytes → SignedServiceAuthorizationV1 → ServiceAuthorizationCheck
  check_authorization context authorization =
      if not (verify authorization context.pinned_authority)
      then failed authorization_invalid
      else if ltb (context.now + 30000) authorization.issued_at
          || ltb authorization.expires_at context.now
      then failed authorization_expired
      else elim (pathname authorization.url) [
        | none ↦ failed authorization_invalid
        | some path ↦ check_request context authorization path
      ]

  unfoldable pub check_header : ServiceContext Bytes → String → ServiceAuthorizationCheck
  check_header context header =
      if header == "" then failed authorization_required else elim (decode header) [
        | none ↦ failed authorization_invalid
        | some authorization ↦ check_authorization context authorization
      ]

  unfoldable pub check_service_authorization : ServiceContext Bytes → ServiceAuthorizationCheck
  check_service_authorization context = elim (context.header) [
    | none ↦ failed authorization_required
    | some header ↦ check_header context header
  ]
