-- ===== src/ServiceCheck/Examples.antt =====
-- A paid request on concrete data.
use virtual_haibin.Prelude.{String, String-discrete, Bool, Option, some, ◌≡◌, ◌↔◌, refl, ◌==◌}
use virtual_haibin.Evidence.{SignedServiceAuthorizationV1}
use virtual_haibin.ServiceCheck.{
  ServiceContext, accepted, check_service_authorization, check_header, check_authorization,
  check_request, check_payment,
}
use virtual_haibin.ServiceCheck.Accepts.{IsAuthorized, accepts-IsAuthorized_iff}

abbrev authorization_a : SignedServiceAuthorizationV1
authorization_a = record {
  authority = "vh";
  invocation_id = "i1";
  grant_id = "g";
  method = "POST";
  url = "https://s/r";
  content_type = "application/json";
  request_sha256 = "body";
  operation_digest = "od";
  network = "n";
  asset = "m";
  pay_to = "r";
  amount_atomic = "10";
  issued_at = 1000;
  expires_at = 2000;
  signature = "vh";
}

-- Parameters in place of the parser, the signatures, the URL, the encodings and the digest.
abbrev decode_a : String → Option SignedServiceAuthorizationV1
decode_a header = some authorization_a

abbrev verify_a : SignedServiceAuthorizationV1 → String → Bool
verify_a a key = a.signature == key

abbrev pathname_a : String → Option String
pathname_a url = some "/r"

abbrev same_text : String → String
same_text s = s

abbrev test_text : String → String → Bool
test_text s t = s == t

abbrev digest_a : String → String → String
digest_a url body = body

abbrev context_a : ServiceContext String
context_a = record {
  header = some "header";
  pinned_authority = "vh";
  method = "POST";
  path = "/r";
  raw_body = "body";
  invocation_id_header = some "i1";
  expected_payment = record { asset = "m"; pay_to = "r"; amount_atomic = "10" };
  now = 1500;
}

check_a :
    check_service_authorization decode_a verify_a pathname_a same_text same_text test_text digest_a
      context_a
    ≡ accepted authorization_a "body"
unfolding check_service_authorization check_header check_authorization check_request check_payment
    String-discrete
check_a = refl

accepts-IsAuthorized_iff_example :
    (check_service_authorization decode_a verify_a pathname_a same_text same_text test_text digest_a
        context_a
      ≡ accepted authorization_a "body")
    ↔ IsAuthorized decode_a verify_a pathname_a same_text same_text test_text digest_a context_a
        authorization_a "body"
accepts-IsAuthorized_iff_example =
    accepts-IsAuthorized_iff decode_a verify_a pathname_a same_text same_text test_text digest_a
      context_a authorization_a "body"
