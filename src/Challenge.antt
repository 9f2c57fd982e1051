-- ===== src/Challenge.antt =====
-- apps/authority/src/payment-challenge.ts and packages/payments/src/paid-request.ts: the requests
-- that the authority may pay for, and the validation of an untrusted 402 challenge against the
-- trusted settlement profile, the configured resource and the request that the agent signed.
pub mod Selection
pub mod Request
mod Examples
use Prim.Native.String.{◌++◌ as concat}
use virtual_haibin.Prelude.{
  ℕ, String, Bool, true, false, not, ◌&&◌, ◌||◌, Option, none, some, List, [], ◌∷◌, ◌++◌, ltb, eqb,
  any, if◌then◌else◌, ◌==◌, filter,
}
use virtual_haibin.Decimal.{is_empty}
use virtual_haibin.Mandate.{ExactOperation, AuthorizationRequestV2}
use virtual_haibin.Payments.{
  PaidResource, PaidRequest, PaymentRequirement, ChallengeRejectionCode,
  unsupported_payment_protocol, ChallengeResult, challenge, rejected, PaymentChallenge,
}
use virtual_haibin.Policy.{deny_if}

pub record AllowedAsset : Type 0 where
  pub mint : String
  pub label : String

pub record SettlementProfile : Type 0 where
  pub name : String
  pub permit_network : String
  pub rpc_url : String
  pub accepted_challenge_networks : List String
  pub allowed_assets : List AllowedAsset
  pub protocol : String
  pub x402_version : ℕ
  pub scheme : String
  pub required_blockhash_prefix : String

-- The codes that a rejected challenge carries are codes of the validation too.
pub data ChallengeReasonCode : Type 0 where
  from_rejection : ChallengeRejectionCode → ChallengeReasonCode
  unsupported_payment_scheme challenge_network_mismatch asset_not_allowed
        challenge_resource_mismatch challenge_fee_payer_invalid challenge_request_mismatch :
      ChallengeReasonCode

pub record ChallengeSelection : Type 0 where
  pub requirement : Option PaymentRequirement
  pub reason_codes : List ChallengeReasonCode

pub record ChallengeContext : Type 0 where
  pub profile : SettlementProfile
  pub paid_request : PaidRequest
  pub request : AuthorizationRequestV2
  pub payer_address : String

-- `requirement.feePayer === null || requirement.feePayer === payerAddress`
abbrev pub is_bad_fee_payer : Option String → String → Bool
is_bad_fee_payer none payer_address = true
is_bad_fee_payer (some fee_payer) payer_address = fee_payer == payer_address

-- `requirement.resourceUrl !== paidRequest.url`
abbrev pub is_other_url : Option String → String → Bool
is_other_url none url = true
is_other_url (some resource_url) url = not (resource_url == url)

-- The codes that the chosen requirement gets.
unfoldable pub requirement_denials :
    ChallengeContext → String → PaymentRequirement → List ChallengeReasonCode
requirement_denials context request_sha256 requirement =
    deny_if
      (not (requirement.protocol == context.profile.protocol)
        || not (eqb requirement.x402_version context.profile.x402_version))
      (from_rejection unsupported_payment_protocol)
    ++ (deny_if
          (not (any (λ asset. asset.mint == requirement.asset) context.profile.allowed_assets))
          asset_not_allowed
        ++ (deny_if
              (is_other_url requirement.resource_url context.paid_request.url
                || not (request_sha256 == context.paid_request.sha256))
              challenge_resource_mismatch
            ++ (deny_if (is_bad_fee_payer requirement.fee_payer context.payer_address)
                  challenge_fee_payer_invalid
                ++ deny_if
                    (not (requirement.asset == context.request.mint)
                      || (not (requirement.pay_to == context.request.recipient)
                          || not (requirement.amount_atomic == context.request.amount_atomic)))
                    challenge_request_mismatch)))

abbrev pub of_scheme : SettlementProfile → PaymentRequirement → Bool
of_scheme profile candidate = candidate.scheme == profile.scheme

abbrev pub of_network : SettlementProfile → PaymentRequirement → Bool
of_network profile candidate =
    any (λ network. network == candidate.network) profile.accepted_challenge_networks

-- The requirement `candidates[0]`, if there is one.
unfoldable pub select_candidate :
    ChallengeContext
    → PaymentChallenge
    → List PaymentRequirement
    → List PaymentRequirement
    → ChallengeSelection
select_candidate context quoted same_scheme [] = record {
  requirement = none;
  reason_codes =
      (if is_empty same_scheme then unsupported_payment_scheme else challenge_network_mismatch)
      ∷ [];
}
select_candidate context quoted same_scheme (requirement ∷ _) = record {
  requirement = some requirement;
  reason_codes = requirement_denials context quoted.request_sha256 requirement;
}

unfoldable pub select_and_validate_challenge :
    ChallengeResult → ChallengeContext → ChallengeSelection
select_and_validate_challenge (rejected code detail) context = record {
  requirement = none;
  reason_codes = from_rejection code ∷ [];
}
select_and_validate_challenge (challenge quoted) context =
    let same_scheme = filter (of_scheme context.profile) quoted.requirements in
    let candidates = filter (of_network context.profile) same_scheme in
    select_candidate context quoted same_scheme candidates

-- The parts of the WHATWG URL that the program reads.
pub record Url : Type 0 where
  pub href : String
  pub protocol : String
  pub username : String
  pub password : String
  pub search : String
  pub hash : String
  pub pathname : String

pub data RegistryError : Type 0 where
  invalid_url not_http embedded_credentials query_or_fragment : RegistryError

pub data RegistryResult : Type 0 where
  registry : List (String × PaidResource) → RegistryResult
  refused : RegistryError → RegistryResult

-- The outcome of `buildPaidRequest`: `not_served` is its null.
pub data BuildResult : Type 0 where
  built : PaidRequest → BuildResult
  not_served : BuildResult
  threw : BuildResult

unfoldable pub paid_service_key : String → String → String
paid_service_key service_id capability = concat service_id (concat "\0" capability)

-- `registry.set`: a key that is there keeps its place.
unfoldable pub set_resource :
    String → PaidResource → List (String × PaidResource) → List (String × PaidResource)
set_resource key resource [] = (key, resource) ∷ []
set_resource key resource ((k, r) ∷ entries) =
    if k == key then (key, resource) ∷ entries else (k, r) ∷ set_resource key resource entries

-- `registry.get`
unfoldable pub get_resource : String → List (String × PaidResource) → Option PaidResource
get_resource key [] = none
get_resource key ((k, r) ∷ entries) = if k == key then some r else get_resource key entries

-- What a resource is refused for.
abbrev pub url_error : Url → Option RegistryError
url_error url =
    if not (url.protocol == "http:") && not (url.protocol == "https:")
    then some not_http
    else if not (url.username == "") || not (url.password == "")
    then some embedded_credentials
    else if not (url.search == "") || not (url.hash == "")
    then some query_or_fragment
    else none

-- `parse_url` is `new URL`, which throws on what is no URL; `digest` is the SHA-256 of the domain
-- and the JSON array of the four texts; `canonical_body` is the canonical JSON of `{datasetId,
-- operation}`.
module _ (parse_url : String → Option Url) where
  unfoldable pub register_all : List PaidResource → List (String × PaidResource) → RegistryResult
  register_all [] entries = registry entries
  register_all (resource ∷ resources) entries = elim (parse_url resource.url) [
    | none ↦ refused invalid_url
    | some url ↦ elim (url_error url) [
      | some e ↦ refused e
      | none ↦ register_all resources (
          set_resource (paid_service_key resource.service_id resource.capability)
            (record resource { url = url.href }) entries)
    ]
  ]

  unfoldable pub create_paid_service_registry : List PaidResource → RegistryResult
  unfolding register_all
  create_paid_service_registry resources = register_all resources []

module _ (digest : String → String → String → String → String) where
  unfoldable pub compute_paid_request_digest : PaidRequest → String
  compute_paid_request_digest request =
      digest request.method request.url request.content_type request.body

  unfoldable pub create_paid_request : String → String → String → PaidRequest
  create_paid_request url method body = record {
    url = url;
    method = method;
    content_type = "application/json";
    body = body;
    sha256 = digest method url "application/json" body;
  }

  unfoldable pub paid_request_matches : PaidRequest → String → Bool
  unfolding compute_paid_request_digest
  paid_request_matches request expected_sha256 =
      compute_paid_request_digest request == request.sha256 && request.sha256 == expected_sha256

  -- `new URL(resource.url)` is reached where the methods agree.
  unfoldable pub build_paid_request :
      (String → Option Url)
      → (String → String → String)
      → PaidResource
      → ExactOperation
      → BuildResult
  unfolding create_paid_request
  build_paid_request parse_url canonical_body resource operation =
      if not (resource.method == operation.method)
      then not_served
      else elim (parse_url resource.url) [
        | none ↦ threw
        | some url ↦
            if not (url.pathname == operation.resource)
            then not_served
            else built (
                create_paid_request resource.url operation.method
                  (canonical_body operation.operation operation.dataset_id))
      ]
