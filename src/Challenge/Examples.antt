-- ===== src/Challenge/Examples.antt =====
-- Challenges and requests on concrete data.
use Prim.Native.String.{◌++◌ as concat}
use virtual_haibin.Prelude.{
  String, String-discrete, Option, none, some, List, [], ◌∷◌, ◌≡◌, ◌↔◌, refl, true,
}
use virtual_haibin.Mandate.{ExactOperation}
use virtual_haibin.Payments.{
  PaidResource, PaidRequest, PaymentRequirement, PaymentChallenge, ChallengeResult, challenge,
}
use virtual_haibin.Challenge.{
  ChallengeContext, Url, registry, built, paid_service_key, set_resource, get_resource,
  register_all, create_paid_service_registry, create_paid_request, build_paid_request,
  paid_request_matches, select_and_validate_challenge,
}
use virtual_haibin.Challenge.Selection.{IsFirst, IsPayable, selection-IsPayable_iff}
use virtual_haibin.Challenge.Request.{IsRegistered, built_request_is_safe}

-- Parameters in place of the platform's URL and of the digest.
abbrev parse_text : String → Option Url
parse_text text = some (record {
  href = text;
  protocol = "https:";
  username = "";
  password = "";
  search = "";
  hash = "";
  pathname = "/r";
})

abbrev join_texts : String → String → String → String → String
join_texts m u c t = concat m (concat u (concat c t))

abbrev pair_texts : String → String → String
pair_texts o d = concat o (concat ":" d)

abbrev resource_a : PaidResource
resource_a = record { service_id = "s"; capability = "c"; url = "https://s/r"; method = "POST" }

abbrev operation_a : ExactOperation
operation_a = record { method = "POST"; resource = "/r"; operation = "summarize"; dataset_id = "a" }

abbrev paid_a : PaidRequest
paid_a = record {
  url = "https://s/r";
  method = "POST";
  content_type = "application/json";
  body = "summarize:a";
  sha256 = "POSThttps://s/rapplication/jsonsummarize:a";
}

abbrev requirement_a : PaymentRequirement
requirement_a = record {
  protocol = "x402";
  x402_version = 2;
  accepts_index = 0;
  scheme = "exact";
  network = "n";
  asset = "m";
  pay_to = "r";
  amount_atomic = "10";
  fee_payer = some "f";
  max_timeout_seconds = none;
  resource_url = some "https://s/r";
}

abbrev context_a : ChallengeContext
context_a = record {
  profile = record {
    name = "sandbox";
    permit_network = "n";
    rpc_url = "https://rpc";
    accepted_challenge_networks = "n" ∷ [];
    allowed_assets = record { mint = "m"; label = "USDC" } ∷ [];
    protocol = "x402";
    x402_version = 2;
    scheme = "exact";
    required_blockhash_prefix = "SURF";
  };
  paid_request = paid_a;
  request = record {
    request = record {
      audience = "vh";
      grant_id = "g";
      permit_digest = "d";
      invocation_id = "i1";
      service = "s";
      capability = "c";
      network = "n";
      mint = "m";
      recipient = "r";
      amount_atomic = "10";
      issued_at = 5;
    };
    operation = operation_a;
  };
  payer_address = "p";
}

abbrev challenge_a : ChallengeResult
challenge_a = challenge (record {
  requirements = record requirement_a { network = "other" } ∷ requirement_a ∷ [];
  request_sha256 = paid_a.sha256;
  raw = "";
})

selection-IsPayable_iff_example :
    (((select_and_validate_challenge challenge_a context_a).reason_codes ≡ [])
      × ((select_and_validate_challenge challenge_a context_a).requirement ≡ some requirement_a))
    ↔ ((quoted : PaymentChallenge) × (challenge_a ≡ challenge quoted)
        × IsFirst context_a.profile quoted.requirements requirement_a
        × IsPayable context_a quoted.request_sha256 requirement_a)
selection-IsPayable_iff_example = selection-IsPayable_iff challenge_a context_a requirement_a

abbrev entries_a : List (String × PaidResource)
entries_a = (paid_service_key "s" "c", resource_a) ∷ []

registered_a : create_paid_service_registry parse_text (resource_a ∷ []) ≡ registry entries_a
unfolding create_paid_service_registry register_all set_resource paid_service_key String-discrete
registered_a = refl

found_a : get_resource (paid_service_key "s" "c") entries_a ≡ some resource_a
unfolding get_resource paid_service_key String-discrete
found_a = refl

built_a : build_paid_request join_texts parse_text pair_texts resource_a operation_a ≡ built paid_a
unfolding build_paid_request create_paid_request String-discrete
built_a = refl

built_request_is_safe_example :
    IsRegistered parse_text (resource_a ∷ []) (paid_service_key "s" "c") resource_a
    × (paid_a.url ≡ resource_a.url)
    × (paid_a.method ≡ operation_a.method)
    × ((url : Url) × (parse_text paid_a.url ≡ some url) × (url.pathname ≡ operation_a.resource))
    × (paid_a.body ≡ pair_texts operation_a.operation operation_a.dataset_id)
    × (paid_request_matches join_texts paid_a paid_a.sha256 ≡ true)
built_request_is_safe_example =
    built_request_is_safe parse_text (resource_a ∷ []) join_texts pair_texts entries_a
      (paid_service_key "s" "c") resource_a operation_a paid_a registered_a found_a built_a
