-- ===== src/Authority/Gather.antt =====
-- apps/authority/src/authorize.ts: the second step of `#process`, the challenge of the outbound
-- request.
use virtual_haibin.Prelude.{String, Option, none, some, List, [], ◌∷◌, map, if◌then◌else◌, ◌==◌}
use virtual_haibin.Mandate.{SignedPurchasePermitV2, AuthorizationRequestV2}
use virtual_haibin.Payments.{
  PaidRequest, PaymentRequirement, PaymentChallenge, ChallengeResult, challenge, rejected,
}
use virtual_haibin.Challenge.{
  SettlementProfile, ChallengeContext, BuildResult, built, not_served, threw,
  select_and_validate_challenge,
}
use virtual_haibin.Authority.{
  AuthorityOptions, Externals, PaymentProvider, paid_service_unavailable, internal, FetchReply,
  fetched, unavailable, broken,
}
use virtual_haibin.Authority.Monad.{Service, pure, raise}
use virtual_haibin.Authority.Decision.{challenge_code}
use virtual_haibin.Authority.Binding.{build_request}

-- What is known of the challenge when the budget is decided.
pub record Gathered : Type 0 where
  pub paid_request : Option PaidRequest
  pub quoted : Option PaymentChallenge
  pub requirement : Option PaymentRequirement
  pub challenge_codes : List String

abbrev pub no_challenge : Option PaidRequest → List String → Gathered
no_challenge paid_request codes = record {
  paid_request = paid_request;
  quoted = none;
  requirement = none;
  challenge_codes = codes;
}

abbrev pub as_challenge : ChallengeResult → Option PaymentChallenge
as_challenge (challenge quoted) = some quoted
as_challenge (rejected code detail) = none

-- `settlementProfiles.get`
unfoldable pub get_profile : String → List (String × SettlementProfile) → Option SettlementProfile
get_profile network [] = none
get_profile network ((n, profile) ∷ profiles) =
    if n == network then some profile else get_profile network profiles

-- `!profile || profile.name !== settlementProfile` is the answer `none`.
abbrev pub usable_profile : Option SettlementProfile → String → Option SettlementProfile
usable_profile none name = none
usable_profile (some profile) name = if profile.name == name then some profile else none

module _ {Candidate : Type 0} (ext : Externals Candidate) (options : AuthorityOptions)
    (provider : PaymentProvider) where
  -- What `selectAndValidateChallenge` makes of the answer to the outbound request.
  abbrev pub gathered_from :
      SettlementProfile → AuthorizationRequestV2 → PaidRequest → ChallengeResult → Gathered
  gathered_from profile request paid_request answer =
      let context : ChallengeContext = record {
        profile = profile;
        paid_request = paid_request;
        request = request;
        payer_address = provider.payer_address;
      } in
      let selection = select_and_validate_challenge answer context in
      record {
        paid_request = some paid_request;
        quoted = as_challenge answer;
        requirement = selection.requirement;
        challenge_codes = map challenge_code selection.reason_codes;
      }

  abbrev pub fetched_from :
      SettlementProfile → AuthorizationRequestV2 → PaidRequest → FetchReply → Service Gathered
  fetched_from profile request paid_request (fetched answer) =
      pure (gathered_from profile request paid_request answer)
  fetched_from profile request paid_request (unavailable message) =
      raise (paid_service_unavailable message)
  fetched_from profile request paid_request (broken message) = raise (internal message)

  abbrev pub gather_for :
      AuthorizationRequestV2 → Option SettlementProfile → Option PaidRequest → Service Gathered
  gather_for request none paid_request =
      pure (no_challenge paid_request ("SETTLEMENT_PROFILE_UNAVAILABLE" ∷ []))
  gather_for request (some profile) none =
      pure (no_challenge none ("PAID_SERVICE_NOT_CONFIGURED" ∷ []))
  gather_for request (some profile) (some paid_request) =
      fetched_from profile request paid_request
        (provider.fetch_challenge paid_request request.invocation_id)

  abbrev pub built_for :
      AuthorizationRequestV2 → Option SettlementProfile → BuildResult → Service Gathered
  built_for request profile (built paid_request) = gather_for request profile (some paid_request)
  built_for request profile not_served = gather_for request profile none
  built_for request profile threw = raise (internal "Invalid URL")

  -- Step 2 of `#process`: the outbound request and its challenge.
  unfoldable pub gather : SignedPurchasePermitV2 → AuthorizationRequestV2 → Service Gathered
  gather permit request =
      built_for request
        (usable_profile (get_profile permit.network options.settlement_profiles)
          provider.settlement_profile)
        (build_request ext options request)
