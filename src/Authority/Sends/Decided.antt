-- ===== src/Authority/Sends/Decided.antt =====
-- What a decision and a challenge say that let a payment through.
use virtual_haibin.Prelude.{
  ℕ, String, Option, none, some, List, [], ◌∷◌, map, ◌≡◌, refl, arith, if◌then◌else◌,
}
use virtual_haibin.Decimal.{is_empty}
use virtual_haibin.Mandate.{SignedPurchasePermitV2, AuthorizationRequestV2}
use virtual_haibin.Payments.{
  PaidRequest, PaymentRequirement, PaymentChallenge, ChallengeResult, challenge, rejected,
}
use virtual_haibin.Challenge.{
  SettlementProfile, BuildResult, built, not_served, threw, select_and_validate_challenge,
}
use virtual_haibin.Challenge.Selection.{IsPayable, IsFirst, selection-IsPayable_iff}
use virtual_haibin.Store.{allowed, refused}
use virtual_haibin.Authority.{
  Externals, AuthorityOptions, PaymentProvider, FetchReply, fetched, unavailable, broken,
}
use virtual_haibin.Authority.Decision.{
  signed_terms, required_terms, policy, add, add_all, decision_codes, evaluate, challenge_code,
}
use virtual_haibin.Authority.Binding.{build_request}
use virtual_haibin.Authority.Gather.{
  Gathered, no_challenge, usable_profile, get_profile, gathered_from, fetched_from, built_for,
  gather,
}
use virtual_haibin.Authority.Sends.{Replies, Replies-pure, Replies-raise}
use virtual_haibin.Authority.Sends.Stepwise.{Still, Still-pure, Still-raise}

add-ne-nil : (code : String) (codes : List String) → ¬ (add code codes ≡ [])
add-ne-nil code [] e = cc (e)
add-ne-nil code (c ∷ codes) e = ground arith

add_all-nil : (more codes : List String) → add_all more codes ≡ [] → (more ≡ []) × (codes ≡ [])
unfolding add_all
add_all-nil [] codes e = (refl, e)
add_all-nil (code ∷ more) codes e =
    absurd (add-ne-nil code codes (add_all-nil more (add code codes) e).1)

map-nil : {A B : Type 0} (f : A → B) (xs : List A) → map f xs ≡ [] → xs ≡ []
map-nil f [] e = refl
map-nil f (x ∷ xs) e = absurd (cc (e))

allowed-nil :
    (codes : List String)
    → (if is_empty codes then allowed else refused codes) ≡ allowed
    → codes ≡ []
allowed-nil [] e = refl
allowed-nil (code ∷ codes) e = absurd (cc (e))

-- An allowed decision: no code of the challenge, none of the policy on the signed terms, and none of
-- the policy on the terms of the requirement.
pub record IsPermitted (permit : SignedPurchasePermitV2) (request : AuthorizationRequestV2)
    (decided_at : ℕ) (committed : String) (requirement : PaymentRequirement) : Type 0 where
  pub signed_allowed : policy permit request decided_at (signed_terms request) committed ≡ []
  pub required_allowed :
      policy permit request decided_at (required_terms requirement) committed ≡ []

pub evaluate-IsPermitted :
    (permit : SignedPurchasePermitV2) (request : AuthorizationRequestV2) (decided_at : ℕ)
    (challenge_codes : List String) (requirement : PaymentRequirement) (committed : String)
    → evaluate permit request decided_at challenge_codes (some requirement) committed ≡ allowed
    → (challenge_codes ≡ []) × IsPermitted permit request decided_at committed requirement
unfolding evaluate decision_codes
evaluate-IsPermitted permit request decided_at challenge_codes requirement committed e =
    let (required, rest) = add_all-nil _ _ (allowed-nil _ e) in
    let (codes, signed) = add_all-nil challenge_codes _ rest in
    (codes, record { signed_allowed = (add_all-nil _ [] signed).0; required_allowed = required })

module _ {Candidate : Type 0} (ext : Externals Candidate) (options : AuthorityOptions)
    (provider : PaymentProvider) (permit : SignedPurchasePermitV2)
    (request : AuthorizationRequestV2) where
  -- The challenge of the very request that the signed operation stands for, under the settlement
  -- profile of the permit's network, whose first requirement that fits is `r`, which is payable.
  pub record IsQuoted (paid_request : PaidRequest) (quoted : PaymentChallenge)
      (r : PaymentRequirement) : Type 0 where
    pub profile : SettlementProfile
    pub usable :
        usable_profile
          (get_profile permit.network options.settlement_profiles)
          provider.settlement_profile
        ≡ some profile
    pub outbound : build_request ext options request ≡ built paid_request
    pub first : IsFirst profile quoted.requirements r
    pub payable :
        IsPayable
          (record {
            profile = profile;
            paid_request = paid_request;
            request = request;
            payer_address = provider.payer_address;
          })
          quoted.request_sha256
          r

  pub record Gathers (g : Gathered) (r : PaymentRequirement) : Type 0 where
    pub paid_request : PaidRequest
    pub quoted : PaymentChallenge
    pub has_request : g.paid_request ≡ some paid_request
    pub has_quoted : g.quoted ≡ some quoted
    pub is_quoted : IsQuoted paid_request quoted r

  abbrev pub IsGathered : Gathered → Type 0
  IsGathered g =
      (r : PaymentRequirement) → g.requirement ≡ some r → g.challenge_codes ≡ [] → Gathers g r

  -- Without a requirement there is nothing to say.
  pub empty-IsGathered :
      (o : Option PaidRequest) (codes : List String) → IsGathered (no_challenge o codes)
  empty-IsGathered o codes r e = absurd (cc (e))

  selected-Gathers :
      (profile : SettlementProfile) (paid_request : PaidRequest) (answer : ChallengeResult)
      → usable_profile
          (get_profile permit.network options.settlement_profiles)
          provider.settlement_profile
        ≡ some profile
      → build_request ext options request ≡ built paid_request
      → IsGathered (gathered_from ext options provider profile request paid_request answer)
  unfolding select_and_validate_challenge
  selected-Gathers profile paid_request (rejected code detail) u b r e c = absurd (cc (e))
  selected-Gathers profile paid_request (challenge quoted) u b r e c =
      let (q, same, first, payable) =
        (selection-IsPayable_iff (challenge quoted) _ r).0 (map-nil challenge_code _ c, e) in
      record {
        paid_request = paid_request;
        quoted = q;
        has_request = refl;
        has_quoted = cc (same);
        is_quoted = record {
          profile = profile;
          usable = u;
          outbound = b;
          first = first;
          payable = payable;
        };
      }

  reply-IsGathered :
      (profile : SettlementProfile) (paid_request : PaidRequest) (reply : FetchReply)
      → usable_profile
          (get_profile permit.network options.settlement_profiles)
          provider.settlement_profile
        ≡ some profile
      → build_request ext options request ≡ built paid_request
      → Replies IsGathered (fetched_from ext options provider profile request paid_request reply)
  reply-IsGathered profile paid_request (fetched answer) u b =
      Replies-pure IsGathered _ (selected-Gathers profile paid_request answer u b)
  reply-IsGathered profile paid_request (unavailable message) u b = Replies-raise IsGathered _
  reply-IsGathered profile paid_request (broken message) u b = Replies-raise IsGathered _

  built-IsGathered :
      (o : Option SettlementProfile) (b : BuildResult)
      → usable_profile
          (get_profile permit.network options.settlement_profiles)
          provider.settlement_profile
        ≡ o
      → build_request ext options request ≡ b
      → Replies IsGathered (built_for ext options provider request o b)
  built-IsGathered none (built p) u e = Replies-pure IsGathered _ (empty-IsGathered (some p) _)
  built-IsGathered (some profile) (built p) u e =
      reply-IsGathered profile p (provider.fetch_challenge p request.invocation_id) u e
  built-IsGathered none not_served u e = Replies-pure IsGathered _ (empty-IsGathered none _)
  built-IsGathered (some profile) not_served u e =
      Replies-pure IsGathered _ (empty-IsGathered none _)
  built-IsGathered o threw u e = Replies-raise IsGathered _

  pub gather-IsGathered : Replies IsGathered (gather ext options provider permit request)
  unfolding gather
  gather-IsGathered = built-IsGathered _ (build_request ext options request) refl refl

  reply-Still :
      (profile : SettlementProfile) (paid_request : PaidRequest) (reply : FetchReply)
      → Still (fetched_from ext options provider profile request paid_request reply)
  reply-Still profile paid_request (fetched answer) = Still-pure _
  reply-Still profile paid_request (unavailable message) = Still-raise _
  reply-Still profile paid_request (broken message) = Still-raise _

  built-Still :
      (o : Option SettlementProfile) (b : BuildResult)
      → Still (built_for ext options provider request o b)
  built-Still none (built p) = Still-pure _
  built-Still (some profile) (built p) = reply-Still profile p _
  built-Still none not_served = Still-pure _
  built-Still (some profile) not_served = Still-pure _
  built-Still o threw = Still-raise _

  pub gather-Still : Still (gather ext options provider permit request)
  unfolding gather
  gather-Still = built-Still _ (build_request ext options request)
