-- ===== src/Challenge/Selection.antt =====
-- When the authority may pay what a challenge asks for.
use virtual_haibin.Prelude.{
  String, Bool, true, false, ◌&&◌, Option, none, some, List, [], ◌∷◌, ◌++◌, any, ◌≡◌, ◌≢◌, ◌↔◌,
  refl, arith, ◌==◌, filter, All, Bool-cases, inl, inr,
}
use virtual_haibin.Payments.{
  PaymentRequirement, PaymentChallenge, ChallengeResult, challenge, rejected,
}
use virtual_haibin.Challenge.{
  ChallengeContext, SettlementProfile, requirement_denials, of_scheme, of_network, select_candidate,
  select_and_validate_challenge, is_bad_fee_payer, is_other_url,
}

-- What the authority asks of the requirement that it pays.
pub record IsPayable (context : ChallengeContext) (request_sha256 : String) (r : PaymentRequirement)
    : Type 0 where
  pub protocol : r.protocol ≡ context.profile.protocol
  pub version : r.x402_version ≡ context.profile.x402_version
  pub asset_allowed : any (λ asset. asset.mint == r.asset) context.profile.allowed_assets ≡ true
  pub url : r.resource_url ≡ some context.paid_request.url
  pub same_request : request_sha256 ≡ context.paid_request.sha256
  pub fee_payer : (payer : String) × (r.fee_payer ≡ some payer) × (payer ≢ context.payer_address)
  pub asset : r.asset ≡ context.request.mint
  pub pay_to : r.pay_to ≡ context.request.recipient
  pub amount : r.amount_atomic ≡ context.request.amount_atomic

-- The requirements that the profile serves: those of its scheme on one of its networks.
abbrev pub is_candidate : SettlementProfile → PaymentRequirement → Bool
is_candidate profile r = of_scheme profile r && of_network profile r

-- `r` is the first of the requirements that the profile serves.
pub record IsFirst (profile : SettlementProfile) (requirements : List PaymentRequirement)
    (r : PaymentRequirement) : Type 0 where
  pub before : List PaymentRequirement
  pub after : List PaymentRequirement
  pub splits : requirements ≡ before ++ r ∷ after
  pub candidate : is_candidate profile r ≡ true
  pub skipped : All (λ c. is_candidate profile c ≡ false) before

fee_payer-cases :
    (o : Option String) (address : String)
    → (is_bad_fee_payer o address ≡ false)
      ↔ ((payer : String) × (o ≡ some payer) × (payer ≢ address))
fee_payer-cases none address = (λ h. cc, λ (p, e, d). cc)
fee_payer-cases (some payer) address = (λ h. (payer, refl, ground arith), λ (p, e, d). ground arith)

other_url-cases : (o : Option String) (url : String) → (is_other_url o url ≡ false) ↔ (o ≡ some url)
other_url-cases none url = (λ h. cc, λ h. cc)
other_url-cases (some u) url = (λ h. ground arith, λ h. ground arith)

denials-eq-nil_iff :
    (context : ChallengeContext) (sha : String) (r : PaymentRequirement)
    → (requirement_denials context sha r ≡ []) ↔ IsPayable context sha r
unfolding requirement_denials
denials-eq-nil_iff context sha r =
    let payer = fee_payer-cases r.fee_payer context.payer_address in
    let url = other_url-cases r.resource_url context.paid_request.url in
    (
      λ h. record {
        protocol = ground arith;
        version = ground arith;
        asset_allowed = ground arith;
        url = url.0 (ground arith);
        same_request = ground arith;
        fee_payer = payer.0 (ground arith);
        asset = ground arith;
        pay_to = ground arith;
        amount = ground arith;
      },
      λ p. ground (
        arith,
        p.protocol,
        p.version,
        p.asset_allowed,
        url.1 p.url,
        p.same_request,
        payer.1 p.fee_payer,
        p.asset,
        p.pay_to,
        p.amount,
      ),
    )

filter-skip :
    (profile : SettlementProfile) (before after : List PaymentRequirement) (r : PaymentRequirement)
    → is_candidate profile r ≡ true
    → All (λ c. is_candidate profile c ≡ false) before
    → filter (of_network profile) (filter (of_scheme profile) (before ++ r ∷ after))
      ≡ r ∷ filter (of_network profile) (filter (of_scheme profile) after)
filter-skip profile [] after r here skip = ground arith
filter-skip profile (c ∷ before) after r here (no_c, skip) =
    ground (arith, filter-skip profile before after r here skip)

filter-IsFirst :
    (profile : SettlementProfile) (requirements : List PaymentRequirement) (r : PaymentRequirement)
    (rest : List PaymentRequirement)
    → filter (of_network profile) (filter (of_scheme profile) requirements) ≡ r ∷ rest
    → IsFirst profile requirements r
filter-IsFirst profile [] r rest h = cc
filter-IsFirst profile (c ∷ requirements) r rest h = elim (Bool-cases (is_candidate profile c)) [
  | inl here ↦ record {
    before = [];
    after = requirements;
    splits = ground arith;
    candidate = ground arith;
    skipped = tt;
  }
  | inr other ↦
      let first = filter-IsFirst profile requirements r rest (ground arith) in
      record {
        before = c ∷ first.before;
        after = first.after;
        splits = cc (first.splits);
        candidate = first.candidate;
        skipped = (other, first.skipped);
      }
]

chosen :
    (context : ChallengeContext) (quoted : PaymentChallenge) (r : PaymentRequirement)
    (same cs : List PaymentRequirement)
    → (select_candidate context quoted same cs).reason_codes ≡ []
    → (select_candidate context quoted same cs).requirement ≡ some r
    → (rest : List PaymentRequirement) × (cs ≡ r ∷ rest)
      × (requirement_denials context quoted.request_sha256 r ≡ [])
unfolding select_candidate
chosen context quoted r same [] h k = cc
chosen context quoted r same (c ∷ cs) h k = let e : c ≡ r = cc (k) in (cs, cc (e), rw (← e) h)

-- The first requirement that the profile serves is the one that is checked.
select-IsFirst :
    (context : ChallengeContext) (quoted : PaymentChallenge) (r : PaymentRequirement)
    → IsFirst context.profile quoted.requirements r
    → select_and_validate_challenge (challenge quoted) context ≡ record {
      requirement = some r;
      reason_codes = requirement_denials context quoted.request_sha256 r;
    }
unfolding select_and_validate_challenge select_candidate
select-IsFirst context quoted r first = rw (
  first.splits,
  filter-skip context.profile first.before first.after r first.candidate first.skipped,
)

payable-selected :
    (result : ChallengeResult) (context : ChallengeContext) (r : PaymentRequirement)
    (q : PaymentChallenge)
    → result ≡ challenge q
    → IsFirst context.profile q.requirements r
    → IsPayable context q.request_sha256 r
    → ((select_and_validate_challenge result context).reason_codes ≡ [])
      × ((select_and_validate_challenge result context).requirement ≡ some r)
payable-selected result context r q e first payable =
    rw (e, select-IsFirst context q r first)
      ((denials-eq-nil_iff context q.request_sha256 r).1 payable, refl)

-- The selection has no reason code and names `r` exactly when the challenge was not rejected, `r` is
-- the first of its requirements of the profile's scheme on an accepted network, and `r` is payable:
-- the profile's protocol and version, an allowed asset, the URL and the digest of the very request
-- that was sent, a fee payer that is not the authority's wallet, and the asset, recipient and amount
-- that the agent signed.
pub selection-IsPayable_iff :
    (result : ChallengeResult) (context : ChallengeContext) (r : PaymentRequirement)
    → (((select_and_validate_challenge result context).reason_codes ≡ [])
        × ((select_and_validate_challenge result context).requirement ≡ some r))
      ↔ ((quoted : PaymentChallenge) × (result ≡ challenge quoted)
          × IsFirst context.profile quoted.requirements r
          × IsPayable context quoted.request_sha256 r)
unfolding select_and_validate_challenge
selection-IsPayable_iff (rejected code detail) context r =
    ((λ (h, k). cc), (λ (quoted, e, first, payable). cc))
selection-IsPayable_iff (challenge quoted) context r = (
  λ (h, k).
      let (rest, e, d) = chosen context quoted r _ _ h k in
      (
        quoted,
        refl,
        filter-IsFirst context.profile quoted.requirements r rest e,
        (denials-eq-nil_iff context quoted.request_sha256 r).0 d,
      ),
  λ (q, e, first, payable). payable-selected (challenge quoted) context r q e first payable,
)
