-- ===== src/Policy/Permit.antt =====
-- When a purchase is permitted, and what a refusal reports.
use virtual_haibin.Prelude.{
  ℕ, ◌+◌, ◌≤◌, ◌<◌, true, ◌≡◌, refl, ◌↔◌, String, List, [], ◌∷◌, ◌++◌, arith,
}
use virtual_haibin.Decimal.{is_canonical_atomic_amount, big_int, is_empty}
use virtual_haibin.Mandate.{UnsignedPurchasePermitV1}
use virtual_haibin.Policy.{
  PurchaseRequestV1, now_or, field_denials, limit_denials, evaluate_purchase_permit,
}

-- The terms that the permit puts on everything but the amount.
pub record MatchesTerms (now : ℕ) (permit : UnsignedPurchasePermitV1) (request : PurchaseRequestV1)
    : Type 0 where
  pub unexpired : now ≤ permit.expires_at
  pub service : request.service ≡ permit.service
  pub capability : request.capability ≡ permit.capability
  pub network : request.network ≡ permit.network
  pub mint : request.mint ≡ permit.mint
  pub recipient : request.recipient ≡ permit.recipient

-- The terms on the amount: canonical texts, a positive amount, the limit of one call, and the
-- budget with what is already committed.
pub record WithinLimits (permit : UnsignedPurchasePermitV1) (request : PurchaseRequestV1)
    : Type 0 where
  pub amount_canonical : is_canonical_atomic_amount request.amount_atomic ≡ true
  pub spent_canonical : is_canonical_atomic_amount request.already_spent_atomic ≡ true
  pub positive : 0 < big_int request.amount_atomic
  pub per_call : big_int request.amount_atomic ≤ big_int permit.max_per_call_atomic
  pub total :
      big_int request.already_spent_atomic + big_int request.amount_atomic
      ≤ big_int permit.max_total_atomic

field_denials-eq-nil_iff :
    (now : ℕ) (permit : UnsignedPurchasePermitV1) (request : PurchaseRequestV1)
    → (field_denials now permit request ≡ []) ↔ MatchesTerms now permit request
unfolding field_denials
field_denials-eq-nil_iff now permit request = (λ h. ground arith, λ h. ground arith)

limit_denials-eq-nil_iff :
    (permit : UnsignedPurchasePermitV1) (request : PurchaseRequestV1)
    → (limit_denials permit request ≡ []) ↔ (
        (big_int request.amount_atomic ≤ big_int permit.max_per_call_atomic)
        × (big_int request.already_spent_atomic + big_int request.amount_atomic
            ≤ big_int permit.max_total_atomic))
unfolding limit_denials
limit_denials-eq-nil_iff permit request = ground arith

is_empty-append :
    {A : Type 0} (xs ys : List A) → (is_empty (xs ++ ys) ≡ true) ↔ ((xs ≡ []) × (ys ≡ []))
is_empty-append [] [] = ((λ _. (refl, refl)), (λ _. refl))
is_empty-append [] (y ∷ ys) = ((λ h. cc), (λ h. cc))
is_empty-append (x ∷ xs) ys = ((λ h. cc), (λ h. cc))

module _ (clock : ℕ) (permit : UnsignedPurchasePermitV1) (request : PurchaseRequestV1) where
  -- A purchase is allowed exactly when every term of the permit holds of the request: not expired,
  -- the same service, capability, network, mint and recipient, canonical amounts, a positive amount
  -- within the limit of one call, and within the budget together with what is already committed.
  pub evaluate_allows_iff :
      ((evaluate_purchase_permit clock permit request).allowed ≡ true)
      ↔ (MatchesTerms (now_or request.now clock) permit request × WithinLimits permit request)
  unfolding evaluate_purchase_permit
  evaluate_allows_iff =
      let now = now_or request.now clock in
      let fields = field_denials-eq-nil_iff now permit request in
      let limits = limit_denials-eq-nil_iff permit request in
      let both =
        is_empty-append (field_denials now permit request) (limit_denials permit request) in
      (λ h. ground (arith, fields, limits, both), λ h. ground (arith, fields, limits, both))

-- A purchase that is allowed beside some committed total is allowed beside any smaller one: spending
-- less never turns an approval into a refusal.
pub evaluate_monotone :
    (clock : ℕ) (permit : UnsignedPurchasePermitV1) (request : PurchaseRequestV1) (spent : String)
    → is_canonical_atomic_amount spent ≡ true
    → big_int spent ≤ big_int request.already_spent_atomic
    → (evaluate_purchase_permit clock permit request).allowed ≡ true
    → (evaluate_purchase_permit clock permit
        (record request { already_spent_atomic = spent })).allowed
      ≡ true
evaluate_monotone clock permit request spent canonical less h =
    let (terms, limits) = (evaluate_allows_iff clock permit request).0 h in
    (evaluate_allows_iff clock permit (record request { already_spent_atomic = spent })).1 (
      record {
        unexpired = terms.unexpired;
        service = terms.service;
        capability = terms.capability;
        network = terms.network;
        mint = terms.mint;
        recipient = terms.recipient;
      },
      record {
        amount_canonical = limits.amount_canonical;
        spent_canonical = canonical;
        positive = limits.positive;
        per_call = limits.per_call;
        total = omega (arith, limits.total);
      },
    )
