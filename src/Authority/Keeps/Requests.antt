-- ===== src/Authority/Keeps/Requests.antt =====
-- `#process` keeps the tables sound.
use virtual_haibin.Prelude.{
  ℕ, String, Bool, true, false, Option, none, some, inl, inr, Bool-cases, ◌==◌,
}
use virtual_haibin.Decimal.{is_empty}
use virtual_haibin.Mandate.{SignedPurchasePermitV2, AuthorizationRequestV2}
use virtual_haibin.Payments.{PaidRequest, PaymentRequirement, PaymentChallenge}
use virtual_haibin.Challenge.{BuildResult, built, not_served, threw, SettlementProfile}
use virtual_haibin.Store.{
  InvocationState, InvocationRecord, ReserveResult, existing, grant_conflict, was_reserved,
  was_denied, invalid_state_transition, ReconciliationOutcome, reserved, denied, failed,
  reconciliation_required, BudgetDecision, ReserveInput,
}
use virtual_haibin.Store as Data
use virtual_haibin.Store.Table.{find_invocation}
use virtual_haibin.Store.Operations.{reserve}
use virtual_haibin.Store.Ledger.Reserving.{IsCoherent}
use virtual_haibin.Store.Ledger.Reserve.{reserve-Good}
use virtual_haibin.Store.Ledger.History.{AreCoherent}
use virtual_haibin.Authority.{
  Externals, AuthorityOptions, PaymentProvider, AuthenticatedRequest, FetchReply, fetched,
  unavailable, broken,
}
use virtual_haibin.Authority.Monad.{Schedule, Service, access}
use virtual_haibin.Authority.Decision.{policy, signed_terms, evaluate}
use virtual_haibin.Authority.Receipts.{result}
use virtual_haibin.Authority.Binding.{build_request}
use virtual_haibin.Authority.Gather.{Gathered, gather, gather_for, built_for, fetched_from}
use virtual_haibin.Authority.Process.{
  reserve_input, resolve_existing, gather_if, pay_gathered, answer, answer_known, conclude,
  process_fresh, process_known, process, is_retryable,
}
use virtual_haibin.Authority.Keeps.{
  Keeps, Keeps-pure, Keeps-raise, Keeps-bind, Keeps-method, Keeps-query, Keeps-read_clock,
}
use virtual_haibin.Authority.Keeps.Steps.{fail-Keeps, then_raise-Keeps, ensure_receipt-Keeps}
use virtual_haibin.Authority.Keeps.Payment.{pay-Keeps}

module _ {Candidate : Type 0} (issuer_of grant_id_of : String → String) (ext : Externals Candidate)
    (options : AuthorityOptions) (schedule : Schedule)
    (coherent : (n : ℕ) → AreCoherent issuer_of grant_id_of (schedule.others n))
    (provider : PaymentProvider) where
  abbrev Kept : {A : Type 0} → Service A → Type 0
  Kept m = Keeps issuer_of grant_id_of m

  answer-Keeps :
      (replay : Bool) (invocation : InvocationRecord)
      → Kept (answer ext options schedule provider replay invocation)
  unfolding answer
  answer-Keeps replay invocation =
      Keeps-bind issuer_of grant_id_of _ _
        (ensure_receipt-Keeps issuer_of grant_id_of ext options schedule coherent invocation)
        (λ receipt.
          Keeps-pure issuer_of grant_id_of
            (result provider.settlement_profile invocation receipt replay))

  answer_known-Keeps :
      (invocation : InvocationRecord) (s : InvocationState)
      → Kept (answer_known ext options schedule provider invocation s)
  answer_known-Keeps invocation denied = answer-Keeps true invocation
  answer_known-Keeps invocation Data.confirmed = answer-Keeps true invocation
  answer_known-Keeps invocation _ = Keeps-raise issuer_of grant_id_of _

  resolve_existing-Keeps :
      (invocation : InvocationRecord) (fingerprint : String)
      → Kept (resolve_existing ext options schedule provider invocation fingerprint)
  unfolding resolve_existing
  resolve_existing-Keeps invocation fingerprint =
      elim (Bool-cases (invocation.fingerprint == fingerprint)) [
        | inr other ↦ rw other (Keeps-raise issuer_of grant_id_of _)
        | inl same ↦ rw same (answer_known-Keeps invocation invocation.state)
      ]

  gather_for-Keeps :
      (request : AuthorizationRequestV2) (profile : Option SettlementProfile)
      (paid_request : Option PaidRequest)
      → Kept (gather_for ext options provider request profile paid_request)
  gather_for-Keeps request none paid_request = Keeps-pure issuer_of grant_id_of _
  gather_for-Keeps request (some profile) none = Keeps-pure issuer_of grant_id_of _
  gather_for-Keeps request (some profile) (some paid_request) =
      by_reply (provider.fetch_challenge paid_request request.invocation_id)
    where
      by_reply :
          (r : FetchReply)
          → Keeps issuer_of grant_id_of
              (fetched_from ext options provider profile request paid_request r)
      by_reply (fetched answer) = Keeps-pure issuer_of grant_id_of _
      by_reply (unavailable message) = Keeps-raise issuer_of grant_id_of _
      by_reply (broken message) = Keeps-raise issuer_of grant_id_of _

  gather-Keeps :
      (permit : SignedPurchasePermitV2) (request : AuthorizationRequestV2)
      → Kept (gather ext options provider permit request)
  unfolding gather
  gather-Keeps permit request = by_build _ (build_request ext options request)
    where
      by_build :
          (profile : Option SettlementProfile) (b : BuildResult)
          → Keeps issuer_of grant_id_of (built_for ext options provider request profile b)
      by_build profile (built paid_request) = gather_for-Keeps request profile (some paid_request)
      by_build profile not_served = gather_for-Keeps request profile none
      by_build profile threw = Keeps-raise issuer_of grant_id_of _

  gather_if-Keeps :
      (test : Bool) (permit : SignedPurchasePermitV2) (request : AuthorizationRequestV2)
      → Kept (gather_if ext options schedule provider test permit request)
  gather_if-Keeps true permit request = gather-Keeps permit request
  gather_if-Keeps false permit request = Keeps-pure issuer_of grant_id_of _

  module _ (auth : AuthenticatedRequest)
      (bound : (decided_at : ℕ) (requirement : Option PaymentRequirement)
        → IsCoherent issuer_of grant_id_of (reserve_input auth decided_at requirement)) where
    pay_gathered-Keeps :
        (invocation : InvocationRecord) (paid_request : Option PaidRequest)
        (quoted : Option PaymentChallenge) (requirement : Option PaymentRequirement)
        → Kept (
            pay_gathered ext options schedule provider auth invocation paid_request quoted
              requirement)
    pay_gathered-Keeps invocation (some paid_request) (some quoted) (some requirement) =
        pay-Keeps issuer_of grant_id_of ext options schedule coherent provider invocation
          auth.permit paid_request requirement quoted
    pay_gathered-Keeps invocation _ _ _ =
        then_raise-Keeps issuer_of grant_id_of ext options schedule coherent _ _ (
          fail-Keeps issuer_of grant_id_of ext options schedule coherent auth.request.invocation_id
            _)

    conclude-Keeps :
        (gathered : Gathered) (decision : ReserveResult)
        → Kept (conclude ext options schedule provider auth gathered decision)
    unfolding conclude
    conclude-Keeps gathered (grant_conflict grant) = Keeps-raise issuer_of grant_id_of _
    conclude-Keeps gathered (existing invocation) =
        resolve_existing-Keeps invocation auth.fingerprint
    conclude-Keeps gathered (was_denied invocation) = answer-Keeps false invocation
    conclude-Keeps gathered (was_reserved invocation) =
        Keeps-bind issuer_of grant_id_of _ _
          (pay_gathered-Keeps invocation gathered.paid_request gathered.quoted gathered.requirement)
          (answer-Keeps false)

    reserve-Keeps :
        (decided_at : ℕ) (requirement : Option PaymentRequirement)
        (decide : String → BudgetDecision)
        → Kept (access schedule (reserve (reserve_input auth decided_at requirement) decide))
    reserve-Keeps decided_at requirement decide =
        Keeps-method issuer_of grant_id_of schedule coherent _ (λ now db s.
          reserve-Good issuer_of grant_id_of (reserve_input auth decided_at requirement) decide now
            db (bound decided_at requirement) s)

    process_fresh-Keeps : Kept (process_fresh ext options schedule provider auth)
    unfolding process_fresh
    process_fresh-Keeps =
        Keeps-bind issuer_of grant_id_of _ _ (Keeps-read_clock issuer_of grant_id_of schedule)
          (λ decided_at.
            Keeps-bind issuer_of grant_id_of _ _
              (gather_if-Keeps
                (is_empty
                  (policy auth.permit auth.request decided_at (signed_terms auth.request) "0"))
                auth.permit auth.request)
              (λ gathered.
                Keeps-bind issuer_of grant_id_of _ _
                  (reserve-Keeps decided_at gathered.requirement (
                    evaluate auth.permit auth.request decided_at gathered.challenge_codes
                      gathered.requirement))
                  (conclude-Keeps gathered)))

    process_known-Keeps :
        (known : Option InvocationRecord)
        → Kept (process_known ext options schedule provider auth known)
    process_known-Keeps none = process_fresh-Keeps
    process_known-Keeps (some known) = elim (Bool-cases (is_retryable known auth.fingerprint)) [
      | inl retry ↦ rw retry process_fresh-Keeps
      | inr settled ↦ rw settled (resolve_existing-Keeps known auth.fingerprint)
    ]

    pub process-Keeps : Kept (process ext options schedule provider auth)
    unfolding process
    process-Keeps =
        Keeps-bind issuer_of grant_id_of _ _
          (Keeps-query issuer_of grant_id_of schedule coherent
            (λ db. find_invocation auth.request.invocation_id db.invocations))
          process_known-Keeps
