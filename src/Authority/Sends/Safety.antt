-- ===== src/Authority/Sends/Safety.antt =====
-- The service never pays for what was not permitted, and pays once at most for a request.
use virtual_haibin.Prelude.{ℕ, suc, String, ◌≡◌}
use virtual_haibin.Policy.Permit.{MatchesTerms, WithinLimits}
use virtual_haibin.Authority.{
  Externals, AuthorityOptions, PaymentProvider, AuthenticatedRequest, AuthorizeRequestInput,
}
use virtual_haibin.Store.{Db}
use virtual_haibin.Authority.Monad.{Sent, World, Schedule}
use virtual_haibin.Authority.Sends.Reserved.{committed_in}
use virtual_haibin.Authority.Sends.Stepwise.{found_by}
use virtual_haibin.Authority.Authenticate.{authenticated, authenticate}
use virtual_haibin.Authority.Decision.{purchase_request, required_terms}
use virtual_haibin.Authority.Sends.Permitted.{IsPaidFor}

module _ {Candidate : Type 0} (ext : Externals Candidate) (options : AuthorityOptions)
    (schedule : Schedule) (provider : PaymentProvider) where
  -- The tables that the store decides a request on that is made in the world `w`: those of the world,
  -- after the calls that come before the look at the invocation and before the reservation.
  abbrev pub decided_on : World → Db
  decided_on w = found_by schedule (suc (suc (suc w.step))) (found_by schedule (suc w.step) w.db)

  abbrev pub decided_at : World → ℕ
  decided_at w = schedule.clock (suc (suc w.step))

  abbrev pub committed_at : World → AuthenticatedRequest → String
  committed_at w auth = committed_in auth.permit.issuer auth.permit.grant_id (decided_on w)

  -- The payment of a request that was authenticated, for the operation that its permit approves, and
  -- decided at the service's next reading of the clock on what was committed of its grant then.
  pub record IsRightful (w : World) (input : AuthorizeRequestInput Candidate) (s : Sent)
      : Type 0 where
    pub auth : AuthenticatedRequest
    pub authentic : authenticate ext options input (schedule.clock w.step) ≡ authenticated auth
    pub operation : auth.request.operation ≡ auth.permit.operation
    pub paid_for :
        IsPaidFor ext options schedule provider auth (decided_at w) (committed_at w auth) s
    pub terms : MatchesTerms (decided_at w) auth.permit.permit.terms (
        purchase_request auth.request
          (required_terms paid_for.requirement)
          (committed_at w auth)
          (decided_at w))
    pub limits : WithinLimits auth.permit.permit.terms (
        purchase_request auth.request
          (required_terms paid_for.requirement)
          (committed_at w auth)
          (decided_at w))
