-- ===== src/Authority/Keeps/Budget.antt =====
-- The service as a whole, over its requests, its reconciliations and its restarts, in any order,
-- with other processes between any two steps, and with crashes.
use virtual_haibin.Prelude.{
  ℕ, ◌+◌, ◌≤◌, String, Option, none, some, List, [], ◌∷◌, ◌≡◌, ◌∙◌, refl, sym, ap, inl, inr,
  Bool-cases, arith, ◌==◌, All,
}
use virtual_haibin.Decimal.{big_int}
use virtual_haibin.Mandate.{SignedPurchasePermitV2}
use virtual_haibin.Payments.{PaymentRequirement}
use virtual_haibin.Store.{GrantRecord}
use virtual_haibin.Store.Table.{find_grant}
use virtual_haibin.Store.Ledger.{held, spent, IsSound}
use virtual_haibin.Store.Ledger.Reserving.{IsCoherent}
use virtual_haibin.Store.Ledger.Recovering.{GoodRun, done, Run-trans}
use virtual_haibin.Store.Ledger.History.{AreCoherent}
use virtual_haibin.Authority.{
  Externals, AuthorityOptions, PaymentProvider, AuthenticatedRequest, AuthorizeRequestInput,
}
use virtual_haibin.Authority.Monad.{Schedule, World}
use virtual_haibin.Authority.Authenticate.{
  Authentication, authenticated, rejected, authenticate, fingerprint_input,
}
use virtual_haibin.Authority.Authentic.{authenticate_iff}
use virtual_haibin.Authority.Process.{
  reserve_input, process, Pending, get_pending, attach, as_replay, authorize_authenticated,
  authorize,
}
use virtual_haibin.Authority.Reconcile.{reconcile_once, recover_service}
use virtual_haibin.Authority.Keeps.{Keeps, Keeps-pure, Keeps-raise, Keeps-bind, Keeps-read_clock}
use virtual_haibin.Authority.Keeps.Requests.{process-Keeps}
use virtual_haibin.Authority.Keeps.Reconciling.{reconcile-Keeps, recover-Keeps}

-- A call of the service, with the schedule and the provider that it meets.
pub data ServiceCall (Candidate : Type 0) : Type 0 where
  authorizing :
      Schedule
      → PaymentProvider
      → List Pending
      → AuthorizeRequestInput Candidate
      → ServiceCall Candidate
  reconciling : Schedule → PaymentProvider → ServiceCall Candidate
  restarting : Schedule → PaymentProvider → ServiceCall Candidate

module _ {Candidate : Type 0} (ext : Externals Candidate) (options : AuthorityOptions) where
  unfoldable pub serve : ServiceCall Candidate → World → World
  unfolding authorize reconcile_once recover_service
  serve (authorizing schedule provider pending input) w =
      (authorize ext options schedule provider input pending w).1
  serve (reconciling schedule provider) w = (reconcile_once ext options schedule provider w).1
  serve (restarting schedule provider) w = (recover_service ext options schedule provider w).1

  unfoldable pub serve_all : List (ServiceCall Candidate) → World → World
  unfolding serve
  serve_all [] w = w
  serve_all (call ∷ calls) w = serve_all calls (serve call w)

module _ {Candidate : Type 0} (issuer_of grant_id_of : String → String)
    (ext : Externals Candidate) where
  -- The fingerprint of a request whose permit's digest is the one it names determines the grant, as
  -- it does where the hashes do not collide.
  abbrev pub IsDetermined : AuthorizeRequestInput Candidate → Type 0
  IsDetermined input =
      (permit : SignedPurchasePermitV2)
      → ext.verify_permit input.permit ≡ some permit
      → input.authorization_request.permit_digest ≡ ext.permit_digest permit
      → (permit.issuer
          ≡ issuer_of (
              ext.hash_fingerprint (
                fingerprint_input permit input.authorization_request
                  (ext.operation_digest input.authorization_request.operation))))
        × (permit.grant_id
            ≡ grant_id_of (
                ext.hash_fingerprint (
                  fingerprint_input permit input.authorization_request
                    (ext.operation_digest input.authorization_request.operation))))

  module _ (options : AuthorityOptions) where
    -- An authenticated request reserves against the grant of its fingerprint.
    authenticated-IsCoherent :
        (input : AuthorizeRequestInput Candidate) (now : ℕ) (auth : AuthenticatedRequest)
        → IsDetermined input
        → authenticate ext options input now ≡ authenticated auth
        → (decided_at : ℕ) (requirement : Option PaymentRequirement)
        → IsCoherent issuer_of grant_id_of (reserve_input auth decided_at requirement)
    authenticated-IsCoherent input now auth determined e decided_at requirement =
        let a = (authenticate_iff ext options input now auth).0 e in
        let permit : auth.permit ≡ a.permit = ap (λ o. o.permit) a.normalized in
        let print = ap (λ o. o.fingerprint) a.normalized in
        let (issuer, grant_id) = determined a.permit a.verified a.accepts.permit_digest in
        record {
          issuer = ap (λ p. p.issuer) permit ∙ issuer ∙ sym (ap issuer_of print);
          grant_id = ap (λ p. p.grant_id) permit ∙ grant_id ∙ sym (ap grant_id_of print);
        }

    module _ (schedule : Schedule) (provider : PaymentProvider)
        (coherent : (n : ℕ) → AreCoherent issuer_of grant_id_of (schedule.others n)) where
      attach-Keeps :
          (auth : AuthenticatedRequest)
          → Keeps issuer_of grant_id_of (process ext options schedule provider auth)
          → (pending : Option Pending)
          → Keeps issuer_of grant_id_of (attach ext options schedule provider auth pending)
      attach-Keeps auth k none = k
      attach-Keeps auth k (some pending) =
          elim (Bool-cases (pending.fingerprint == auth.fingerprint)) [
            | inr other ↦ rw other (Keeps-raise issuer_of grant_id_of _)
            | inl same ↦ rw same (
                Keeps-bind issuer_of grant_id_of (λ w. (pending.outcome, w)) _
                  (record { run = λ w s. (s, done) })
                  (λ answer. Keeps-pure issuer_of grant_id_of (as_replay answer)))
          ]

      authorize_authenticated-Keeps :
          (input : AuthorizeRequestInput Candidate) (now : ℕ) (pending : List Pending)
          (outcome : Authentication)
          → IsDetermined input
          → authenticate ext options input now ≡ outcome
          → Keeps issuer_of grant_id_of
              (authorize_authenticated ext options schedule provider outcome pending)
      authorize_authenticated-Keeps input now pending (rejected e) d h =
          Keeps-raise issuer_of grant_id_of e
      authorize_authenticated-Keeps input now pending (authenticated auth) d h =
          attach-Keeps auth
            (process-Keeps issuer_of grant_id_of ext options schedule coherent provider auth
              (authenticated-IsCoherent input now auth d h))
            (get_pending auth.request.invocation_id pending)

      pub authorize-Keeps :
          (input : AuthorizeRequestInput Candidate) (pending : List Pending)
          → IsDetermined input
          → Keeps issuer_of grant_id_of (authorize ext options schedule provider input pending)
      unfolding authorize
      authorize-Keeps input pending d =
          Keeps-bind issuer_of grant_id_of _ _ (Keeps-read_clock issuer_of grant_id_of schedule)
            (λ now.
              authorize_authenticated-Keeps input now pending (authenticate ext options input now) d
                refl)

    -- What other processes do between the steps of a call names grants by their fingerprints, and so
    -- does the request of the call.
    abbrev pub IsCoherentCall : ServiceCall Candidate → Type 0
    IsCoherentCall (authorizing schedule provider pending input) =
        ((n : ℕ) → AreCoherent issuer_of grant_id_of (schedule.others n)) × IsDetermined input
    IsCoherentCall (reconciling schedule provider) =
        (n : ℕ) → AreCoherent issuer_of grant_id_of (schedule.others n)
    IsCoherentCall (restarting schedule provider) =
        (n : ℕ) → AreCoherent issuer_of grant_id_of (schedule.others n)

    serve-GoodRun :
        (call : ServiceCall Candidate) (w : World)
        → IsCoherentCall call
        → IsSound issuer_of grant_id_of w.db
        → GoodRun issuer_of grant_id_of w.db (serve ext options call w).db
    unfolding serve
    serve-GoodRun (authorizing schedule provider pending input) w (c, d) =
        (authorize-Keeps schedule provider c input pending d).run w
    serve-GoodRun (reconciling schedule provider) w c =
        (reconcile-Keeps issuer_of grant_id_of ext options schedule c provider).run w
    serve-GoodRun (restarting schedule provider) w c =
        (recover-Keeps issuer_of grant_id_of ext options schedule c provider).run w

    pub serve_all-GoodRun :
        (calls : List (ServiceCall Candidate)) (w : World)
        → All IsCoherentCall calls
        → IsSound issuer_of grant_id_of w.db
        → GoodRun issuer_of grant_id_of w.db (serve_all ext options calls w).db
    unfolding serve_all
    serve_all-GoodRun [] w c s = (s, done)
    serve_all-GoodRun (call ∷ calls) w (c, cs) s =
        let first = serve-GoodRun call w c s in
        let rest = serve_all-GoodRun calls (serve ext options call w) cs first.0 in
        (rest.0, Run-trans first.1 rest.1)

    -- The budget holds for the whole service: where the tables are sound, after any sequence of
    -- requests, reconciliations and restarts, with any providers, any clocks, crashes at any step, and
    -- between any two steps any calls of the store by other processes, where the fingerprint of every
    -- request and of every other reservation determines its grant, the amounts of every grant's
    -- invocations that hold budget and of those that are confirmed together are at most the grant's
    -- total.
    pub service_budget_holds :
        (calls : List (ServiceCall Candidate)) (w : World) (issuer grant_id : String)
        (g : GrantRecord)
        → IsSound issuer_of grant_id_of w.db
        → All IsCoherentCall calls
        → find_grant issuer grant_id (serve_all ext options calls w).db.grants ≡ some g
        → held g.issuer g.grant_id (serve_all ext options calls w).db.invocations
            + spent g.issuer g.grant_id (serve_all ext options calls w).db.invocations
          ≤ big_int g.max_total_atomic
    service_budget_holds calls w issuer grant_id g sound coherent found =
        let b = (serve_all-GoodRun calls w coherent sound).0.balanced issuer grant_id g found in
        omega (arith, b.bounded, b.reserved_sum, b.consumed_sum)
