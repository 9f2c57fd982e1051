-- ===== src/Authority/Keeps/Steps.antt =====
-- The steps that the methods of the service share keep the tables sound.
use virtual_haibin.Prelude.{ℕ, String, none, inl, inr, Option-cases, Bool-cases}
use virtual_haibin.Evidence.{SignedAuthorizationReceipt}
use virtual_haibin.Store.{invalid_state_transition, InvocationRecord}
use virtual_haibin.Store.Operations.{is_decided, attach_receipt, fail, mark_reconciliation_required}
use virtual_haibin.Store.Ledger.Methods.{fail-Good, mark-Good}
use virtual_haibin.Store.Ledger.Records.{receipt-Good}
use virtual_haibin.Store.Ledger.History.{AreCoherent}
use virtual_haibin.Authority.{Externals, AuthorityOptions, AuthorityError, store_failed}
use virtual_haibin.Authority.Monad.{Schedule, Service, access, raise, ◌>>=◌}
use virtual_haibin.Authority.Receipts.{ensure_receipt, build_receipt}
use virtual_haibin.Authority.Pay.{
  release_unsubmitted, suspend_unknown, suspend_unrecorded, unless_moved_on,
}
use virtual_haibin.Authority.Keeps.{
  Keeps, Keeps-pure, Keeps-raise, Keeps-bind, Keeps-catch, Keeps-method,
}

module _ {Candidate : Type 0} (issuer_of grant_id_of : String → String) (ext : Externals Candidate)
    (options : AuthorityOptions) (schedule : Schedule)
    (coherent : (n : ℕ) → AreCoherent issuer_of grant_id_of (schedule.others n)) where
  abbrev pub Kept : {A : Type 0} → Service A → Type 0
  Kept m = Keeps issuer_of grant_id_of m

  attach-Keeps :
      (id : String) (receipt : SignedAuthorizationReceipt)
      → Kept (access schedule (attach_receipt id receipt))
  attach-Keeps id receipt =
      Keeps-method issuer_of grant_id_of schedule coherent (attach_receipt id receipt)
        (λ now db s. receipt-Good issuer_of grant_id_of db s id receipt now)

  pub ensure_receipt-Keeps :
      (invocation : InvocationRecord) → Kept (ensure_receipt ext options schedule invocation)
  unfolding ensure_receipt
  ensure_receipt-Keeps invocation = elim (Option-cases invocation.receipt) [
    | inr (receipt, e) ↦ rw e (Keeps-pure issuer_of grant_id_of receipt)
    | inl missing ↦ elim (Bool-cases (is_decided invocation.state)) [
      | inl decided ↦
          rw (missing, decided)
            (attach-Keeps invocation.invocation_id
              (build_receipt ext options (record invocation { receipt = none })))
      | inr open_state ↦ rw (missing, open_state) (Keeps-raise issuer_of grant_id_of _)
    ]
  ]

  pub fail-Keeps : (id message : String) → Kept (access schedule (fail id message))
  fail-Keeps id message =
      Keeps-method issuer_of grant_id_of schedule coherent (fail id message)
        (λ now db s. fail-Good issuer_of grant_id_of db s id message now)

  pub mark-Keeps :
      (id message : String) → Kept (access schedule (mark_reconciliation_required id message))
  mark-Keeps id message =
      Keeps-method issuer_of grant_id_of schedule coherent (mark_reconciliation_required id message)
        (λ now db s. mark-Good issuer_of grant_id_of db s id message now)

  -- A step, and then an error.
  pub then_raise-Keeps :
      {A B : Type 0} (m : Service A) (e : AuthorityError)
      → Kept m
      → Kept {A = B} (m >>= λ _. raise e)
  then_raise-Keeps m e k =
      Keeps-bind issuer_of grant_id_of m (λ _. raise e) k (λ _. Keeps-raise issuer_of grant_id_of e)

  unless_moved_on-Keeps : (e : AuthorityError) → Kept (unless_moved_on e)
  unless_moved_on-Keeps (store_failed (invalid_state_transition id)) =
      Keeps-pure issuer_of grant_id_of tt
  unless_moved_on-Keeps e = Keeps-raise issuer_of grant_id_of e

  pub release_unsubmitted-Keeps :
      (id message : String) → Kept (release_unsubmitted ext options schedule id message)
  unfolding release_unsubmitted
  release_unsubmitted-Keeps id message = then_raise-Keeps _ _ (
      Keeps-catch issuer_of grant_id_of _ _ _ (fail-Keeps id message)
        (Keeps-pure issuer_of grant_id_of) unless_moved_on-Keeps)

  pub suspend_unknown-Keeps :
      (id message : String) → Kept (suspend_unknown ext options schedule id message)
  unfolding suspend_unknown
  suspend_unknown-Keeps id message = then_raise-Keeps _ _ (mark-Keeps id message)

  pub suspend_unrecorded-Keeps :
      (id message : String) → Kept (suspend_unrecorded ext options schedule id message)
  unfolding suspend_unrecorded
  suspend_unrecorded-Keeps id message = then_raise-Keeps _ _ (
      Keeps-catch issuer_of grant_id_of _ _ _ (mark-Keeps id message)
        (Keeps-pure issuer_of grant_id_of) (λ _. Keeps-pure issuer_of grant_id_of tt))
