-- ===== src/Authority/Sends/Permitted.antt =====
-- What one request makes the service transmit.
use virtual_haibin.Prelude.{
  ℕ, suc, String, Bool, true, false, Option, none, some, [], ◌≡◌, ◌∙◌, sym, subst, refl, inl, inr,
  Bool-cases, Option-cases, ◌==◌,
}
use virtual_haibin.Payments.{PaidRequest, PaymentRequirement, PaymentChallenge}
use virtual_haibin.Authority.Sends.Stepwise.{
  SendsFrom, SendsFrom-next, SendsFrom-Sends, Leads, Leads-access, Leads-read_clock, Leads-Still,
  Still, Still-pure, Still-Silent, IsAt, found_by,
}
use virtual_haibin.Store.{
  Db, allowed, InvocationState, InvocationRecord, denied, confirmed, ReserveResult, existing,
  grant_conflict, was_reserved, was_denied,
}
use virtual_haibin.Store.Operations.{reserve, is_decided}
use virtual_haibin.Authority.{Externals, AuthorityOptions, PaymentProvider, AuthenticatedRequest}
use virtual_haibin.Authority.Monad.{Sent, World, Schedule, access}
use virtual_haibin.Authority.Decision.{evaluate}
use virtual_haibin.Authority.Receipts.{ensure_receipt}
use virtual_haibin.Authority.Gather.{Gathered}
use virtual_haibin.Authority.Pay.{pay}
use virtual_haibin.Authority.Process.{
  reserve_input, answer, answer_known, resolve_existing, gather_if, pay_gathered, conclude,
  process_fresh, process_known, process, is_retryable,
}
use virtual_haibin.Authority.Sends.{
  Silent, Silent-pure, Silent-raise, Silent-read_clock, Silent-access, Silent-bind, Sends,
  Sends-Silent, SentOne, Sends-map, Sends-first, Replies, Replies-pure,
}
use virtual_haibin.Authority.Sends.Reserved.{committed_in, IsAllowed, reserve-IsAllowed}
use virtual_haibin.Authority.Sends.Payment.{IsExecuted, then_raise-Silent, pay-Sends}
use virtual_haibin.Authority.Sends.Decided.{
  IsPermitted, evaluate-IsPermitted, IsQuoted, IsGathered, gather-IsGathered, gather-Still,
  empty-IsGathered,
}

module _ {Candidate : Type 0} (ext : Externals Candidate) (options : AuthorityOptions)
    (schedule : Schedule) (provider : PaymentProvider) where
  -- What is known of a payment that was transmitted for a request, decided at a time and a committed
  -- total.
  pub record IsPaidFor (auth : AuthenticatedRequest) (decided_at : ℕ) (committed : String)
      (s : Sent) : Type 0 where
    pub requirement : PaymentRequirement
    pub paid_request : PaidRequest
    pub quoted : PaymentChallenge
    pub permitted : IsPermitted auth.permit auth.request decided_at committed requirement
    pub is_quoted :
        IsQuoted ext options provider auth.permit auth.request paid_request quoted requirement
    pub executed : IsExecuted provider paid_request quoted requirement auth.request.invocation_id s

  pub ensure_receipt-Silent :
      (invocation : InvocationRecord) → Silent (ensure_receipt ext options schedule invocation)
  unfolding ensure_receipt
  ensure_receipt-Silent invocation = elim (Option-cases invocation.receipt) [
    | inr (receipt, e) ↦ rw e (Silent-pure receipt)
    | inl missing ↦ elim (Bool-cases (is_decided invocation.state)) [
      | inl decided ↦ rw (missing, decided) (Silent-access schedule _)
      | inr open_state ↦ rw (missing, open_state) (Silent-raise _)
    ]
  ]

  pub answer-Silent :
      (replay : Bool) (invocation : InvocationRecord)
      → Silent (answer ext options schedule provider replay invocation)
  unfolding answer
  answer-Silent replay invocation =
      Silent-bind _ _ (ensure_receipt-Silent invocation) (λ receipt. Silent-pure _)

  answer_known-Silent :
      (invocation : InvocationRecord) (s : InvocationState)
      → Silent (answer_known ext options schedule provider invocation s)
  answer_known-Silent invocation denied = answer-Silent true invocation
  answer_known-Silent invocation confirmed = answer-Silent true invocation
  answer_known-Silent invocation _ = Silent-raise _

  pub resolve_existing-Silent :
      (invocation : InvocationRecord) (fingerprint : String)
      → Silent (resolve_existing ext options schedule provider invocation fingerprint)
  unfolding resolve_existing
  resolve_existing-Silent invocation fingerprint =
      elim (Bool-cases (invocation.fingerprint == fingerprint)) [
        | inr other ↦ rw other (Silent-raise _)
        | inl same ↦ rw same (answer_known-Silent invocation invocation.state)
      ]

  module _ (auth : AuthenticatedRequest) where
    gather_if-Still :
        (test : Bool)
        → Still (gather_if ext options schedule provider test auth.permit auth.request)
    gather_if-Still true = gather-Still ext options provider auth.permit auth.request
    gather_if-Still false = Still-pure _

    pub gather_if-Silent :
        (test : Bool)
        → Silent (gather_if ext options schedule provider test auth.permit auth.request)
    gather_if-Silent test = Still-Silent _ (gather_if-Still test)

    gather_if-IsGathered :
        (test : Bool)
        → Replies
            (IsGathered ext options provider auth.permit auth.request)
            (gather_if ext options schedule provider test auth.permit auth.request)
    gather_if-IsGathered true = gather-IsGathered ext options provider auth.permit auth.request
    gather_if-IsGathered false =
        Replies-pure _ _ (empty-IsGathered ext options provider auth.permit auth.request none [])

    pay_gathered-cases :
        (P : Sent → Type 0) (row : InvocationRecord) (p : Option PaidRequest)
        (q : Option PaymentChallenge) (r : Option PaymentRequirement)
        → ((paid_request : PaidRequest) (quoted : PaymentChallenge)
              (requirement : PaymentRequirement)
            → p ≡ some paid_request
            → q ≡ some quoted
            → r ≡ some requirement
            → Sends P
                (pay ext options schedule provider auth.permit row paid_request quoted requirement))
        → Sends P (pay_gathered ext options schedule provider auth row p q r)
    pay_gathered-cases P row (some p) (some q) (some r) k = k p q r refl refl refl
    pay_gathered-cases P row _ _ _ k =
        Sends-Silent P _ (then_raise-Silent _ _ (Silent-access schedule _))

    -- What is committed of the permit's grant.
    abbrev pub committed_of : Db → String
    committed_of = committed_in auth.permit.issuer auth.permit.grant_id

    abbrev Decided : ℕ → Db → Sent → Type 0
    Decided decided_at tables = IsPaidFor auth decided_at (committed_of tables)

    abbrev Allows : ℕ → Gathered → Db → ReserveResult → Type 0
    Allows decided_at gathered =
        IsAllowed (reserve_input auth decided_at gathered.requirement) (
          evaluate auth.permit auth.request decided_at gathered.challenge_codes
            gathered.requirement)

    -- A row that the store reserved for the request is paid only for what was quoted.
    pay_gathered-Sends :
        (decided_at : ℕ) (tables : Db) (gathered : Gathered) (row : InvocationRecord)
        → IsGathered ext options provider auth.permit auth.request gathered
        → Allows decided_at gathered tables (was_reserved row)
        → Sends (Decided decided_at tables) (
            pay_gathered ext options schedule provider auth row gathered.paid_request
              gathered.quoted gathered.requirement)
    pay_gathered-Sends decided_at tables gathered row g (same, e) =
        pay_gathered-cases (Decided decided_at tables) row _ _ _ (λ p q r hp hq hr.
          let committed = committed_of tables in
          let e' =
            subst
              (λ o.
                evaluate auth.permit auth.request decided_at gathered.challenge_codes o committed
                ≡ allowed)
              hr e in
          let (none_left, permitted) =
            evaluate-IsPermitted auth.permit auth.request decided_at gathered.challenge_codes r
              committed e' in
          let found = g r hr none_left in
          let at_request : found.paid_request ≡ p = some-injective (sym found.has_request ∙ hp) in
          let at_quoted : found.quoted ≡ q = some-injective (sym found.has_quoted ∙ hq) in
          let is_quoted : IsQuoted ext options provider auth.permit auth.request p q r =
            subst (λ x. IsQuoted ext options provider auth.permit auth.request x q r) at_request
              (subst
                (λ x. IsQuoted ext options provider auth.permit auth.request found.paid_request x r)
                at_quoted found.is_quoted) in
          Sends-map (IsExecuted provider p q r row.invocation_id) (Decided decided_at tables) _
            (λ s x. record {
              requirement = r;
              paid_request = p;
              quoted = q;
              permitted = permitted;
              is_quoted = is_quoted;
              executed = subst (λ id. IsExecuted provider p q r id s) same x;
            })
            (pay-Sends ext options schedule provider row auth.permit p q r))
      where
        some-injective : {A : Type 0} {a b : A} → some a ≡ some b → a ≡ b
        some-injective h = cc (h)

    conclude-Sends :
        (decided_at : ℕ) (tables : Db) (gathered : Gathered) (decision : ReserveResult)
        → IsGathered ext options provider auth.permit auth.request gathered
        → Allows decided_at gathered tables decision
        → Sends
            (Decided decided_at tables)
            (conclude ext options schedule provider auth gathered decision)
    unfolding conclude
    conclude-Sends decided_at tables gathered (grant_conflict grant) g a =
        Sends-Silent _ _ (Silent-raise _)
    conclude-Sends decided_at tables gathered (existing invocation) g a =
        Sends-Silent _ _ (resolve_existing-Silent invocation auth.fingerprint)
    conclude-Sends decided_at tables gathered (was_denied invocation) g a =
        Sends-Silent _ _ (answer-Silent false invocation)
    conclude-Sends decided_at tables gathered (was_reserved invocation) g a =
        Sends-first _ _ _ (pay_gathered-Sends decided_at tables gathered invocation g a)
          (answer-Silent false)

    -- What is known when the challenge has been gathered, at the n-th access.
    abbrev Ready : ℕ → Db → ℕ → World → Type 0
    Ready n db decided_at w = (decided_at ≡ schedule.clock n) × IsAt (suc n) db w

    reserve-Leads :
        (n : ℕ) (db : Db) (decided_at : ℕ) (gathered : Gathered)
        → Leads
            (λ w.
              IsGathered ext options provider auth.permit auth.request gathered
              × Ready n db decided_at w)
            (access schedule (
              reserve (reserve_input auth decided_at gathered.requirement) (
                evaluate auth.permit auth.request decided_at gathered.challenge_codes
                  gathered.requirement)))
            (λ decision _.
              (decided_at ≡ schedule.clock n)
              × IsGathered ext options provider auth.permit auth.request gathered
              × Allows decided_at gathered (found_by schedule (suc n) db) decision)
    reserve-Leads n db decided_at gathered =
        let input = reserve_input auth decided_at gathered.requirement in
        let decide =
          evaluate auth.permit auth.request decided_at gathered.challenge_codes
            gathered.requirement in
        Leads-access _ schedule _ _ (λ w w' decision (g, (same, (s, d))) returns _ _. (
          same,
          g,
          reserve-IsAllowed input decide (found_by schedule (suc n) db) (schedule.clock w.step)
              decision (cc (returns, s, d)),
        ))

    process_fresh-Sends :
        (n : ℕ) (db : Db)
        → SendsFrom
            (IsAt n db)
            (Decided (schedule.clock n) (found_by schedule (suc n) db))
            (process_fresh ext options schedule provider auth)
    unfolding process_fresh
    process_fresh-Sends n db =
        let P = Decided (schedule.clock n) (found_by schedule (suc n) db) in
        SendsFrom-next P (IsAt n db) (Ready n db) _ _ (Silent-read_clock schedule)
          (Leads-read_clock schedule n db)
          (λ decided_at.
            SendsFrom-next P (Ready n db decided_at) _ _ _ (gather_if-Silent _)
              (Leads-Still (Ready n db decided_at) _ _ (gather_if-Still _) (gather_if-IsGathered _))
              (λ gathered.
                SendsFrom-next P _ _ _ _ (Silent-access schedule _)
                  (reserve-Leads n db decided_at gathered)
                  (λ decision. record {
                    sends_from = λ w (same, g, a).
                        subst
                          (λ d.
                            SentOne (Decided d (found_by schedule (suc n) db)) w.sent
                              (conclude ext options schedule provider auth gathered decision
                                w).1.sent)
                          same
                          ((conclude-Sends decided_at (found_by schedule (suc n) db) gathered
                              decision g a).sends
                            w);
                  })))

    process_known-Sends :
        (n : ℕ) (db : Db) (known : Option InvocationRecord)
        → SendsFrom
            (IsAt n db)
            (Decided (schedule.clock n) (found_by schedule (suc n) db))
            (process_known ext options schedule provider auth known)
    process_known-Sends n db none = process_fresh-Sends n db
    process_known-Sends n db (some known) =
        elim (Bool-cases (is_retryable known auth.fingerprint)) [
          | inl retry ↦ rw retry (process_fresh-Sends n db)
          | inr settled ↦ rw settled (
              SendsFrom-Sends _ _ _
                (Sends-Silent _ _ (resolve_existing-Silent known auth.fingerprint)))
        ]

    -- The request is decided at the reading of the clock after the first access, and the store is
    -- asked to reserve at the access after that.
    pub process-Sends :
        (n : ℕ) (db : Db)
        → SendsFrom
            (IsAt n db)
            (IsPaidFor auth
              (schedule.clock (suc n))
              (committed_of (found_by schedule (suc (suc n)) (found_by schedule n db))))
            (process ext options schedule provider auth)
    unfolding process
    process-Sends n db =
        SendsFrom-next _ (IsAt n db) (λ _. IsAt (suc n) (found_by schedule n db)) _ _
          (Silent-access schedule _)
          (Leads-access _ schedule _ _
            (λ w w' known (s, d) _ tables step. (cc (step, s), cc (tables, s, d))))
          (λ known. process_known-Sends (suc n) (found_by schedule n db) known)
