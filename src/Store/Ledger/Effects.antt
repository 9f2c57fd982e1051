-- ===== src/Store/Ledger/Effects.antt =====
-- The abstract view of the store: an invocation moves along the edges of a state machine, and a
-- grant keeps its terms.
use virtual_haibin.Prelude.{
  ℕ, String, true, Option, none, some, List, [], ◌∷◌, ◌++◌, ◌≡◌, refl, ◌∙◌, ◌⊎◌, inl, inr,
}
use virtual_haibin.Payments.{PaymentAttempt, ConfirmedSettlement}
use virtual_haibin.Evidence.{SignedServiceAuthorizationV1, SignedAuthorizationReceipt}
use virtual_haibin.Store.{
  InvocationState, InvocationRecord, GrantRecord, Db, ReserveInput, ConfirmPayment, reserved,
  denied, failed, reconciliation_required,
}
use virtual_haibin.Store.Table.{find_invocation, update_invocation, find_grant, update_grant}
use virtual_haibin.Store.Table.Rows.{
  find_grant-update_self, find_grant-update_ne, find_grant-append_ne,
}
use virtual_haibin.Store.Statements.{set_amounts, set_state}
use virtual_haibin.Store.Operations.{
  set_attempt, set_confirmed, set_resolved, set_receipt, retried_invocation, is_decided,
}
use virtual_haibin.Store.Ledger.Moves.{same_key}

-- The edges of the state machine, each with the one update that takes it.
pub data Edge (row : InvocationRecord) : InvocationRecord → Type 0 where
  attempts :
      (attempt : PaymentAttempt) (authorization : Option SignedServiceAuthorizationV1) (now : ℕ)
      → row.state ≡ reserved
      → row.payment_attempt ≡ none
      → Edge row (set_attempt attempt authorization now row)
  confirms :
      (payment : ConfirmPayment) (now : ℕ)
      → row.state ≡ reserved
      → Edge row (set_confirmed payment now row)
  releases :
      (reason : String) (now : ℕ)
      → row.state ≡ reserved
      → Edge row (set_state failed reason now row)
  suspends :
      (reason : String) (now : ℕ)
      → row.state ≡ reserved
      → Edge row (set_state reconciliation_required reason now row)
  settles :
      (settlement : ConfirmedSettlement) (now : ℕ)
      → row.state ≡ reconciliation_required
      → Edge row (set_resolved settlement now row)
  abandons :
      (reason : String) (now : ℕ)
      → row.state ≡ reconciliation_required
      → Edge row (set_state failed reason now row)
  retries :
      (input : ReserveInput) (state : InvocationState) (codes : List String) (now : ℕ)
      → row.state ≡ failed
      → row.fingerprint ≡ input.fingerprint
      → (state ≡ reserved) ⊎ (state ≡ denied)
      → Edge row (retried_invocation input state codes now row)
  receipts :
      (receipt : SignedAuthorizationReceipt) (now : ℕ)
      → is_decided row.state ≡ true
      → row.receipt ≡ none
      → Edge row (set_receipt receipt now row)

-- What one write does to the rows of the invocations.
pub data RowEffect (db db' : Db) : Type 0 where
  unchanged : db'.invocations ≡ db.invocations → RowEffect db db'
  moves :
      (id : String) (row : InvocationRecord) (f : InvocationRecord → InvocationRecord)
      → find_invocation id db.invocations ≡ some row
      → Edge row (f row)
      → db'.invocations ≡ update_invocation id f db.invocations
      → RowEffect db db'
  opens :
      (row : InvocationRecord)
      → find_invocation row.invocation_id db.invocations ≡ none
      → (row.state ≡ reserved) ⊎ (row.state ≡ denied)
      → db'.invocations ≡ db.invocations ++ row ∷ []
      → RowEffect db db'

-- The terms that a grant keeps once it is there.
pub record SameTerms (g g' : GrantRecord) : Type 0 where
  pub digest : g'.permit_digest ≡ g.permit_digest
  pub total : g'.max_total_atomic ≡ g.max_total_atomic
  pub created : g'.created_at ≡ g.created_at

abbrev pub KeepsGrants : List GrantRecord → List GrantRecord → Type 0
KeepsGrants grants grants' =
    (i n : String) (g : GrantRecord)
    → find_grant i n grants ≡ some g
    → (g' : GrantRecord) × (find_grant i n grants' ≡ some g') × SameTerms g g'

pub record Effect (db db' : Db) : Type 0 where
  pub rows : RowEffect db db'
  pub grants : KeepsGrants db.grants db'.grants

pub KeepsGrants-refl : (grants : List GrantRecord) → KeepsGrants grants grants
KeepsGrants-refl grants i n g e = (g, e, record { digest = refl; total = refl; created = refl })

pub KeepsGrants-trans :
    (a b c : List GrantRecord) → KeepsGrants a b → KeepsGrants b c → KeepsGrants a c
KeepsGrants-trans a b c h k i n g e =
    let (g', e', s) = h i n g e in
    let (g'', e'', t) = k i n g' e' in
    (
      g'',
      e'',
      record {
        digest = t.digest ∙ s.digest;
        total = t.total ∙ s.total;
        created = t.created ∙ s.created;
      },
    )

-- New amounts leave the terms alone.
pub KeepsGrants-amounts :
    (r c : String) (now : ℕ) (grants : List GrantRecord) (h : GrantRecord)
    → find_grant h.issuer h.grant_id grants ≡ some h
    → KeepsGrants grants (update_grant h.issuer h.grant_id (set_amounts r c now) grants)
KeepsGrants-amounts r c now grants h own i n g e = elim (same_key i n h.issuer h.grant_id) [
  | inl (p, q) ↦
      let same : g ≡ h = cc (p, q, own, e) in
      (
        set_amounts r c now h,
        rw (p, q)
            (find_grant-update_self h.issuer h.grant_id (set_amounts r c now) grants h own refl
              refl),
        rw same (record { digest = refl; total = refl; created = refl }),
      )
  | inr d ↦ (
    g,
    find_grant-update_ne h.issuer h.grant_id i n (set_amounts r c now) grants h own refl refl d ∙ e,
    record { digest = refl; total = refl; created = refl },
  )
]

-- A new grant comes beside the old ones.
pub KeepsGrants-append :
    (grants : List GrantRecord) (h : GrantRecord)
    → find_grant h.issuer h.grant_id grants ≡ none
    → KeepsGrants grants (grants ++ h ∷ [])
KeepsGrants-append grants h absent i n g e =
    let d : ¬ ((i ≡ h.issuer) × (n ≡ h.grant_id)) = λ k. cc (k.0, k.1, absent, e) in
    (
      g,
      find_grant-append_ne i n grants h d ∙ e,
      record { digest = refl; total = refl; created = refl },
    )
