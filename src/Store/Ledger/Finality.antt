-- ===== src/Store/Ledger/Finality.antt =====
-- What never changes once it is decided, over any sequence of calls.
use virtual_haibin.Prelude.{String, some, List, ◌≡◌, refl, ◌∙◌, true, ap, String-discrete}
use virtual_haibin.Evidence.{SignedAuthorizationReceipt}
use virtual_haibin.Store.{Db, InvocationRecord}
use virtual_haibin.Store.Table.{find_invocation}
use virtual_haibin.Store.Table.Rows.{
  find_invocation-update_self, find_invocation-update_ne, find_invocation-append_ne,
}
use virtual_haibin.Store.Operations.{is_decided}
use virtual_haibin.Store.Ledger.{IsSound}
use virtual_haibin.Store.Ledger.Effects.{
  Edge, RowEffect, unchanged, moves, opens, attempts, confirms, releases, suspends, settles,
  abandons, retries, receipts,
}
use virtual_haibin.Store.Ledger.Recovering.{Run, done, step}
use virtual_haibin.Store.Ledger.History.{Call, perform_all, AreCoherent, perform_all-GoodRun}

-- Everything but the receipt and the time of the last update.
pub record SameDecision (row row' : InvocationRecord) : Type 0 where
  pub state : row'.state ≡ row.state
  pub transaction : row'.payment_transaction_id ≡ row.payment_transaction_id
  pub settlement : row'.settlement ≡ row.settlement
  pub result : row'.result ≡ row.result
  pub amount : row'.amount_atomic ≡ row.amount_atomic
  pub attempt : row'.payment_attempt ≡ row.payment_attempt
  pub request : row'.request ≡ row.request
  pub reason_codes : row'.reason_codes ≡ row.reason_codes

abbrev same_decision : (row : InvocationRecord) → SameDecision row row
same_decision row = record {
  state = refl;
  transaction = refl;
  settlement = refl;
  result = refl;
  amount = refl;
  attempt = refl;
  request = refl;
  reason_codes = refl;
}

pub Edge-SameDecision :
    {row row' : InvocationRecord}
    → Edge row row'
    → is_decided row.state ≡ true
    → SameDecision row row'
Edge-SameDecision (attempts attempt authorization now s a) d = absurd (cc (s, d))
Edge-SameDecision (confirms payment now s) d = absurd (cc (s, d))
Edge-SameDecision (releases reason now s) d = absurd (cc (s, d))
Edge-SameDecision (suspends reason now s) d = absurd (cc (s, d))
Edge-SameDecision (settles settlement now s) d = absurd (cc (s, d))
Edge-SameDecision (abandons reason now s) d = absurd (cc (s, d))
Edge-SameDecision (retries input state codes now s same decision) d = absurd (cc (s, d))
Edge-SameDecision (receipts receipt now decided r) d = record {
  state = refl;
  transaction = refl;
  settlement = refl;
  result = refl;
  amount = refl;
  attempt = refl;
  request = refl;
  reason_codes = refl;
}

pub Edge-id : {row row' : InvocationRecord} → Edge row row' → row'.invocation_id ≡ row.invocation_id
Edge-id (attempts attempt authorization now s a) = refl
Edge-id (confirms payment now s) = refl
Edge-id (releases reason now s) = refl
Edge-id (suspends reason now s) = refl
Edge-id (settles settlement now s) = refl
Edge-id (abandons reason now s) = refl
Edge-id (retries input state codes now s same decision) = refl
Edge-id (receipts receipt now decided r) = refl

pub Edge-receipt :
    {row row' : InvocationRecord}
    → Edge row row'
    → (receipt : SignedAuthorizationReceipt) → row.receipt ≡ some receipt
    → row'.receipt ≡ some receipt
Edge-receipt (attempts attempt authorization now s a) receipt e = e
Edge-receipt (confirms payment now s) receipt e = e
Edge-receipt (releases reason now s) receipt e = e
Edge-receipt (suspends reason now s) receipt e = e
Edge-receipt (settles settlement now s) receipt e = e
Edge-receipt (abandons reason now s) receipt e = e
Edge-receipt (retries input state codes now s same decision) receipt e = e
Edge-receipt (receipts second now decided r) receipt e = absurd (cc (r, e))

-- A relation on rows that holds of a row and itself, and of a row with `P` and its successor, holds
-- of a row with `P` and what one write leaves of it.
module _ (R : InvocationRecord → InvocationRecord → Type 0) (P : InvocationRecord → Type 0)
    (same : (row : InvocationRecord) → R row row)
    (along : (row row' : InvocationRecord) → Edge row row' → P row → R row row') where
  pub RowEffect-keeps :
      (db db' : Db) (id : String) (row : InvocationRecord)
      → RowEffect db db'
      → find_invocation id db.invocations ≡ some row
      → P row
      → (row' : InvocationRecord) × (find_invocation id db'.invocations ≡ some row') × R row row'
  RowEffect-keeps db db' id row (unchanged h) found p = (row, rw h found, same row)
  RowEffect-keeps db db' id row (moves j other f there edge h) found p =
      elim (String-discrete id j) [
        | yes e ↦
            let it : other ≡ row = cc (e, there, found) in
            (
              f other,
              rw (h, e) (find_invocation-update_self j f db.invocations other there (Edge-id edge)),
              rw (← it) (along other (f other) edge (rw it p)),
            )
        | no d ↦ (
          row,
          rw h (
              find_invocation-update_ne j id f db.invocations other there (Edge-id edge) d ∙ found),
          same row,
        )
      ]
  RowEffect-keeps db db' id row (opens new absent state h) found p =
      let d : ¬ (new.invocation_id ≡ id) = λ e. cc (e, absent, found) in
      (row, rw h (find_invocation-append_ne id db.invocations new d ∙ found), same row)

  module _ (carries : (row row' : InvocationRecord) → P row → R row row' → P row')
      (chain : (a b c : InvocationRecord) → R a b → R b c → R a c) where
    pub Run-keeps :
        {db db' : Db} (id : String) (row : InvocationRecord)
        → Run db db'
        → find_invocation id db.invocations ≡ some row
        → P row
        → (row' : InvocationRecord) × (find_invocation id db'.invocations ≡ some row') × R row row'
    Run-keeps id row done found p = (row, found, same row)
    Run-keeps {db' = db'} id row (step {mid} run effect) found p =
        let (row₁, e₁, r₁) = Run-keeps id row run found p in
        let (row₂, e₂, r₂) =
          RowEffect-keeps mid db' id row₁ effect.rows e₁ (carries row row₁ p r₁) in
        (row₂, e₂, chain row row₁ row₂ r₁ r₂)

chain_decisions :
    (a b c : InvocationRecord) → SameDecision a b → SameDecision b c → SameDecision a c
chain_decisions a b c r s = record {
  state = s.state ∙ r.state;
  transaction = s.transaction ∙ r.transaction;
  settlement = s.settlement ∙ r.settlement;
  result = s.result ∙ r.result;
  amount = s.amount ∙ r.amount;
  attempt = s.attempt ∙ r.attempt;
  request = s.request ∙ r.request;
  reason_codes = s.reason_codes ∙ r.reason_codes;
}

module _ (issuer_of grant_id_of : String → String) (calls : List Call) (db : Db) (id : String)
    (row : InvocationRecord) (sound : IsSound issuer_of grant_id_of db)
    (coherent : AreCoherent issuer_of grant_id_of calls)
    (found : find_invocation id db.invocations ≡ some row) where
  -- A decision is final: an invocation that is DENIED or CONFIRMED keeps its state, transaction,
  -- settlement, result, amount, attempt, request and reason codes over any sequence of calls on
  -- sound tables, where the fingerprint of every reservation determines its grant.
  pub decision_is_final :
      is_decided row.state ≡ true
      → (row' : InvocationRecord) × (find_invocation id (perform_all calls db).invocations
          ≡ some row')
        × SameDecision row row'
  decision_is_final decided =
      Run-keeps SameDecision (λ r. is_decided r.state ≡ true) same_decision
        (λ r r' edge d. Edge-SameDecision edge d) (λ r r' d s. ap is_decided s.state ∙ d)
        chain_decisions id row (perform_all-GoodRun issuer_of grant_id_of calls db coherent sound).1
        found decided

  -- The first receipt wins: a stored receipt stays the stored receipt over any sequence of
  -- calls on sound tables, where the fingerprint of every reservation determines its grant.
  pub receipt_is_final :
      (receipt : SignedAuthorizationReceipt)
      → row.receipt ≡ some receipt
      → (row' : InvocationRecord) × (find_invocation id (perform_all calls db).invocations
          ≡ some row')
        × (row'.receipt ≡ some receipt)
  receipt_is_final receipt stored =
      let (row', e, keeps) =
        Run-keeps (λ r r'. r.receipt ≡ some receipt → r'.receipt ≡ some receipt)
          (λ r. r.receipt ≡ some receipt) (λ r e. e) (λ r r' edge p e. Edge-receipt edge receipt e)
          (λ r r' p k. k p) (λ a b c k l e. l (k e)) id row
          (perform_all-GoodRun issuer_of grant_id_of calls db coherent sound).1 found stored in
      (row', e, keeps stored)
