-- ===== src/Store/Ledger/Reserving.antt =====
-- What `#writeDecision` does to the rows, for a new invocation and for a retried one.
use virtual_haibin.Prelude.{
  ℕ, String, true, ◌&&◌, Option, none, some, List, [], ◌∷◌, ◌++◌, ◌≡◌, refl, arith, ◌⊎◌, inl, inr,
  Bool-cases, All,
}
use virtual_haibin.Decimal.{atomic_check}
use virtual_haibin.Store.{
  InvocationState, InvocationRecord, Db, ReserveInput, StoreError, constraint_failed, reserved,
  denied, confirmed, failed, same_state,
}
use virtual_haibin.Store.Monad.{Result, ok, thrown}
use virtual_haibin.Store.Table.{find_invocation, update_invocation, find_grant}
use virtual_haibin.Store.Table.Rows.{All-find, All-update, All-append}
use virtual_haibin.Store.Statements.{
  is_some, invocation_check, insert_invocation, update_one, record_transition,
}
use virtual_haibin.Store.Operations.{
  write_decision, new_invocation, retried_invocation, or_null, join,
}
use virtual_haibin.Store.Ledger.{is_held, is_spent, weight, IsOwned}
use virtual_haibin.Store.Ledger.Outcomes.{moved, update_one-eval}
use virtual_haibin.Store.Ledger.Moves.{Rewrites, Rewrites-update, Rewrites-append}
use virtual_haibin.Store.Ledger.Effects.{RowEffect, moves, opens, retries}

-- The row that the decision replaces, if there is one: a FAILED attempt of the same request.
abbrev pub Replaces : ReserveInput → Option InvocationRecord → Db → Type 0
Replaces input none db = find_invocation input.invocation_id db.invocations ≡ none
Replaces input (some row) db =
    (find_invocation input.invocation_id db.invocations ≡ some row)
    × (row.state ≡ failed)
    × (row.fingerprint ≡ input.fingerprint)

-- A decision is a reservation or a denial.
abbrev pub IsDecision : InvocationState → Type 0
IsDecision state = (state ≡ reserved) ⊎ (state ≡ denied)

check-amount :
    (row : InvocationRecord) → invocation_check row ≡ true → atomic_check row.amount_atomic ≡ true
unfolding invocation_check
check-amount row h = ground arith

decision-unpaid : (state : InvocationState) → IsDecision state → ¬ (state ≡ confirmed)
decision-unpaid state d h = ground arith

-- The tables after a decision.
abbrev inserted : ReserveInput → InvocationState → List String → ℕ → Db → Db
inserted input state codes now db = record db {
  invocations = db.invocations ++ new_invocation input state codes now ∷ [];
  transitions =
      db.transitions ++ moved input.invocation_id none state (or_null (join codes)) now ∷ [];
}

abbrev retried : ReserveInput → InvocationState → List String → ℕ → InvocationRecord → Db → Db
retried input state codes now row db = record db {
  invocations =
      update_invocation input.invocation_id (retried_invocation input state codes now)
        db.invocations;
  transitions =
      db.transitions
      ++ moved input.invocation_id (some row.state) state (or_null (join codes)) now ∷ [];
}

module _ (issuer_of grant_id_of : String → String) where
  -- The request's fingerprint determines the grant that it names.
  pub record IsCoherent (input : ReserveInput) : Type 0 where
    pub issuer : input.grant.issuer ≡ issuer_of input.fingerprint
    pub grant_id : input.grant.grant_id ≡ grant_id_of input.fingerprint

  -- What is known of the rows once the decision is written.
  pub record Decides (input : ReserveInput) (state : InvocationState) (db db' : Db) : Type 0 where
    pub row : InvocationRecord
    pub before : (InvocationRecord → ℕ) → ℕ
    pub grants : db'.grants ≡ db.grants
    pub rewrites : Rewrites db.invocations db'.invocations before row
    pub quiet :
        (i n : String) → (before (weight is_held i n) ≡ 0) × (before (weight is_spent i n) ≡ 0)
    pub owned :
        All (IsOwned issuer_of grant_id_of db.grants) db.invocations
        → All (IsOwned issuer_of grant_id_of db.grants) db'.invocations
    pub issuer : row.issuer ≡ input.grant.issuer
    pub grant_id : row.grant_id ≡ input.grant.grant_id
    pub amount : row.amount_atomic ≡ input.amount_atomic
    pub decision : row.state ≡ state
    pub effect : RowEffect db db'

  weight_failed :
      (i n : String) (row : InvocationRecord)
      → row.state ≡ failed
      → (weight is_held i n row ≡ 0) × (weight is_spent i n row ≡ 0)
  weight_failed i n row s = (ground arith, ground arith)

  abbrev pub Decided : ReserveInput → InvocationState → Db → Result (Unit {0} × Db) → Type 0
  Decided input state db r =
      ((e : StoreError) × (r ≡ thrown e))
      ⊎ ((db' : Db) × (r ≡ ok (tt, db')) × Decides input state db db')

  module _ (input : ReserveInput) (coherent : IsCoherent input) (state : InvocationState)
      (codes : List String) (now : ℕ) (decision : IsDecision state) where
    insert_new :
        (db : Db)
        → find_invocation input.invocation_id db.invocations ≡ none
        → Decided input state db (write_decision input none state codes now db)
    insert_new db absent =
        let row = new_invocation input state codes now in
        elim (Bool-cases
          (is_some (find_grant row.issuer row.grant_id db.grants) && invocation_check row)) [
            | inr refused ↦
                inl (constraint_failed, unfold write_decision insert_invocation in ground arith)
            | inl passed ↦
                let granted : is_some (find_grant row.issuer row.grant_id db.grants) ≡ true =
                  ground arith in
                let check : invocation_check row ≡ true = ground arith in
                inr (
                  inserted input state codes now db,
                  unfold write_decision insert_invocation record_transition in ground arith,
                  record {
                    row = row;
                    before = λ w. 0;
                    grants = refl;
                    rewrites = Rewrites-append db.invocations row;
                    quiet = λ i n. (refl, refl);
                    owned = λ all.
                        All-append (IsOwned issuer_of grant_id_of db.grants) db.invocations row all
                          (record {
                            amount_check = check-amount row check;
                            granted = granted;
                            issuer_eq = coherent.issuer;
                            grant_id_eq = coherent.grant_id;
                            paid = λ h. absurd (decision-unpaid state decision h);
                          });
                    issuer = refl;
                    grant_id = refl;
                    amount = refl;
                    decision = refl;
                    effect = opens row absent decision refl;
                  },
                )
          ]

    -- The row of a FAILED attempt belongs to the grant of its fingerprint, hence of the request.
    replace_failed :
        (db : Db) (row : InvocationRecord)
        → find_invocation input.invocation_id db.invocations ≡ some row
        → IsOwned issuer_of grant_id_of db.grants row
        → row.state ≡ failed
        → row.fingerprint ≡ input.fingerprint
        → Decided input state db (write_decision input (some row) state codes now db)
    replace_failed db row found o s same =
        let f = retried_invocation input state codes now in
        let i : row.issuer ≡ input.grant.issuer = cc (o.issuer_eq, same, coherent.issuer) in
        let n : row.grant_id ≡ input.grant.grant_id = cc (o.grant_id_eq, same, coherent.grant_id) in
        elim (Bool-cases (invocation_check (f row))) [
          | inr refused ↦ inl (constraint_failed, unfold write_decision update_one in ground arith)
          | inl passed ↦ inr (
            retried input state codes now row db,
            unfold write_decision record_transition in
                ground (
                  arith,
                  update_one-eval input.invocation_id (λ r. same_state r.state failed) f db row
                      found (rw s) passed,
                ),
            record {
              row = f row;
              before = λ w. w row;
              grants = refl;
              rewrites = Rewrites-update input.invocation_id f db.invocations row found;
              quiet = λ i n. weight_failed i n row s;
              owned = λ all.
                  All-update (IsOwned issuer_of grant_id_of db.grants) input.invocation_id f
                    db.invocations row all found
                    (record {
                      amount_check = check-amount (f row) passed;
                      granted = o.granted;
                      issuer_eq = o.issuer_eq;
                      grant_id_eq = o.grant_id_eq;
                      paid = λ h. absurd (decision-unpaid state decision h);
                    });
              issuer = i;
              grant_id = n;
              amount = refl;
              decision = refl;
              effect =
                  moves input.invocation_id row f found
                    (retries input state codes now s same decision) refl;
            },
          )
        ]

    -- `#writeDecision` throws, or writes one row as decided.
    pub write_decision-Decided :
        (db : Db) (old : Option InvocationRecord)
        → Replaces input old db
        → All (IsOwned issuer_of grant_id_of db.grants) db.invocations
        → Decided input state db (write_decision input old state codes now db)
    write_decision-Decided db none absent owned = insert_new db absent
    write_decision-Decided db (some row) (found, s, same) owned =
        replace_failed db row found
          (All-find (IsOwned issuer_of grant_id_of db.grants) input.invocation_id db.invocations row
            owned found)
          s same
