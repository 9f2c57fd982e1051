-- ===== src/Authority/Sends/Reserved.antt =====
-- What a reservation that the store made says.
use virtual_haibin.Prelude.{
  not, ℕ, ◌+◌, String, Option, none, some, List, [], ◌≡◌, ◌⊎◌, subst, sym, ap, ◌∙◌, refl, inl, inr,
  Option-cases, Bool-cases, arith,
}
use virtual_haibin.Decimal.{big_int, to_string}
use virtual_haibin.Store.{
  Db, StoreError, beyond_total, reserved, denied, ReserveInput, BudgetDecision, allowed, refused,
  ReserveResult, existing, grant_conflict, was_reserved, was_denied, InvocationRecord, GrantRecord,
}
use virtual_haibin.Store.Monad.{
  Result, ok, thrown, Action, continue, require, commit_or_rollback, transaction,
}
use virtual_haibin.Store.Table.{find_invocation, find_grant}
use virtual_haibin.Store.Table.Rows.{find_invocation-key, find_grant-append}
use virtual_haibin.Store.Statements.{
  update_grant_amounts, require_invocation, insert_grant, require_grant, grant_check,
}
use virtual_haibin.Store.Operations.{
  is_beyond, Pin, pinned, conflicting, write_reservation, write_denial, write_decision,
  decide_budget, decide, pin_grant, reserve_body, reserve, is_retry,
}

-- What is known of the value of a body that returns.
record Yields {A : Type 0} (Q : A → Type 0) (r : Result (A × Db)) : Type 0 where
  value : (a : A) (db : Db) → r ≡ ok (a, db) → Q a

Yields-ok : {A : Type 0} (Q : A → Type 0) (a : A) (db : Db) → Q a → Yields Q (ok (a, db))
Yields-ok Q a db q = record { value = λ b db' e. subst Q (cc (e)) q }

Yields-thrown : {A : Type 0} (Q : A → Type 0) (e : StoreError) → Yields Q (thrown e)
Yields-thrown Q x = record { value = λ b db' e. absurd (cc (e)) }

Yields-continue :
    {A B : Type 0} (Q : B → Type 0) (f : A → Action B) (r : Result (A × Db))
    → ((a : A) (db : Db) → Yields Q (f a db))
    → Yields Q (continue f r)
Yields-continue Q f (ok (a, db)) k = k a db
Yields-continue Q f (thrown e) k = Yields-thrown Q e

Yields-returned :
    {A B : Type 0} (Q : B → Type 0) (f : A → Action B) (r : Result (A × Db))
    → ((a : A) (db : Db) → r ≡ ok (a, db) → Yields Q (f a db))
    → Yields Q (continue f r)
Yields-returned Q f (ok (a, db)) k = k a db refl
Yields-returned Q f (thrown e) k = Yields-thrown Q e

Yields-transaction :
    {A : Type 0} (Q : A → Type 0) (body : Action A) (db : Db) (a : A)
    → Yields Q (body db)
    → (transaction body db).0 ≡ ok a
    → Q a
unfolding transaction
Yields-transaction {A} Q body db a y e = by_result (body db) refl e
  where
    by_result : (r : Result (A × Db)) → body db ≡ r → (commit_or_rollback db r).0 ≡ ok a → Q a
    by_result (ok (b, db')) k h = subst Q (cc (h)) (y.value b db' k)
    by_result (thrown x) k h = absurd (cc (h))

decision-cases :
    (d : BudgetDecision) → (d ≡ allowed) ⊎ ((codes : List String) × (d ≡ refused codes))
decision-cases allowed = inl refl
decision-cases (refused codes) = inr (codes, refl)

-- What the tables say is committed of a grant: what it has reserved and consumed, and nothing where
-- there is no such grant yet.
unfoldable pub committed_in : String → String → Db → String
committed_in issuer grant_id db = elim (find_grant issuer grant_id db.grants) [
  | none ↦ "0"
  | some g ↦ to_string (big_int g.reserved_atomic + big_int g.consumed_atomic)
]

unopened :
    (issuer grant_id : String) (db : Db)
    → find_grant issuer grant_id db.grants ≡ none
    → committed_in issuer grant_id db ≡ "0"
unfolding committed_in
unopened issuer grant_id db absent = rw (committed_in, absent) refl

zero_total : to_string (big_int "0" + big_int "0") ≡ "0"
unfolding big_int to_string
zero_total = refl

module _ (input : ReserveInput) (evaluate : String → BudgetDecision) (tables : Db) where
  abbrev pub committed_total : String
  committed_total = committed_in input.grant.issuer input.grant.grant_id tables

  -- A row that was reserved is that of the invocation, and was allowed at the committed total.
  abbrev pub IsAllowed : ReserveResult → Type 0
  IsAllowed (was_reserved row) =
      (row.invocation_id ≡ input.invocation_id) × (evaluate committed_total ≡ allowed)
  IsAllowed _ = Unit

  found-IsAllowed :
      (db : Db)
      → evaluate committed_total ≡ allowed
      → Yields IsAllowed (
          continue
            (λ row db. ok (was_reserved row, db))
            (require_invocation input.invocation_id db))
  unfolding require_invocation
  found-IsAllowed db e = elim (Option-cases (find_invocation input.invocation_id db.invocations)) [
    | inl missing ↦ rw (missing, continue) (Yields-thrown IsAllowed _)
    | inr (row, found) ↦
        rw (found, continue)
          (Yields-ok IsAllowed (was_reserved row) db
            (find_invocation-key input.invocation_id db.invocations row found, e))
  ]

  reservation-IsAllowed :
      (old : Option InvocationRecord) (grant : GrantRecord) (now : ℕ) (db : Db)
      → evaluate committed_total ≡ allowed
      → Yields IsAllowed (write_reservation input old grant now db)
  unfolding write_reservation
  reservation-IsAllowed old grant now db e =
      let raised = to_string (big_int grant.reserved_atomic + big_int input.amount_atomic) in
      Yields-continue IsAllowed _
        (require (not (is_beyond input grant)) (beyond_total input.grant.grant_id) db)
        (λ _ db.
          Yields-continue IsAllowed _
            (update_grant_amounts raised grant.consumed_atomic now grant.issuer grant.grant_id db)
            (λ _ db.
              Yields-continue IsAllowed _ (write_decision input old reserved [] now db)
                (λ _ db. found-IsAllowed db e)))

  denial-IsAllowed :
      (old : Option InvocationRecord) (codes : List String) (now : ℕ) (db : Db)
      → Yields IsAllowed (write_denial input old codes now db)
  unfolding write_denial
  denial-IsAllowed old codes now db =
      Yields-continue IsAllowed _ (write_decision input old denied codes now db) (λ _ db.
        Yields-continue IsAllowed _ (require_invocation input.invocation_id db)
          (λ row db. Yields-ok IsAllowed (was_denied row) db tt))

  pinned-committed :
      (now : ℕ) (g : GrantRecord) (db : Db)
      → pin_grant input now tables ≡ ok (pinned g, db)
      → to_string (big_int g.reserved_atomic + big_int g.consumed_atomic) ≡ committed_total
  unfolding pin_grant committed_in insert_grant require_grant
  pinned-committed now g db e =
      elim (Option-cases (find_grant input.grant.issuer input.grant.grant_id tables.grants)) [
        | inr (g', found) ↦ ground (arith, found, e)
        | inl absent ↦
            let opened : GrantRecord = record {
              issuer = input.grant.issuer;
              grant_id = input.grant.grant_id;
              permit_digest = input.grant.permit_digest;
              max_total_atomic = input.grant.max_total_atomic;
              reserved_atomic = "0";
              consumed_atomic = "0";
              created_at = now;
              updated_at = now;
            } in
            let stored =
              find_grant-append input.grant.issuer input.grant.grant_id tables.grants opened absent
                refl refl in
            elim (Bool-cases (grant_check opened)) [
              | inr bad ↦ absurd (ground (arith, absent, bad, e))
              | inl good ↦
                  let same : opened ≡ g = ground (arith, absent, good, stored, e) in
                  ap (λ h. to_string (big_int h.reserved_atomic + big_int h.consumed_atomic))
                    (sym same)
                  ∙ zero_total
                  ∙ sym (unopened input.grant.issuer input.grant.grant_id tables absent)
            ]
      ]

  decide-IsAllowed :
      (old : Option InvocationRecord) (now : ℕ)
      → Yields IsAllowed (decide input evaluate old now tables)
  unfolding decide_budget
  decide-IsAllowed old now =
      unfold decide in
      Yields-returned IsAllowed (decide_budget input evaluate old now) (pin_grant input now tables)
        by_pin
    where
      by_pin :
          (pin : Pin) (db : Db)
          → pin_grant input now tables ≡ ok (pin, db)
          → Yields IsAllowed (decide_budget input evaluate old now pin db)
      by_pin (conflicting g) db h = Yields-ok IsAllowed (grant_conflict g) db tt
      by_pin (pinned g) db h =
          let committed = to_string (big_int g.reserved_atomic + big_int g.consumed_atomic) in
          elim (decision-cases (evaluate committed)) [
            | inl e ↦
                let at_total : evaluate committed_total ≡ allowed =
                  subst (λ c. evaluate c ≡ allowed) (pinned-committed now g db h) e in
                rw (decide_budget, e) (reservation-IsAllowed old g now db at_total)
            | inr (codes, e) ↦ rw (decide_budget, e) (denial-IsAllowed old codes now db)
          ]

  body-IsAllowed : (now : ℕ) → Yields IsAllowed (reserve_body input evaluate now tables)
  unfolding reserve_body
  body-IsAllowed now =
      elim (Option-cases (find_invocation input.invocation_id tables.invocations)) [
        | inl missing ↦ rw (reserve_body, missing) (decide-IsAllowed none now)
        | inr (row, found) ↦ elim (Bool-cases (is_retry row input)) [
          | inl retry ↦ rw (reserve_body, found, retry) (decide-IsAllowed (some row) now)
          | inr settled ↦
              rw (reserve_body, found, settled) (Yields-ok IsAllowed (existing row) tables tt)
        ]
      ]

  pub reserve-IsAllowed :
      (now : ℕ) (r : ReserveResult) → (reserve input evaluate now tables).0 ≡ ok r → IsAllowed r
  unfolding reserve
  reserve-IsAllowed now r e =
      Yields-transaction IsAllowed (reserve_body input evaluate now) tables r (body-IsAllowed now) e
