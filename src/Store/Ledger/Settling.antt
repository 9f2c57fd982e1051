-- ===== src/Store/Ledger/Settling.antt =====
-- Releasing and consuming what an invocation holds always succeeds on sound tables.
use virtual_haibin.Prelude.{
  ℕ, ◌+◌, ◌-◌, ◌≤◌, String, true, some, List, ◌≡◌, ◌∙◌, arith, inl, inr, Option-cases,
}
use virtual_haibin.Decimal.{atomic_check, big_int, to_string}
use virtual_haibin.Decimal.RoundTrip.{to_string-passes}
use virtual_haibin.Decimal.Columns.{big_int-lt}
use virtual_haibin.Store.{InvocationRecord, GrantRecord, Db}
use virtual_haibin.Store.Monad.{ok}
use virtual_haibin.Store.Table.{find_invocation, find_grant, update_grant}
use virtual_haibin.Store.Table.Rows.{le-total, All-find, find_grant-key}
use virtual_haibin.Store.Statements.{
  grant_check, set_amounts, update_grant_amounts, require_grant, release_reservation,
  consume_reservation,
}
use virtual_haibin.Store.Ledger.{is_held, weight, held, IsBalanced, IsOwned, IsSound}
use virtual_haibin.Store.Ledger.Moves.{weight-own}

pub update_grant_amounts-eval :
    (r c : String) (now : ℕ) (i n : String) (db : Db) (g : GrantRecord)
    → find_grant i n db.grants ≡ some g
    → grant_check (set_amounts r c now g) ≡ true
    → update_grant_amounts r c now i n db
      ≡ ok (tt, record db { grants = update_grant i n (set_amounts r c now) db.grants })
unfolding update_grant_amounts
update_grant_amounts-eval r c now i n db g e h = ground arith

-- The grant's columns once `amount` is released, and once it is consumed.
abbrev pub released : GrantRecord → InvocationRecord → String
released g row = to_string (big_int g.reserved_atomic - big_int row.amount_atomic)

abbrev pub consumed : GrantRecord → InvocationRecord → String
consumed g row = to_string (big_int g.consumed_atomic + big_int row.amount_atomic)

pub set_amounts-check :
    (r c : String) (now : ℕ) (rows : List InvocationRecord) (g : GrantRecord)
    → IsBalanced rows g
    → atomic_check r ≡ true
    → atomic_check c ≡ true
    → grant_check (set_amounts r c now g) ≡ true
unfolding grant_check
set_amounts-check r c now rows g b x y = ground (arith, b.max_check)

pub released-check :
    (rows : List InvocationRecord) (g : GrantRecord) (row : InvocationRecord)
    → IsBalanced rows g
    → atomic_check (released g row) ≡ true
released-check rows g row b =
    to_string-passes _ (omega (arith, big_int-lt g.reserved_atomic b.reserved_check))

pub consumed-check :
    (rows : List InvocationRecord) (g : GrantRecord) (row : InvocationRecord)
    → IsBalanced rows g
    → big_int row.amount_atomic ≤ big_int g.reserved_atomic
    → atomic_check (consumed g row) ≡ true
consumed-check rows g row b le =
    to_string-passes _ (omega (arith, b.bounded, big_int-lt g.max_total_atomic b.max_check))

module _ (issuer_of grant_id_of : String → String) (db : Db)
    (sound : IsSound issuer_of grant_id_of db) (id : String) (row : InvocationRecord)
    (found : find_invocation id db.invocations ≡ some row) (holds : is_held row.state ≡ true) where
  -- What an invocation holds is part of its grant's reserved total.
  pub backed :
      (g : GrantRecord) × (find_grant row.issuer row.grant_id db.grants ≡ some g)
      × (find_grant g.issuer g.grant_id db.grants ≡ some g)
      × (big_int row.amount_atomic ≤ big_int g.reserved_atomic)
  backed = elim (Option-cases (find_grant row.issuer row.grant_id db.grants)) [
    | inl missing ↦
        let o =
          All-find (IsOwned issuer_of grant_id_of db.grants) id db.invocations row sound.owned
            found in
        absurd (cc (o.granted, missing))
    | inr (g, e) ↦
        let (ki, kn) = find_grant-key row.issuer row.grant_id db.grants g e in
        let b = sound.balanced row.issuer row.grant_id g e in
        let mine : weight is_held row.issuer row.grant_id row ≡ big_int row.amount_atomic =
          weight-own is_held row ∙ (rw holds) in
        let sum : big_int g.reserved_atomic ≡ held row.issuer row.grant_id db.invocations =
          rw (← ki, ← kn) b.reserved_sum in
        (
          g,
          e,
          cc (ki, kn, e),
          omega (
            arith,
            sum,
            mine,
            le-total (weight is_held row.issuer row.grant_id) id db.invocations row found,
          ),
        )
  ]

  -- `#releaseReservation` succeeds, and writes the smaller reserved total.
  pub release-eval :
      (now : ℕ) (g : GrantRecord)
      → find_grant row.issuer row.grant_id db.grants ≡ some g
      → find_grant g.issuer g.grant_id db.grants ≡ some g
      → big_int row.amount_atomic ≤ big_int g.reserved_atomic
      → release_reservation row now db
        ≡ ok (
          tt,
          record db {
            grants =
                update_grant g.issuer g.grant_id
                  (set_amounts (released g row) g.consumed_atomic now)
                  db.grants;
          },
        )
  unfolding release_reservation require_grant
  release-eval now g e e' le =
      let b = sound.balanced row.issuer row.grant_id g e in
      ground (
        arith,
        update_grant_amounts-eval (released g row) g.consumed_atomic now g.issuer g.grant_id db g e'
            (set_amounts-check (released g row) g.consumed_atomic now db.invocations g b
              (released-check db.invocations g row b) b.consumed_check),
      )

  -- `#consumeReservation` succeeds, and moves the amount from reserved to consumed.
  pub consume-eval :
      (now : ℕ) (g : GrantRecord)
      → find_grant row.issuer row.grant_id db.grants ≡ some g
      → find_grant g.issuer g.grant_id db.grants ≡ some g
      → big_int row.amount_atomic ≤ big_int g.reserved_atomic
      → consume_reservation row now db
        ≡ ok (
          tt,
          record db {
            grants =
                update_grant g.issuer g.grant_id
                  (set_amounts (released g row) (consumed g row) now)
                  db.grants;
          },
        )
  unfolding consume_reservation require_grant
  consume-eval now g e e' le =
      let b = sound.balanced row.issuer row.grant_id g e in
      ground (
        arith,
        update_grant_amounts-eval (released g row) (consumed g row) now g.issuer g.grant_id db g e'
            (set_amounts-check (released g row) (consumed g row) now db.invocations g b
              (released-check db.invocations g row b) (consumed-check db.invocations g row b le)),
      )
