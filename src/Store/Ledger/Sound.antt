-- ===== src/Store/Ledger/Sound.antt =====
-- The tables stay sound when an invocation moves on.
use virtual_haibin.Prelude.{
  ℕ, ◌+◌, ◌-◌, ◌≤◌, String, Bool, true, false, some, List, ◌≡◌, refl, sym, ◌∙◌, arith, ap, inl, inr,
  Option-cases, if◌then◌else◌,
}
use virtual_haibin.Decimal.{big_int}
use virtual_haibin.Decimal.RoundTrip.{big_int-to_string}
use virtual_haibin.Store.{InvocationState, InvocationRecord, GrantRecord, Db, confirmed}
use virtual_haibin.Store.Table.{find_invocation, update_invocation, find_grant, update_grant}
use virtual_haibin.Store.Table.Rows.{All-find, All-update, find_grant-key}
use virtual_haibin.Store.Statements.{is_some, set_amounts}
use virtual_haibin.Store.Ledger.{is_held, is_spent, weight, IsOwned, Books, IsSound}
use virtual_haibin.Store.Ledger.Moves.{
  Regrants, Accounts, Regrants-update, Regrants-same, Rewrites-update, weight-other,
}
use virtual_haibin.Store.Ledger.Writes.{write-Books}
use virtual_haibin.Store.Ledger.Settling.{released, consumed, released-check, consumed-check}

-- The columns of a row that no update of a decided row changes.
pub record Keeps (row row' : InvocationRecord) : Type 0 where
  pub issuer : row'.issuer ≡ row.issuer
  pub grant_id : row'.grant_id ≡ row.grant_id
  pub fingerprint : row'.fingerprint ≡ row.fingerprint
  pub amount : row'.amount_atomic ≡ row.amount_atomic
  pub paid : row'.state ≡ confirmed → is_some row'.payment_transaction_id ≡ true

module _ (issuer_of grant_id_of : String → String) where
  IsOwned-Keeps :
      (grants : List GrantRecord) (row row' : InvocationRecord)
      → Keeps row row'
      → IsOwned issuer_of grant_id_of grants row
      → IsOwned issuer_of grant_id_of grants row'
  IsOwned-Keeps grants row row' k o = record {
    amount_check = cc (k.amount, o.amount_check);
    granted = cc (k.issuer, k.grant_id, o.granted);
    issuer_eq = cc (k.issuer, k.fingerprint, o.issuer_eq);
    grant_id_eq = cc (k.grant_id, k.fingerprint, o.grant_id_eq);
    paid = k.paid;
  }

  -- One row is replaced, and its grant by `g'`.
  replace-Books :
      (db : Db) (id : String) (f : InvocationRecord → InvocationRecord) (row : InvocationRecord)
      (grants' : List GrantRecord) (g g' : GrantRecord)
      → IsSound issuer_of grant_id_of db
      → find_invocation id db.invocations ≡ some row
      → find_grant row.issuer row.grant_id db.grants ≡ some g
      → Keeps row (f row)
      → Regrants db.grants grants' g'
      → Accounts g g' (λ w. w row) (f row)
      → Books issuer_of grant_id_of grants' (update_invocation id f db.invocations)
  replace-Books db id f row grants' g g' sound found e k r a =
      let (ki, kn) = find_grant-key row.issuer row.grant_id db.grants g e in
      write-Books issuer_of grant_id_of db.grants grants' db.invocations
        (update_invocation id f db.invocations) g g' (λ w. w row) (f row) sound (cc (ki, kn, e)) r
        (Rewrites-update id f db.invocations row found) a
        (k.issuer ∙ sym ki ∙ sym a.same_issuer, k.grant_id ∙ sym kn ∙ sym a.same_grant_id)
        (λ i n d.
          let d' : ¬ ((i ≡ row.issuer) × (n ≡ row.grant_id)) =
            λ p. d (p.0 ∙ sym ki ∙ sym a.same_issuer, p.1 ∙ sym kn ∙ sym a.same_grant_id) in
          (weight-other is_held i n row d', weight-other is_spent i n row d'))
        (λ all.
          All-update (IsOwned issuer_of grant_id_of grants') id f db.invocations row all found (
            IsOwned-Keeps grants' row (f row) k
              (All-find (IsOwned issuer_of grant_id_of grants') id db.invocations row all found)))

weight-under :
    (counts : InvocationState → Bool) (i n : String) (row : InvocationRecord)
    → row.issuer ≡ i
    → row.grant_id ≡ n
    → weight counts i n row ≡ (if counts row.state then big_int row.amount_atomic else 0)
weight-under counts i n row p q = ground arith

pub weight-at :
    (counts : InvocationState → Bool) (i n : String) (row : InvocationRecord) (b : Bool)
    → row.issuer ≡ i
    → row.grant_id ≡ n
    → counts row.state ≡ b
    → weight counts i n row ≡ (if b then big_int row.amount_atomic else 0)
weight-at counts i n row b p q e = rw (← e) (weight-under counts i n row p q)

not_spent_of_held : (s : InvocationState) → is_held s ≡ true → is_spent s ≡ false
not_spent_of_held s h = ground arith

-- A write under which row `row'` replaces a held row of grant `g`.
module _ (issuer_of grant_id_of : String → String) (db : Db)
    (sound : IsSound issuer_of grant_id_of db) (id : String)
    (f : InvocationRecord → InvocationRecord) (row : InvocationRecord)
    (found : find_invocation id db.invocations ≡ some row) (holds : is_held row.state ≡ true)
    (g : GrantRecord) (granted : find_grant row.issuer row.grant_id db.grants ≡ some g)
    (own : find_grant g.issuer g.grant_id db.grants ≡ some g)
    (le : big_int row.amount_atomic ≤ big_int g.reserved_atomic) (keeps : Keeps row (f row)) where
  pub release-Books :
      (now : ℕ)
      → is_held (f row).state ≡ false
      → is_spent (f row).state ≡ false
      → Books issuer_of grant_id_of
          (update_grant g.issuer g.grant_id
            (set_amounts (released g row) g.consumed_atomic now)
            db.grants)
          (update_invocation id f db.invocations)
  release-Books now u v =
      let b = sound.balanced row.issuer row.grant_id g granted in
      let (ki, kn) = find_grant-key row.issuer row.grant_id db.grants g granted in
      let pi = keeps.issuer ∙ sym ki in
      let pn = keeps.grant_id ∙ sym kn in
      let value = big_int-to_string (big_int g.reserved_atomic - big_int row.amount_atomic) in
      replace-Books issuer_of grant_id_of db id f row _ g
        (set_amounts (released g row) g.consumed_atomic now g) sound found granted keeps
        (Regrants-update g.issuer g.grant_id (set_amounts (released g row) g.consumed_atomic now)
          db.grants g own refl refl)
        (record {
          same_issuer = refl;
          same_grant_id = refl;
          max_check = b.max_check;
          reserved_check = released-check db.invocations g row b;
          consumed_check = b.consumed_check;
          reserved_moves = omega (
            arith,
            value,
            le,
            weight-at is_held g.issuer g.grant_id row true (sym ki) (sym kn) holds,
            weight-at is_held g.issuer g.grant_id (f row) false pi pn u,
          );
          consumed_moves = omega (
            arith,
            weight-at is_spent g.issuer g.grant_id row false (sym ki) (sym kn)
                (not_spent_of_held row.state holds),
            weight-at is_spent g.issuer g.grant_id (f row) false pi pn v,
          );
          bounded = omega (arith, value, b.bounded);
        })

  pub consume-Books :
      (now : ℕ)
      → is_held (f row).state ≡ false
      → is_spent (f row).state ≡ true
      → Books issuer_of grant_id_of
          (update_grant g.issuer g.grant_id
            (set_amounts (released g row) (consumed g row) now)
            db.grants)
          (update_invocation id f db.invocations)
  consume-Books now u v =
      let b = sound.balanced row.issuer row.grant_id g granted in
      let (ki, kn) = find_grant-key row.issuer row.grant_id db.grants g granted in
      let pi = keeps.issuer ∙ sym ki in
      let pn = keeps.grant_id ∙ sym kn in
      let value = big_int-to_string (big_int g.reserved_atomic - big_int row.amount_atomic) in
      let value' = big_int-to_string (big_int g.consumed_atomic + big_int row.amount_atomic) in
      let same : big_int (f row).amount_atomic ≡ big_int row.amount_atomic =
        ap big_int keeps.amount in
      replace-Books issuer_of grant_id_of db id f row _ g
        (set_amounts (released g row) (consumed g row) now g) sound found granted keeps
        (Regrants-update g.issuer g.grant_id (set_amounts (released g row) (consumed g row) now)
          db.grants g own refl refl)
        (record {
          same_issuer = refl;
          same_grant_id = refl;
          max_check = b.max_check;
          reserved_check = released-check db.invocations g row b;
          consumed_check = consumed-check db.invocations g row b le;
          reserved_moves = omega (
            arith,
            value,
            le,
            weight-at is_held g.issuer g.grant_id row true (sym ki) (sym kn) holds,
            weight-at is_held g.issuer g.grant_id (f row) false pi pn u,
          );
          consumed_moves = omega (
            arith,
            value',
            same,
            weight-at is_spent g.issuer g.grant_id row false (sym ki) (sym kn)
                (not_spent_of_held row.state holds),
            weight-at is_spent g.issuer g.grant_id (f row) true pi pn v,
          );
          bounded = omega (arith, value, value', b.bounded, le);
        })

-- A row that keeps what it counts for.
module _ (issuer_of grant_id_of : String → String) (db : Db)
    (sound : IsSound issuer_of grant_id_of db) (id : String)
    (f : InvocationRecord → InvocationRecord) (row : InvocationRecord)
    (found : find_invocation id db.invocations ≡ some row) (keeps : Keeps row (f row)) where
  pub same-Books :
      is_held (f row).state ≡ is_held row.state
      → is_spent (f row).state ≡ is_spent row.state
      → Books issuer_of grant_id_of db.grants (update_invocation id f db.invocations)
  same-Books u v = elim (Option-cases (find_grant row.issuer row.grant_id db.grants)) [
    | inl missing ↦
        let o =
          All-find (IsOwned issuer_of grant_id_of db.grants) id db.invocations row sound.owned
            found in
        absurd (cc (o.granted, missing))
    | inr (g, granted) ↦
        let b = sound.balanced row.issuer row.grant_id g granted in
        let (ki, kn) = find_grant-key row.issuer row.grant_id db.grants g granted in
        let pi = keeps.issuer ∙ sym ki in
        let pn = keeps.grant_id ∙ sym kn in
        let same : big_int (f row).amount_atomic ≡ big_int row.amount_atomic =
          ap big_int keeps.amount in
        replace-Books issuer_of grant_id_of db id f row db.grants g g sound found granted keeps
          (Regrants-same row.issuer row.grant_id db.grants g granted)
          (record {
            same_issuer = refl;
            same_grant_id = refl;
            max_check = b.max_check;
            reserved_check = b.reserved_check;
            consumed_check = b.consumed_check;
            reserved_moves = cc (
              same,
              weight-at is_held g.issuer g.grant_id row (is_held row.state) (sym ki) (sym kn) refl,
              weight-at is_held g.issuer g.grant_id (f row) (is_held row.state) pi pn u,
            );
            consumed_moves = cc (
              same,
              weight-at is_spent g.issuer g.grant_id row (is_spent row.state) (sym ki) (sym kn)
                  refl,
              weight-at is_spent g.issuer g.grant_id (f row) (is_spent row.state) pi pn v,
            );
            bounded = b.bounded;
          })
  ]
