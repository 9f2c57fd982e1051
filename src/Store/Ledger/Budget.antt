-- ===== src/Store/Ledger/Budget.antt =====
-- A decision against the budget keeps the tables sound.
use virtual_haibin.Prelude.{
  ℕ, ◌+◌, ◌≤◌, String, true, false, Option, none, some, List, [], ◌∷◌, ◌++◌, ◌≡◌, refl, sym, ◌∙◌,
  arith, inl, inr, Bool-cases, Option-cases, All, ap,
}
use virtual_haibin.Decimal.{big_int, to_string}
use virtual_haibin.Decimal.RoundTrip.{big_int-to_string, to_string-passes}
use virtual_haibin.Decimal.Columns.{big_int-lt}
use virtual_haibin.Store.{
  InvocationState, InvocationRecord, GrantRecord, Db, ReserveInput, ReserveResult, was_reserved,
  beyond_total, reserved, denied,
}
use virtual_haibin.Store.Monad.{Result, Action, thrown, ◌>>=◌, ◌>>◌, pure, Ends, Ends-continue}
use virtual_haibin.Store.Table.{find_invocation, update_invocation, find_grant, update_grant}
use virtual_haibin.Store.Table.Rows.{find_grant-key}
use virtual_haibin.Store.Statements.{require_invocation, set_amounts}
use virtual_haibin.Store.Operations.{write_decision, write_denial, write_reservation, is_beyond}
use virtual_haibin.Store.Ledger.{is_held, is_spent, IsSound, IsOwned}
use virtual_haibin.Store.Ledger.Moves.{Regrants-same, Regrants-update}
use virtual_haibin.Store.Ledger.Writes.{write-Books, All-Regrants}
use virtual_haibin.Store.Ledger.Settling.{update_grant_amounts-eval, set_amounts-check}
use virtual_haibin.Store.Ledger.Sound.{weight-at}
use virtual_haibin.Store.Ledger.Effects.{
  RowEffect, unchanged, moves, opens, KeepsGrants-refl, KeepsGrants-amounts,
}
use virtual_haibin.Store.Ledger.Methods.{Good}
use virtual_haibin.Store.Ledger.Reserving.{
  Replaces, IsCoherent, Decides, Decided, write_decision-Decided,
}

-- The effect on the rows does not depend on the grants.
pub relabel :
    (db mid db' : Db) → mid.invocations ≡ db.invocations → RowEffect mid db' → RowEffect db db'
relabel db mid db' e (unchanged h) = unchanged (h ∙ e)
relabel db mid db' e (moves id row f found edge h) =
    moves id row f (rw (← e) found) edge (h ∙ ap (update_invocation id f) e)
relabel db mid db' e (opens row absent state h) =
    opens row (rw (← e) absent) state (h ∙ ap (λ rows. rows ++ row ∷ []) e)

require_invocation-Ends :
    (P : Db → Type 0) (id : String) (db : Db) → P db → Ends P (require_invocation id db)
unfolding require_invocation
require_invocation-Ends P id db p = elim (Option-cases (find_invocation id db.invocations)) [
  | inl missing ↦ rw (missing, require_invocation) tt
  | inr (row, found) ↦ rw (found, require_invocation) p
]

module _ (issuer_of grant_id_of : String → String) where
  -- `write_decision` as a step of a body.
  decision-Ends :
      (input : ReserveInput) (state : InvocationState) (db : Db) (r : Result (Unit {0} × Db))
      → Decided issuer_of grant_id_of input state db r
      → Ends (λ db'. Decides issuer_of grant_id_of input state db db') r
  decision-Ends input state db r (inl (e, h)) = rw h tt
  decision-Ends input state db r (inr (db', h, d)) = rw h d

  module _ (input : ReserveInput) (coherent : IsCoherent issuer_of grant_id_of input)
      (old : Option InvocationRecord) (now : ℕ) (db : Db) (sound : IsSound issuer_of grant_id_of db)
      (replaces : Replaces input old db) (g : GrantRecord)
      (granted : find_grant input.grant.issuer input.grant.grant_id db.grants ≡ some g) where
    pub denied-Good :
        (db' : Db)
        → Decides issuer_of grant_id_of input denied db db'
        → Good issuer_of grant_id_of db db'
    denied-Good db' d =
        let (ki, kn) = find_grant-key input.grant.issuer input.grant.grant_id db.grants g granted in
        let b = sound.balanced input.grant.issuer input.grant.grant_id g granted in
        let pi = d.issuer ∙ sym ki in
        let pn = d.grant_id ∙ sym kn in
        let (h₀, s₀) = d.quiet g.issuer g.grant_id in
        (
          rw d.grants (
              write-Books issuer_of grant_id_of db.grants db.grants db.invocations db'.invocations g
                g d.before d.row sound (cc (ki, kn, granted))
                (Regrants-same input.grant.issuer input.grant.grant_id db.grants g granted)
                d.rewrites
                (record {
                  same_issuer = refl;
                  same_grant_id = refl;
                  max_check = b.max_check;
                  reserved_check = b.reserved_check;
                  consumed_check = b.consumed_check;
                  reserved_moves = omega (
                    arith,
                    h₀,
                    weight-at is_held g.issuer g.grant_id d.row false pi pn (ap is_held d.decision),
                  );
                  consumed_moves = omega (
                    arith,
                    s₀,
                    weight-at is_spent g.issuer g.grant_id d.row false pi pn
                        (ap is_spent d.decision),
                  );
                  bounded = b.bounded;
                })
                (pi, pn) (λ i n k. d.quiet i n) d.owned),
          record { rows = d.effect; grants = rw d.grants (KeepsGrants-refl db.grants) },
        )

    -- The reserved total that an allowed reservation writes.
    abbrev raised : String
    raised = to_string (big_int g.reserved_atomic + big_int input.amount_atomic)

    abbrev raised_db : Db
    raised_db = record db {
      grants =
          update_grant g.issuer g.grant_id (set_amounts raised g.consumed_atomic now) db.grants;
    }

    pub reserved-Good :
        (db' : Db)
        → big_int g.reserved_atomic + big_int input.amount_atomic + big_int g.consumed_atomic
          ≤ big_int g.max_total_atomic
        → Decides issuer_of grant_id_of input reserved raised_db db'
        → Good issuer_of grant_id_of db db'
    reserved-Good db' fits d =
        let (ki, kn) = find_grant-key input.grant.issuer input.grant.grant_id db.grants g granted in
        let b = sound.balanced input.grant.issuer input.grant.grant_id g granted in
        let own : find_grant g.issuer g.grant_id db.grants ≡ some g = cc (ki, kn, granted) in
        let pi = d.issuer ∙ sym ki in
        let pn = d.grant_id ∙ sym kn in
        let (h₀, s₀) = d.quiet g.issuer g.grant_id in
        let value = big_int-to_string (big_int g.reserved_atomic + big_int input.amount_atomic) in
        let same : big_int d.row.amount_atomic ≡ big_int input.amount_atomic =
          ap big_int d.amount in
        (
          rw d.grants (
              write-Books issuer_of grant_id_of db.grants raised_db.grants db.invocations
                db'.invocations g (set_amounts raised g.consumed_atomic now g) d.before d.row sound
                own
                (Regrants-update g.issuer g.grant_id (set_amounts raised g.consumed_atomic now)
                  db.grants g own refl refl)
                d.rewrites
                (record {
                  same_issuer = refl;
                  same_grant_id = refl;
                  max_check = b.max_check;
                  reserved_check =
                      to_string-passes _ (omega (arith, big_int-lt g.max_total_atomic b.max_check));
                  consumed_check = b.consumed_check;
                  reserved_moves = omega (
                    arith,
                    value,
                    same,
                    h₀,
                    weight-at is_held g.issuer g.grant_id d.row true pi pn (ap is_held d.decision),
                  );
                  consumed_moves = omega (
                    arith,
                    s₀,
                    weight-at is_spent g.issuer g.grant_id d.row false pi pn
                        (ap is_spent d.decision),
                  );
                  bounded = omega (arith, value);
                })
                (pi, pn) (λ i n k. d.quiet i n) d.owned),
          record {
            rows = relabel db raised_db db' refl d.effect;
            grants = rw d.grants (KeepsGrants-amounts _ _ now db.grants g own);
          },
        )

    pub denial-Ends :
        (codes : List String)
        → Ends (Good issuer_of grant_id_of db) (write_denial input old codes now db)
    denial-Ends codes =
        unfold write_denial in
        Ends-continue (Decides issuer_of grant_id_of input denied db)
          (Good issuer_of grant_id_of db) _ (write_decision input old denied codes now db)
          (decision-Ends input denied db _ (
            write_decision-Decided issuer_of grant_id_of input coherent denied codes now (inr refl)
              db old replaces sound.owned))
          (λ _ db' d.
            Ends-continue (Good issuer_of grant_id_of db) (Good issuer_of grant_id_of db) _
              (require_invocation input.invocation_id db')
              (require_invocation-Ends (Good issuer_of grant_id_of db) input.invocation_id db'
                (denied-Good db' d))
              (λ row db'' good. good))

    -- What is left of a reservation once its amount is written.
    abbrev finish : Action ReserveResult
    finish = do
      write_decision input old reserved [] now
      row ← require_invocation input.invocation_id
      pure (was_reserved row)

    finish-Ends :
        big_int g.reserved_atomic + big_int input.amount_atomic + big_int g.consumed_atomic
          ≤ big_int g.max_total_atomic
        → All (IsOwned issuer_of grant_id_of raised_db.grants) db.invocations
        → Ends (Good issuer_of grant_id_of db) (finish raised_db)
    finish-Ends fits owned =
        Ends-continue (Decides issuer_of grant_id_of input reserved raised_db)
          (Good issuer_of grant_id_of db) _ (write_decision input old reserved [] now raised_db)
          (decision-Ends input reserved raised_db _ (
            write_decision-Decided issuer_of grant_id_of input coherent reserved [] now (inl refl)
              raised_db old (same_rows old replaces) owned))
          (λ _ db' d.
            Ends-continue (Good issuer_of grant_id_of db) (Good issuer_of grant_id_of db) _
              (require_invocation input.invocation_id db')
              (require_invocation-Ends (Good issuer_of grant_id_of db) input.invocation_id db'
                (reserved-Good db' fits d))
              (λ row db'' good. good))
      where
        same_rows : (o : Option InvocationRecord) → Replaces input o db → Replaces input o raised_db
        same_rows none h = h
        same_rows (some row) h = h

    pub reservation-Ends :
        Ends (Good issuer_of grant_id_of db) (write_reservation input old g now db)
    reservation-Ends = elim (Bool-cases (is_beyond input g)) [
      | inl beyond ↦
          let stops : write_reservation input old g now db
              ≡ thrown (beyond_total input.grant.grant_id) =
            unfold write_reservation in ground (arith, beyond) in
          rw stops tt
      | inr within ↦
          let (ki, kn) =
            find_grant-key input.grant.issuer input.grant.grant_id db.grants g granted in
          let b = sound.balanced input.grant.issuer input.grant.grant_id g granted in
          let own : find_grant g.issuer g.grant_id db.grants ≡ some g = cc (ki, kn, granted) in
          let fits : big_int g.reserved_atomic
                + big_int input.amount_atomic
                + big_int g.consumed_atomic
              ≤ big_int g.max_total_atomic =
            ground (arith, within) in
          let goes : write_reservation input old g now db ≡ finish raised_db =
            unfold write_reservation in
            ground (
              arith,
              within,
              update_grant_amounts-eval raised g.consumed_atomic now g.issuer g.grant_id db g own (
                  set_amounts-check raised g.consumed_atomic now db.invocations g b
                    (to_string-passes _
                      (omega (arith, fits, big_int-lt g.max_total_atomic b.max_check)))
                    b.consumed_check),
            ) in
          rw goes (
            finish-Ends fits (
              All-Regrants issuer_of grant_id_of db.grants raised_db.grants
                (set_amounts raised g.consumed_atomic now g) db.invocations
                (Regrants-update g.issuer g.grant_id (set_amounts raised g.consumed_atomic now)
                  db.grants g own refl refl)
                sound.owned))
    ]
