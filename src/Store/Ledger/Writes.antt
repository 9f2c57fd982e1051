-- ===== src/Store/Ledger/Writes.antt =====
-- The invariant of the tables is kept by a write that accounts for itself.
use virtual_haibin.Prelude.{
  ℕ, String, Bool, true, Option, none, some, List, [], ◌∷◌, ◌++◌, ◌≡◌, refl, sym, ◌∙◌, arith, All,
  inl, inr, some, subst,
}
use virtual_haibin.Decimal.{atomic_check, big_int}
use virtual_haibin.Store.{InvocationState, InvocationRecord, GrantRecord}
use virtual_haibin.Store.Table.{find_grant}
use virtual_haibin.Store.Table.Rows.{find_grant-key, find_grant-append, find_grant-append_ne, total}
use virtual_haibin.Store.Statements.{is_some}
use virtual_haibin.Store.Ledger.{is_held, is_spent, weight, IsBalanced, IsOwned, Books}
use virtual_haibin.Store.Ledger.Moves.{
  Regrants, Rewrites, Accounts, Under, same_key, IsBalanced-here, IsBalanced-elsewhere,
  weight-other,
}

some_inj : (g h : GrantRecord) → ◌≡◌ {A = Option GrantRecord} (some g) (some h) → g ≡ h
some_inj g h e = cc

zero_check : atomic_check "0" ≡ true
unfolding atomic_check
zero_check = refl

zero_value : big_int "0" ≡ 0
unfolding big_int
zero_value = refl

module _ (issuer_of grant_id_of : String → String) where
  granted-Regrants :
      (grants grants' : List GrantRecord) (g' : GrantRecord) (i n : String)
      → Regrants grants grants' g'
      → is_some (find_grant i n grants) ≡ true
      → is_some (find_grant i n grants') ≡ true
  granted-Regrants grants grants' g' i n r h = elim (same_key i n g'.issuer g'.grant_id) [
    | inl same ↦ rw (same.0, same.1, r.here)
    | inr other ↦ rw (r.elsewhere i n other) h
  ]

  pub IsOwned-Regrants :
      (grants grants' : List GrantRecord) (g' : GrantRecord) (row : InvocationRecord)
      → Regrants grants grants' g'
      → IsOwned issuer_of grant_id_of grants row
      → IsOwned issuer_of grant_id_of grants' row
  IsOwned-Regrants grants grants' g' row r o = record {
    amount_check = o.amount_check;
    granted = granted-Regrants grants grants' g' row.issuer row.grant_id r o.granted;
    issuer_eq = o.issuer_eq;
    grant_id_eq = o.grant_id_eq;
    paid = o.paid;
  }

  pub All-Regrants :
      (grants grants' : List GrantRecord) (g' : GrantRecord) (rows : List InvocationRecord)
      → Regrants grants grants' g'
      → All (IsOwned issuer_of grant_id_of grants) rows
      → All (IsOwned issuer_of grant_id_of grants') rows
  All-Regrants grants grants' g' [] r a = tt
  All-Regrants grants grants' g' (row ∷ rows) r (o, a) =
      (IsOwned-Regrants grants grants' g' row r o, All-Regrants grants grants' g' rows r a)

  pub write-Books :
      (grants grants' : List GrantRecord) (rows rows' : List InvocationRecord) (g g' : GrantRecord)
      (before : (InvocationRecord → ℕ) → ℕ) (row : InvocationRecord)
      → Books issuer_of grant_id_of grants rows
      → find_grant g.issuer g.grant_id grants ≡ some g
      → Regrants grants grants' g'
      → Rewrites rows rows' before row
      → Accounts g g' before row
      → Under g'.issuer g'.grant_id row
      → ((i n : String)
          → ¬ ((i ≡ g'.issuer) × (n ≡ g'.grant_id))
          → (before (weight is_held i n) ≡ 0) × (before (weight is_spent i n) ≡ 0))
      → (All (IsOwned issuer_of grant_id_of grants') rows
          → All (IsOwned issuer_of grant_id_of grants') rows')
      → Books issuer_of grant_id_of grants' rows'
  write-Books grants grants' rows rows' g g' before row b e r w a u others placed = record {
    owned = placed (All-Regrants grants grants' g' rows r b.owned);
    balanced = λ i n g₁ e₁. elim (same_key i n g'.issuer g'.grant_id) [
      | inl (p, q) ↦
          let same : g' ≡ g₁ = some_inj g' g₁ (sym r.here ∙ (rw (p, q) at e₁)) in
          subst (IsBalanced rows') same
            (IsBalanced-here rows rows' g g' before row w a (b.balanced g.issuer g.grant_id g e))
      | inr d ↦
          let e₀ : find_grant i n grants ≡ some g₁ = sym (r.elsewhere i n d) ∙ e₁ in
          let (p, q) = find_grant-key i n grants g₁ e₀ in
          let (h, s) = others i n d in
          IsBalanced-elsewhere rows rows' g₁ before row w (rw (p, q) h) (rw (p, q) s)
            (λ k. d (sym p ∙ k.0 ∙ u.0, sym q ∙ k.1 ∙ u.1)) (b.balanced i n g₁ e₀)
    ];
  }

  -- A grant without invocations balances.
  total-unused :
      (counts : InvocationState → Bool) (i n : String) (grants : List GrantRecord)
      (rows : List InvocationRecord)
      → All (IsOwned issuer_of grant_id_of grants) rows
      → find_grant i n grants ≡ none
      → total (weight counts i n) rows ≡ 0
  total-unused counts i n grants [] a e = refl
  total-unused counts i n grants (row ∷ rows) (o, a) e =
      let other : ¬ ((i ≡ row.issuer) × (n ≡ row.grant_id)) = λ k. cc (k.0, k.1, o.granted, e) in
      omega (arith, weight-other counts i n row other, total-unused counts i n grants rows a e)

  -- A new grant keeps the books: nothing is reserved or consumed under it yet.
  pub new_grant-Books :
      (grants : List GrantRecord) (rows : List InvocationRecord) (g : GrantRecord)
      → Books issuer_of grant_id_of grants rows
      → find_grant g.issuer g.grant_id grants ≡ none
      → atomic_check g.max_total_atomic ≡ true
      → g.reserved_atomic ≡ "0"
      → g.consumed_atomic ≡ "0"
      → Books issuer_of grant_id_of (grants ++ g ∷ []) rows
  new_grant-Books grants rows g b e m z y =
      let at_end : Regrants grants (grants ++ g ∷ []) g = record {
        here = find_grant-append g.issuer g.grant_id grants g e refl refl;
        elsewhere = λ i n d. find_grant-append_ne i n grants g d;
      } in
      record {
        owned = All-Regrants grants (grants ++ g ∷ []) g rows at_end b.owned;
        balanced = λ i n g₁ e₁. elim (same_key i n g.issuer g.grant_id) [
          | inl (p, q) ↦
              let same : g ≡ g₁ = some_inj g g₁ (sym at_end.here ∙ (rw (p, q) at e₁)) in
              subst (IsBalanced rows) same (record {
                max_check = m;
                reserved_check = rw z zero_check;
                consumed_check = rw y zero_check;
                reserved_sum =
                    rw (z, total-unused is_held g.issuer g.grant_id grants rows b.owned e)
                      zero_value;
                consumed_sum =
                    rw (y, total-unused is_spent g.issuer g.grant_id grants rows b.owned e)
                      zero_value;
                bounded = rw (z, y) (omega (arith, zero_value));
              })
          | inr d ↦ b.balanced i n g₁ (sym (at_end.elsewhere i n d) ∙ e₁)
        ];
      }
