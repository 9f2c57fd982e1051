-- ===== src/Store/Table/Rows.antt =====
-- Laws of the lookups and the updates of a table.
use virtual_haibin.Prelude.{
  ℕ, ◌+◌, ◌≤◌, String, none, some, List, [], ◌∷◌, ◌++◌, ◌≡◌, ◌≢◌, refl, arith, All, Bool-cases, inl,
  inr, ◌==◌,
}
use virtual_haibin.Store.{InvocationRecord, GrantRecord}
use virtual_haibin.Store.Table.{find_invocation, update_invocation, find_grant, update_grant}

-- The sum of a weight over the rows.
abbrev pub total : (InvocationRecord → ℕ) → List InvocationRecord → ℕ
total w [] = 0
total w (row ∷ rows) = w row + total w rows

pub find_invocation-key :
    (id : String) (rows : List InvocationRecord) (row : InvocationRecord)
    → find_invocation id rows ≡ some row
    → row.invocation_id ≡ id
unfolding find_invocation
find_invocation-key id [] row h = cc
find_invocation-key id (r ∷ rows) row h = ground (arith, find_invocation-key id rows row)

pub find_invocation-update_self :
    (id : String) (f : InvocationRecord → InvocationRecord) (rows : List InvocationRecord)
    (row : InvocationRecord)
    → find_invocation id rows ≡ some row
    → (f row).invocation_id ≡ row.invocation_id
    → find_invocation id (update_invocation id f rows) ≡ some (f row)
unfolding find_invocation update_invocation
find_invocation-update_self id f [] row h k = cc
find_invocation-update_self id f (r ∷ rows) row h k =
    ground (arith, find_invocation-update_self id f rows row)

pub find_invocation-update_ne :
    (id j : String) (f : InvocationRecord → InvocationRecord) (rows : List InvocationRecord)
    (row : InvocationRecord)
    → find_invocation id rows ≡ some row
    → (f row).invocation_id ≡ row.invocation_id
    → j ≢ id
    → find_invocation j (update_invocation id f rows) ≡ find_invocation j rows
unfolding find_invocation update_invocation
find_invocation-update_ne id j f [] row h k n = refl
find_invocation-update_ne id j f (r ∷ rows) row h k n =
    ground (arith, find_invocation-update_ne id j f rows row)

pub total-update :
    (w : InvocationRecord → ℕ) (id : String) (f : InvocationRecord → InvocationRecord)
    (rows : List InvocationRecord) (row : InvocationRecord)
    → find_invocation id rows ≡ some row
    → total w (update_invocation id f rows) + w row ≡ total w rows + w (f row)
unfolding find_invocation update_invocation
total-update w id f [] row h = cc
total-update w id f (r ∷ rows) row h = ground (arith, total-update w id f rows row)

pub total-append :
    (w : InvocationRecord → ℕ) (rows : List InvocationRecord) (row : InvocationRecord)
    → total w (rows ++ row ∷ []) ≡ total w rows + w row
total-append w [] row = omega arith
total-append w (r ∷ rows) row = omega (arith, total-append w rows row)

pub le-total :
    (w : InvocationRecord → ℕ) (id : String) (rows : List InvocationRecord) (row : InvocationRecord)
    → find_invocation id rows ≡ some row
    → w row ≤ total w rows
unfolding find_invocation
le-total w id [] row h = cc
le-total w id (r ∷ rows) row h = ground (arith, le-total w id rows row)

pub find_invocation-append :
    (id : String) (rows : List InvocationRecord) (row : InvocationRecord)
    → find_invocation id rows ≡ none
    → row.invocation_id ≡ id
    → find_invocation id (rows ++ row ∷ []) ≡ some row
unfolding find_invocation
find_invocation-append id [] row h k = ground arith
find_invocation-append id (r ∷ rows) row h k = ground (arith, find_invocation-append id rows row)

pub find_invocation-append_ne :
    (j : String) (rows : List InvocationRecord) (row : InvocationRecord)
    → row.invocation_id ≢ j
    → find_invocation j (rows ++ row ∷ []) ≡ find_invocation j rows
unfolding find_invocation
find_invocation-append_ne j [] row k = ground arith
find_invocation-append_ne j (r ∷ rows) row k = ground (arith, find_invocation-append_ne j rows row)

-- What holds of every row.
module _ (P : InvocationRecord → Type 0) where
  pub All-find :
      (id : String) (rows : List InvocationRecord) (row : InvocationRecord)
      → All P rows
      → find_invocation id rows ≡ some row
      → P row
  unfolding find_invocation
  All-find id [] row a h = cc
  All-find id (r ∷ rows) row (p, a) h = elim (Bool-cases (r.invocation_id == id)) [
    | inl same ↦ let e : r ≡ row = ground arith in rw (← e) p
    | inr other ↦ All-find id rows row a (rw (other, find_invocation) at h)
  ]

  pub All-update :
      (id : String) (f : InvocationRecord → InvocationRecord) (rows : List InvocationRecord)
      (row : InvocationRecord)
      → All P rows
      → find_invocation id rows ≡ some row
      → P (f row)
      → All P (update_invocation id f rows)
  unfolding find_invocation update_invocation
  All-update id f [] row a h q = cc
  All-update id f (r ∷ rows) row (p, a) h q = elim (Bool-cases (r.invocation_id == id)) [
    | inl same ↦ let e : r ≡ row = ground arith in rw same (rw e q, a)
    | inr other ↦ rw other (p, All-update id f rows row a (rw (other, find_invocation) at h) q)
  ]

  pub All-append :
      (rows : List InvocationRecord) (row : InvocationRecord)
      → All P rows
      → P row
      → All P (rows ++ row ∷ [])
  All-append [] row a q = (q, tt)
  All-append (r ∷ rows) row (p, a) q = (p, All-append rows row a q)

pub find_grant-key :
    (issuer grant_id : String) (rows : List GrantRecord) (g : GrantRecord)
    → find_grant issuer grant_id rows ≡ some g
    → (g.issuer ≡ issuer) × (g.grant_id ≡ grant_id)
unfolding find_grant
find_grant-key issuer grant_id [] g h = cc
find_grant-key issuer grant_id (r ∷ rows) g h =
    ground (arith, find_grant-key issuer grant_id rows g)

pub find_grant-update_self :
    (issuer grant_id : String) (f : GrantRecord → GrantRecord) (rows : List GrantRecord)
    (g : GrantRecord)
    → find_grant issuer grant_id rows ≡ some g
    → (f g).issuer ≡ g.issuer
    → (f g).grant_id ≡ g.grant_id
    → find_grant issuer grant_id (update_grant issuer grant_id f rows) ≡ some (f g)
unfolding find_grant update_grant
find_grant-update_self issuer grant_id f [] g h k l = cc
find_grant-update_self issuer grant_id f (r ∷ rows) g h k l =
    ground (arith, find_grant-update_self issuer grant_id f rows g)

pub find_grant-update_ne :
    (issuer grant_id i n : String) (f : GrantRecord → GrantRecord) (rows : List GrantRecord)
    (g : GrantRecord)
    → find_grant issuer grant_id rows ≡ some g
    → (f g).issuer ≡ g.issuer
    → (f g).grant_id ≡ g.grant_id
    → ¬ ((i ≡ issuer) × (n ≡ grant_id))
    → find_grant i n (update_grant issuer grant_id f rows) ≡ find_grant i n rows
unfolding find_grant update_grant
find_grant-update_ne issuer grant_id i n f [] g h k l d = refl
find_grant-update_ne issuer grant_id i n f (r ∷ rows) g h k l d =
    ground (arith, find_grant-update_ne issuer grant_id i n f rows g)

pub find_grant-append :
    (issuer grant_id : String) (rows : List GrantRecord) (g : GrantRecord)
    → find_grant issuer grant_id rows ≡ none
    → g.issuer ≡ issuer
    → g.grant_id ≡ grant_id
    → find_grant issuer grant_id (rows ++ g ∷ []) ≡ some g
unfolding find_grant
find_grant-append issuer grant_id [] g h k l = ground arith
find_grant-append issuer grant_id (r ∷ rows) g h k l =
    ground (arith, find_grant-append issuer grant_id rows g)

pub find_grant-append_ne :
    (i n : String) (rows : List GrantRecord) (g : GrantRecord)
    → ¬ ((i ≡ g.issuer) × (n ≡ g.grant_id))
    → find_grant i n (rows ++ g ∷ []) ≡ find_grant i n rows
unfolding find_grant
find_grant-append_ne i n [] g d = ground arith
find_grant-append_ne i n (r ∷ rows) g d = ground (arith, find_grant-append_ne i n rows g)
