-- ===== src/Store/Ledger/Moves.antt =====
-- How a change of one grant and one row keeps the books.
use virtual_haibin.Prelude.{
  ℕ, ◌+◌, ◌≤◌, String, Bool, true, some, List, [], ◌∷◌, ◌++◌, ◌≡◌, refl, sym, ◌∙◌, arith,
  if◌then◌else◌, String-discrete, inl, inr, ◌⊎◌,
}
use virtual_haibin.Decimal.{atomic_check, big_int}
use virtual_haibin.Store.{InvocationState, InvocationRecord, GrantRecord}
use virtual_haibin.Store.Table.{find_invocation, update_invocation, find_grant, update_grant}
use virtual_haibin.Store.Table.Rows.{
  total, total-update, total-append, find_grant-key, find_grant-update_self, find_grant-update_ne,
}
use virtual_haibin.Store.Ledger.{is_held, is_spent, weight, held, spent, IsBalanced}

-- `grants'` has `g'` under its key, and is `grants` elsewhere.
pub record Regrants (grants grants' : List GrantRecord) (g' : GrantRecord) : Type 0 where
  pub here : find_grant g'.issuer g'.grant_id grants' ≡ some g'
  pub elsewhere :
      (i n : String)
      → ¬ ((i ≡ g'.issuer) × (n ≡ g'.grant_id))
      → find_grant i n grants' ≡ find_grant i n grants

-- `rows'` is `rows` with `row` in place of what weighed `before`.
pub record Rewrites (rows rows' : List InvocationRecord) (before : (InvocationRecord → ℕ) → ℕ)
    (row : InvocationRecord) : Type 0 where
  pub sums : (w : InvocationRecord → ℕ) → total w rows' + before w ≡ total w rows + w row

pub Regrants-update :
    (issuer grant_id : String) (f : GrantRecord → GrantRecord) (grants : List GrantRecord)
    (g : GrantRecord)
    → find_grant issuer grant_id grants ≡ some g
    → (f g).issuer ≡ g.issuer
    → (f g).grant_id ≡ g.grant_id
    → Regrants grants (update_grant issuer grant_id f grants) (f g)
Regrants-update issuer grant_id f grants g e k l =
    let (ki, kn) = find_grant-key issuer grant_id grants g e in
    record {
      here = cc (k, ki, l, kn, find_grant-update_self issuer grant_id f grants g e k l);
      elsewhere = λ i n d.
          find_grant-update_ne issuer grant_id i n f grants g e k l
            (λ p. d (p.0 ∙ sym ki ∙ sym k, p.1 ∙ sym kn ∙ sym l));
    }

pub Regrants-same :
    (issuer grant_id : String) (grants : List GrantRecord) (g : GrantRecord)
    → find_grant issuer grant_id grants ≡ some g
    → Regrants grants grants g
Regrants-same issuer grant_id grants g e =
    let (ki, kn) = find_grant-key issuer grant_id grants g e in
    record { here = cc (ki, kn, e); elsewhere = λ i n d. refl }

pub Rewrites-update :
    (id : String) (f : InvocationRecord → InvocationRecord) (rows : List InvocationRecord)
    (row : InvocationRecord)
    → find_invocation id rows ≡ some row
    → Rewrites rows (update_invocation id f rows) (λ w. w row) (f row)
Rewrites-update id f rows row e = record { sums = λ w. total-update w id f rows row e }

pub Rewrites-append :
    (rows : List InvocationRecord) (row : InvocationRecord)
    → Rewrites rows (rows ++ row ∷ []) (λ w. 0) row
Rewrites-append rows row = record { sums = λ w. omega (arith, total-append w rows row) }

-- A row weighs nothing under another grant.
pub weight-other :
    (counts : InvocationState → Bool) (i n : String) (row : InvocationRecord)
    → ¬ ((i ≡ row.issuer) × (n ≡ row.grant_id))
    → weight counts i n row ≡ 0
weight-other counts i n row d = ground arith

pub weight-own :
    (counts : InvocationState → Bool) (row : InvocationRecord)
    → weight counts row.issuer row.grant_id row
      ≡ (if counts row.state then big_int row.amount_atomic else 0)
weight-own counts row = ground arith

-- The key of a grant under which a row lies.
abbrev pub Under : String → String → InvocationRecord → Type 0
Under issuer grant_id row = (row.issuer ≡ issuer) × (row.grant_id ≡ grant_id)

-- What a write must establish: the new grant's columns account for the new row.
pub record Accounts (g g' : GrantRecord) (before : (InvocationRecord → ℕ) → ℕ)
    (row : InvocationRecord) : Type 0 where
  pub same_issuer : g'.issuer ≡ g.issuer
  pub same_grant_id : g'.grant_id ≡ g.grant_id
  pub max_check : atomic_check g'.max_total_atomic ≡ true
  pub reserved_check : atomic_check g'.reserved_atomic ≡ true
  pub consumed_check : atomic_check g'.consumed_atomic ≡ true
  pub reserved_moves :
      big_int g'.reserved_atomic + before (weight is_held g'.issuer g'.grant_id)
      ≡ big_int g.reserved_atomic + weight is_held g'.issuer g'.grant_id row
  pub consumed_moves :
      big_int g'.consumed_atomic + before (weight is_spent g'.issuer g'.grant_id)
      ≡ big_int g.consumed_atomic + weight is_spent g'.issuer g'.grant_id row
  pub bounded :
      big_int g'.reserved_atomic + big_int g'.consumed_atomic ≤ big_int g'.max_total_atomic

pub same_key : (i n j m : String) → ((i ≡ j) × (n ≡ m)) ⊎ (¬ ((i ≡ j) × (n ≡ m)))
same_key i n j m = elim (String-discrete i j) [
  | yes p ↦ elim (String-discrete n m) [ yes q ↦ inl (p, q) | no q ↦ inr (λ e. q e.1) ]
  | no p ↦ inr (λ e. p e.0)
]

-- The balance of the grant that is written.
pub IsBalanced-here :
    (rows rows' : List InvocationRecord) (g g' : GrantRecord) (before : (InvocationRecord → ℕ) → ℕ)
    (row : InvocationRecord)
    → Rewrites rows rows' before row
    → Accounts g g' before row
    → IsBalanced rows g
    → IsBalanced rows' g'
IsBalanced-here rows rows' g g' before row r a b =
    let held_moves = r.sums (weight is_held g'.issuer g'.grant_id) in
    let spent_moves = r.sums (weight is_spent g'.issuer g'.grant_id) in
    let held_was : big_int g.reserved_atomic ≡ held g'.issuer g'.grant_id rows =
      rw (a.same_issuer, a.same_grant_id) b.reserved_sum in
    let spent_was : big_int g.consumed_atomic ≡ spent g'.issuer g'.grant_id rows =
      rw (a.same_issuer, a.same_grant_id) b.consumed_sum in
    record {
      max_check = a.max_check;
      reserved_check = a.reserved_check;
      consumed_check = a.consumed_check;
      reserved_sum = omega (arith, held_moves, held_was, a.reserved_moves);
      consumed_sum = omega (arith, spent_moves, spent_was, a.consumed_moves);
      bounded = a.bounded;
    }

-- The balance of a grant that is not.
pub IsBalanced-elsewhere :
    (rows rows' : List InvocationRecord) (g : GrantRecord) (before : (InvocationRecord → ℕ) → ℕ)
    (row : InvocationRecord)
    → Rewrites rows rows' before row
    → before (weight is_held g.issuer g.grant_id) ≡ 0
    → before (weight is_spent g.issuer g.grant_id) ≡ 0
    → ¬ ((g.issuer ≡ row.issuer) × (g.grant_id ≡ row.grant_id))
    → IsBalanced rows g
    → IsBalanced rows' g
IsBalanced-elsewhere rows rows' g before row r h s d b =
    let held_moves = r.sums (weight is_held g.issuer g.grant_id) in
    let spent_moves = r.sums (weight is_spent g.issuer g.grant_id) in
    let held_new = weight-other is_held g.issuer g.grant_id row d in
    let spent_new = weight-other is_spent g.issuer g.grant_id row d in
    record {
      max_check = b.max_check;
      reserved_check = b.reserved_check;
      consumed_check = b.consumed_check;
      reserved_sum = omega (arith, held_moves, held_new, h, b.reserved_sum);
      consumed_sum = omega (arith, spent_moves, spent_new, s, b.consumed_sum);
      bounded = b.bounded;
    }
