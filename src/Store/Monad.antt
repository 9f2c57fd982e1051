-- ===== src/Store/Monad.antt =====
-- A transaction body: state and exceptions. What a body that throws has written is lost, since
-- `#transaction` rolls back.
use virtual_haibin.Prelude.{Bool, true, false, ◌≡◌, refl, ap}
use virtual_haibin.Store.{Db, StoreError}

pub data Result (A : Type 0) : Type 0 where
  ok : A → Result A
  thrown : StoreError → Result A

abbrev pub Action : Type 0 → Type 0
Action A = Db → Result (A × Db)

abbrev pub continue : {A B : Type 0} → (A → Action B) → Result (A × Db) → Result (B × Db)
continue f (ok (a, db)) = f a db
continue f (thrown e) = thrown e

infixl 5 ◌>>=◌ ◌>>◌
abbrev pub ◌>>=◌ : {A B : Type 0} → Action A → (A → Action B) → Action B
◌>>=◌ m f db = continue f (m db)

abbrev pub ◌>>◌ : {A B : Type 0} → Action A → Action B → Action B
m >> k = m >>= λ _. k

abbrev pub pure : {A : Type 0} → A → Action A
pure a db = ok (a, db)

abbrev pub throw : {A : Type 0} → StoreError → Action A
throw e db = thrown e

abbrev pub gets : {A : Type 0} → (Db → A) → Action A
gets f db = ok (f db, db)

abbrev pub require : Bool → StoreError → Action (Unit {0})
require true e db = ok (tt, db)
require false e db = thrown e

-- `#transaction`: COMMIT on a result, ROLLBACK and rethrow on an exception. A body is synchronous
-- and starts no transaction, so the two checks on that never fire.
abbrev pub commit_or_rollback : {A : Type 0} → Db → Result (A × Db) → Result A × Db
commit_or_rollback db (ok (a, db')) = (ok a, db')
commit_or_rollback db (thrown e) = (thrown e, db)

unfoldable pub transaction : {A : Type 0} → Action A → Db → Result A × Db
transaction body db = commit_or_rollback db (body db)

module _ {A B : Type 0} (m : Action A) (f : A → Action B) (db : Db) where
  pub bind_ok : (a : A) (db' : Db) → m db ≡ ok (a, db') → (m >>= f) db ≡ f a db'
  bind_ok a db' e = ap (continue f) e

  pub bind_thrown : (e : StoreError) → m db ≡ thrown e → (m >>= f) db ≡ thrown e
  bind_thrown e h = ap (continue f) h

module _ {A : Type 0} (body : Action A) (db : Db) where
  pub transaction_ok :
      (a : A) (db' : Db) → body db ≡ ok (a, db') → transaction body db ≡ (ok a, db')
  unfolding transaction
  transaction_ok a db' e = ap (commit_or_rollback db) e

  pub transaction_thrown :
      (e : StoreError) → body db ≡ thrown e → transaction body db ≡ (thrown e, db)
  unfolding transaction
  transaction_thrown e h = ap (commit_or_rollback db) h

  -- What holds before a transaction and after every body that returns, holds after it.
  pub transaction-keeps :
      (P : Db → Type 0)
      → P db
      → ((a : A) (db' : Db) → body db ≡ ok (a, db') → P db')
      → P (transaction body db).1
  transaction-keeps P p keep = unfold transaction in split (body db) refl
    where
      split : (r : Result (A × Db)) → body db ≡ r → P (commit_or_rollback db r).1
      split (ok (a, db')) e = keep a db' e
      split (thrown e) h = p

-- What holds after a body that returns.
abbrev pub Ends : {A : Type 0} → (Db → Type 0) → Result (A × Db) → Type 0
Ends P (ok (a, db)) = P db
Ends P (thrown e) = Unit

module _ {A B : Type 0} (P Q : Db → Type 0) (f : A → Action B) where
  pub Ends-continue :
      (r : Result (A × Db))
      → Ends P r
      → ((a : A) (db : Db) → P db → Ends Q (f a db))
      → Ends Q (continue f r)
  Ends-continue (ok (a, db)) p next = next a db p
  Ends-continue (thrown e) p next = tt

pub Ends-map :
    {A : Type 0} (P Q : Db → Type 0) (r : Result (A × Db))
    → Ends P r
    → ((db : Db) → P db → Q db)
    → Ends Q r
Ends-map P Q (ok (a, db)) p step = step db p
Ends-map P Q (thrown e) p step = tt

pub Ends-transaction :
    {A : Type 0} (P : Db → Type 0) (body : Action A) (db : Db)
    → P db
    → Ends P (body db)
    → P (transaction body db).1
unfolding transaction
Ends-transaction {A} P body db p h = settle (body db) h
  where
    settle : (r : Result (A × Db)) → Ends P r → P (commit_or_rollback db r).1
    settle (ok (a, db')) q = q
    settle (thrown e) q = p
