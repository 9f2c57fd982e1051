-- ===== src/Authority/Monad.antt =====
-- What the service does between two requests of its caller. The state is the world: the database,
-- and the payments that the provider transmitted. Each `await` of the store is one access: other
-- calls of the store may come first, by other requests of this process or by other processes, and
-- the process may have died.
use virtual_haibin.Prelude.{ℕ, suc, String, Bool, List, [], ◌∷◌, ◌++◌, if◌then◌else◌}
use virtual_haibin.Payments.{PaymentAttempt}
use virtual_haibin.Store.{Db}
use virtual_haibin.Store.Monad.{Result, ok, thrown}
use virtual_haibin.Store.Ledger.History.{Call, perform_all}
use virtual_haibin.Authority.{AuthorityError, store_failed}

-- A payment that was transmitted for an invocation, with the tables as the process last left them
-- then.
pub record Sent : Type 0 where
  pub invocation_id : String
  pub attempt : PaymentAttempt
  pub db : Db

pub record World : Type 0 where
  pub db : Db
  pub step : ℕ
  pub sent : List Sent

-- What comes before the n-th access, what the clock says then, and whether the process still runs.
pub record Schedule : Type 0 where
  pub others : ℕ → List Call
  pub clock : ℕ → ℕ
  pub alive : ℕ → Bool

pub data Reply (A : Type 0) : Type 0 where
  done : A → Reply A
  failed : AuthorityError → Reply A
  crashed : Reply A

abbrev pub Service : Type 0 → Type 0
Service A = World → Reply A × World

abbrev pub continue : {A B : Type 0} → Reply A → (A → Service B) → Service B
continue (done a) f w = f a w
continue (failed e) f w = (failed e, w)
continue crashed f w = (crashed, w)

infixl 5 ◌>>=◌ ◌>>◌
unfoldable pub ◌>>=◌ : {A B : Type 0} → Service A → (A → Service B) → Service B
◌>>=◌ m f w = let (r, w') = m w in continue r f w'

abbrev pub ◌>>◌ : {A B : Type 0} → Service A → Service B → Service B
m >> k = m >>= λ _. k

unfoldable pub pure : {A : Type 0} → A → Service A
pure a w = (done a, w)

unfoldable pub raise : {A : Type 0} → AuthorityError → Service A
raise e w = (failed e, w)

-- `try … catch`: what was written stays written, and a process that died catches nothing.
abbrev pub handle :
    {A B : Type 0} → Reply A → (A → Service B) → (AuthorityError → Service B) → Service B
handle (done a) f g w = f a w
handle (failed e) f g w = g e w
handle crashed f g w = (crashed, w)

unfoldable pub attempt_catch :
    {A B : Type 0} → Service A → (A → Service B) → (AuthorityError → Service B) → Service B
attempt_catch m f g w = let (r, w') = m w in handle r f g w'

abbrev pub reply_of : {A : Type 0} → Result A → Reply A
reply_of (ok a) = done a
reply_of (thrown e) = failed (store_failed e)

unfoldable pub access : {A : Type 0} → Schedule → (ℕ → Db → Result A × Db) → Service A
access schedule method w =
    if schedule.alive w.step
    then (let (r, db) =
          method (schedule.clock w.step) (perform_all (schedule.others w.step) w.db) in
        (reply_of r, record w { db = db; step = suc w.step }))
    else (crashed, w)

-- A query of the store.
abbrev pub query : {A : Type 0} → Schedule → (Db → A) → Service A
query schedule f = access schedule (λ now db. (ok (f db), db))

-- The clock of the service itself.
unfoldable pub read_clock : Schedule → Service ℕ
read_clock schedule w = (done (schedule.clock w.step), record w { step = suc w.step })

unfoldable pub transmit : Schedule → String → PaymentAttempt → Service (Unit {0})
transmit schedule id attempt w =
    if schedule.alive w.step
    then (
      done tt,
      record w {
        step = suc w.step;
        sent = w.sent ++ record { invocation_id = id; attempt = attempt; db = w.db } ∷ [];
      },
    )
    else (crashed, w)
