-- ===== src/Authority/Keeps.antt =====
-- What a service method may do to the tables: at every point of any schedule whose calls are
-- coherent, the tables stay sound and move as the store's methods move them.
pub mod Steps
pub mod Payment
pub mod Requests
pub mod Reconciling
pub mod Budget
use virtual_haibin.Prelude.{
  ℕ, String, Bool, true, false, ◌≡◌, refl, inl, inr, Bool-cases, arith, ap,
}
use virtual_haibin.Store.{Db}
use virtual_haibin.Store.Monad.{Result, ok}
use virtual_haibin.Store.Ledger.{IsSound}
use virtual_haibin.Store.Ledger.Methods.{Good}
use virtual_haibin.Store.Ledger.Recovering.{done as run_done, step, Run-trans, GoodRun}
use virtual_haibin.Store.Ledger.History.{AreCoherent, perform_all-GoodRun, perform_all}
use virtual_haibin.Payments.{PaymentAttempt}
use virtual_haibin.Authority.{AuthorityError}
use virtual_haibin.Authority.Monad.{
  World, Schedule, Reply, done, failed, crashed, Service, ◌>>=◌, pure, raise, attempt_catch, access,
  read_clock, transmit, continue, handle, reply_of,
}

module _ (issuer_of grant_id_of : String → String) where
  pub record Keeps {A : Type 0} (m : Service A) : Type 0 where
    pub run :
        (w : World)
        → IsSound issuer_of grant_id_of w.db
        → GoodRun issuer_of grant_id_of w.db (m w).1.db

  pub Keeps-pure : {A : Type 0} (a : A) → Keeps (pure a)
  unfolding pure
  Keeps-pure a = record { run = λ w s. (s, run_done) }

  pub Keeps-raise : {A : Type 0} (e : AuthorityError) → Keeps {A = A} (raise e)
  unfolding raise
  Keeps-raise e = record { run = λ w s. (s, run_done) }

  pub Keeps-bind :
      {A B : Type 0} (m : Service A) (f : A → Service B)
      → Keeps m
      → ((a : A) → Keeps (f a))
      → Keeps (m >>= f)
  unfolding ◌>>=◌
  Keeps-bind {A} {B} m f km kf = record { run = λ w s. next w (m w).0 (m w).1 (km.run w s) }
    where
      next :
          (w : World) (r : Reply A) (w' : World)
          → GoodRun issuer_of grant_id_of w.db w'.db
          → GoodRun issuer_of grant_id_of w.db (continue r f w').1.db
      next w (done a) w' g = let h = (kf a).run w' g.0 in (h.0, Run-trans g.1 h.1)
      next w (failed e) w' g = g
      next w crashed w' g = g

  pub Keeps-catch :
      {A B : Type 0} (m : Service A) (f : A → Service B) (g : AuthorityError → Service B)
      → Keeps m
      → ((a : A) → Keeps (f a))
      → ((e : AuthorityError) → Keeps (g e))
      → Keeps (attempt_catch m f g)
  unfolding attempt_catch
  Keeps-catch {A} {B} m f g km kf kg = record { run = λ w s. next w (m w).0 (m w).1 (km.run w s) }
    where
      next :
          (w : World) (r : Reply A) (w' : World)
          → GoodRun issuer_of grant_id_of w.db w'.db
          → GoodRun issuer_of grant_id_of w.db (handle r f g w').1.db
      next w (done a) w' h = let k = (kf a).run w' h.0 in (k.0, Run-trans h.1 k.1)
      next w (failed e) w' h = let k = (kg e).run w' h.0 in (k.0, Run-trans h.1 k.1)
      next w crashed w' h = h

  module _ (schedule : Schedule)
      (coherent : (n : ℕ) → AreCoherent issuer_of grant_id_of (schedule.others n)) where
    pub Keeps-access :
        {A : Type 0} (method : ℕ → Db → Result A × Db)
        → ((now : ℕ) (db : Db)
            → IsSound issuer_of grant_id_of db
            → GoodRun issuer_of grant_id_of db (method now db).1)
        → Keeps (access schedule method)
    unfolding access
    Keeps-access method good = record {
      run = λ w s.
          let before =
            perform_all-GoodRun issuer_of grant_id_of (schedule.others w.step) w.db
              (coherent w.step) s in
          let after =
            good (schedule.clock w.step) (perform_all (schedule.others w.step) w.db) before.0 in
          elim (Bool-cases (schedule.alive w.step)) [
            | inl alive ↦ rw alive (after.0, Run-trans before.1 after.1)
            | inr dead ↦ rw dead (s, run_done)
          ];
    }

    -- A method of one transaction.
    pub Keeps-method :
        {A : Type 0} (method : ℕ → Db → Result A × Db)
        → ((now : ℕ) (db : Db)
            → IsSound issuer_of grant_id_of db
            → Good issuer_of grant_id_of db (method now db).1)
        → Keeps (access schedule method)
    Keeps-method method good =
        Keeps-access method (λ now db s. let g = good now db s in (g.0, step run_done g.1))

    pub Keeps-query :
        {A : Type 0} (f : Db → A) → Keeps (access schedule (λ now db. (ok (f db), db)))
    Keeps-query f = Keeps-access (λ now db. (ok (f db), db)) (λ now db s. (s, run_done))

  pub Keeps-read_clock : (schedule : Schedule) → Keeps (read_clock schedule)
  unfolding read_clock
  Keeps-read_clock schedule = record { run = λ w s. (s, run_done) }

  pub Keeps-transmit :
      (schedule : Schedule) (id : String) (attempt : PaymentAttempt)
      → Keeps (transmit schedule id attempt)
  unfolding transmit
  Keeps-transmit schedule id attempt = record {
    run = λ w s. elim (Bool-cases (schedule.alive w.step)) [
      | inl alive ↦ rw alive (s, run_done)
      | inr dead ↦ rw dead (s, run_done)
    ];
  }
