-- ===== src/Authority/Sends/Honest.antt =====
-- Rules for the error that lets a caller try again.
use virtual_haibin.Prelude.{ℕ, String, ◌≡◌, ◌≢◌, ◌∙◌, inl, inr, Bool-cases}
use virtual_haibin.Payments.{PaymentAttempt}
use virtual_haibin.Store.{Db}
use virtual_haibin.Store.Monad.{Result, ok, thrown}
use virtual_haibin.Store.Ledger.History.{perform_all}
use virtual_haibin.Authority.{AuthorityError, payment_not_submitted}
use virtual_haibin.Authority.Monad.{
  World, Schedule, Reply, done, failed, crashed, Service, ◌>>=◌, pure, raise, attempt_catch, access,
  transmit, continue, handle, reply_of,
}
use virtual_haibin.Authority.Sends.{Silent}

-- A method that never gives the error.
pub record IsFinal {A : Type 0} (m : Service A) : Type 0 where
  pub final : (w : World) (id : String) → (m w).0 ≢ failed (payment_not_submitted id)

-- A method that gives it only where it transmitted nothing.
pub record IsHonest {A : Type 0} (m : Service A) : Type 0 where
  pub honest :
      (w : World) (id : String)
      → (m w).0 ≡ failed (payment_not_submitted id)
      → (m w).1.sent ≡ w.sent

pub IsFinal-pure : {A : Type 0} (a : A) → IsFinal (pure a)
unfolding pure
IsFinal-pure a = record { final = λ w id e. absurd (cc (e)) }

pub IsFinal-raise :
    {A : Type 0} (e : AuthorityError)
    → ((id : String) → e ≢ payment_not_submitted id)
    → IsFinal {A = A} (raise e)
unfolding raise
IsFinal-raise e d = record { final = λ w id h. d id (cc (h)) }

pub IsFinal-access :
    {A : Type 0} (schedule : Schedule) (method : ℕ → Db → Result A × Db)
    → IsFinal (access schedule method)
unfolding access
IsFinal-access {A} schedule method = record {
  final = λ w id. elim (Bool-cases (schedule.alive w.step)) [
    | inl alive ↦ rw alive (
        by_result (method (schedule.clock w.step) (perform_all (schedule.others w.step) w.db)).0 id)
    | inr dead ↦ rw dead (λ e. absurd (cc (e)))
  ];
}
  where
    by_result : (r : Result A) (id : String) → reply_of r ≢ failed (payment_not_submitted id)
    by_result (ok a) id e = absurd (cc (e))
    by_result (thrown x) id e = absurd (cc (e))

pub IsFinal-transmit :
    (schedule : Schedule) (id : String) (attempt : PaymentAttempt)
    → IsFinal (transmit schedule id attempt)
unfolding transmit
IsFinal-transmit schedule id attempt = record {
  final = λ w i. elim (Bool-cases (schedule.alive w.step)) [
    | inl alive ↦ rw alive (λ e. absurd (cc (e)))
    | inr dead ↦ rw dead (λ e. absurd (cc (e)))
  ];
}

pub IsFinal-bind :
    {A B : Type 0} (m : Service A) (f : A → Service B)
    → IsFinal m
    → ((a : A) → IsFinal (f a))
    → IsFinal (m >>= f)
unfolding ◌>>=◌
IsFinal-bind {A} {B} m f km kf = record { final = λ w id. next id (m w).0 (m w).1 (km.final w id) }
  where
    next :
        (id : String) (r : Reply A) (w' : World)
        → r ≢ failed (payment_not_submitted id)
        → (continue r f w').0 ≢ failed (payment_not_submitted id)
    next id (done a) w' d e = (kf a).final w' id e
    next id (failed x) w' d e = d (cc (e))
    next id crashed w' d e = absurd (cc (e))

pub IsFinal-catch :
    {A B : Type 0} (m : Service A) (f : A → Service B) (g : AuthorityError → Service B)
    → ((a : A) → IsFinal (f a))
    → ((e : AuthorityError) → IsFinal (g e))
    → IsFinal (attempt_catch m f g)
unfolding attempt_catch
IsFinal-catch {A} {B} m f g kf kg = record { final = λ w id. next id (m w).0 (m w).1 }
  where
    next :
        (id : String) (r : Reply A) (w' : World)
        → (handle r f g w').0 ≢ failed (payment_not_submitted id)
    next id (done a) w' e = (kf a).final w' id e
    next id (failed x) w' e = (kg x).final w' id e
    next id crashed w' e = absurd (cc (e))

pub IsHonest-Silent : {A : Type 0} (m : Service A) → Silent m → IsHonest m
IsHonest-Silent m k = record { honest = λ w id e. k.quiet w }

pub IsHonest-next :
    {A B : Type 0} (m : Service A) (f : A → Service B)
    → Silent m
    → ((a : A) → IsHonest (f a))
    → IsHonest (m >>= f)
unfolding ◌>>=◌
IsHonest-next {A} {B} m f km kf = record { honest = λ w id. next w id (m w).0 (m w).1 (km.quiet w) }
  where
    next :
        (w : World) (id : String) (r : Reply A) (w' : World)
        → w'.sent ≡ w.sent
        → (continue r f w').0 ≡ failed (payment_not_submitted id)
        → (continue r f w').1.sent ≡ w.sent
    next w id (done a) w' s e = (kf a).honest w' id e ∙ s
    next w id (failed x) w' s e = s
    next w id crashed w' s e = s

pub IsHonest-first :
    {A B : Type 0} (m : Service A) (f : A → Service B)
    → IsHonest m
    → ((a : A) → IsFinal (f a))
    → IsHonest (m >>= f)
unfolding ◌>>=◌
IsHonest-first {A} {B} m f km kf = record {
  honest = λ w id. next w id (m w).0 (m w).1 (km.honest w id);
}
  where
    next :
        (w : World) (id : String) (r : Reply A) (w' : World)
        → (r ≡ failed (payment_not_submitted id) → w'.sent ≡ w.sent)
        → (continue r f w').0 ≡ failed (payment_not_submitted id)
        → (continue r f w').1.sent ≡ w.sent
    next w id (done a) w' h e = absurd ((kf a).final w' id e)
    next w id (failed x) w' h e = h (cc (e))
    next w id crashed w' h e = absurd (cc (e))

pub IsHonest-catch :
    {A B : Type 0} (m : Service A) (f : A → Service B) (g : AuthorityError → Service B)
    → Silent m
    → ((a : A) → IsHonest (f a))
    → ((e : AuthorityError) → IsHonest (g e))
    → IsHonest (attempt_catch m f g)
unfolding attempt_catch
IsHonest-catch {A} {B} m f g km kf kg = record {
  honest = λ w id. next w id (m w).0 (m w).1 (km.quiet w);
}
  where
    next :
        (w : World) (id : String) (r : Reply A) (w' : World)
        → w'.sent ≡ w.sent
        → (handle r f g w').0 ≡ failed (payment_not_submitted id)
        → (handle r f g w').1.sent ≡ w.sent
    next w id (done a) w' s e = (kf a).honest w' id e ∙ s
    next w id (failed x) w' s e = (kg x).honest w' id e ∙ s
    next w id crashed w' s e = s

pub IsHonest-IsFinal : {A : Type 0} (m : Service A) → IsFinal m → IsHonest m
IsHonest-IsFinal m k = record { honest = λ w id e. absurd (k.final w id e) }
