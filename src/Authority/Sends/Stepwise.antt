-- ===== src/Authority/Sends/Stepwise.antt =====
-- Rules for what a method transmits from a world of which something is known.
use virtual_haibin.Prelude.{
  ℕ, suc, String, sym, List, ◌++◌, ◌∷◌, [], ◌≡◌, ◌∙◌, ap, subst, refl, inl, inr, Bool-cases,
}
use virtual_haibin.Payments.{PaymentAttempt}
use virtual_haibin.Store.{Db}
use virtual_haibin.Store.Monad.{Result, ok}
use virtual_haibin.Store.Ledger.History.{perform_all}
use virtual_haibin.Authority.{AuthorityError}
use virtual_haibin.Authority.Monad.{
  Sent, World, Schedule, Reply, done, failed, crashed, Service, ◌>>=◌, attempt_catch, access,
  read_clock, pure, raise, transmit, continue, handle, reply_of,
}
use virtual_haibin.Authority.Sends.{Silent, SentOne, Sends, Replies, reply_of-ok}

-- What is known of a result and of the world then.
pub record Leads (R : World → Type 0) {A : Type 0} (m : Service A) (Q : A → World → Type 0)
    : Type 0 where
  pub leads : (w w' : World) (a : A) → R w → m w ≡ (done a, w') → Q a w'

pub record SendsFrom (R : World → Type 0) (P : Sent → Type 0) {A : Type 0} (m : Service A)
    : Type 0 where
  pub sends_from : (w : World) → R w → SentOne P w.sent (m w).1.sent

moved :
    (P : Sent → Type 0) (before before' after : List Sent)
    → before' ≡ before
    → SentOne P before' after
    → SentOne P before after
moved P before before' after e (inl h) = inl (h ∙ e)
moved P before before' after e (inr (s, h, p)) = inr (s, h ∙ ap (λ x. x ++ s ∷ []) e, p)

same_after :
    (P : Sent → Type 0) (before after after' : List Sent)
    → after' ≡ after
    → SentOne P before after
    → SentOne P before after'
same_after P before after after' e (inl h) = inl (e ∙ h)
same_after P before after after' e (inr (s, h, p)) = inr (s, e ∙ h, p)

pub SentOne-map :
    (P Q : Sent → Type 0) {before after : List Sent}
    → ((s : Sent) → P s → Q s)
    → SentOne P before after
    → SentOne Q before after
SentOne-map P Q f (inl h) = inl h
SentOne-map P Q f (inr (s, h, p)) = inr (s, h, f s p)

module _ (P : Sent → Type 0) where
  pub SendsFrom-transmit :
      (R : World → Type 0) (schedule : Schedule) (id : String) (attempt : PaymentAttempt)
      → ((w : World) → R w → P (record { invocation_id = id; attempt = attempt; db = w.db }))
      → SendsFrom R P (transmit schedule id attempt)
  unfolding transmit
  SendsFrom-transmit R schedule id attempt p = record {
    sends_from = λ w r. elim (Bool-cases (schedule.alive w.step)) [
      | inl alive ↦
          rw alive (inr (record { invocation_id = id; attempt = attempt; db = w.db }, refl, p w r))
      | inr dead ↦ rw dead (inl refl)
    ];
  }

  pub SendsFrom-first :
      {A B : Type 0} (R : World → Type 0) (m : Service A) (f : A → Service B)
      → SendsFrom R P m
      → ((a : A) → Silent (f a))
      → SendsFrom R P (m >>= f)
  unfolding ◌>>=◌
  SendsFrom-first {A} {B} R m f km kf = record {
    sends_from = λ w r. next w (m w).0 (m w).1 (km.sends_from w r);
  }
    where
      next :
          (w : World) (r : Reply A) (w' : World)
          → SentOne P w.sent w'.sent
          → SentOne P w.sent (continue r f w').1.sent
      next w (done a) w' h = same_after P w.sent w'.sent _ ((kf a).quiet w') h
      next w (failed x) w' h = h
      next w crashed w' h = h

  pub SendsFrom-next :
      {A B : Type 0} (R : World → Type 0) (Q : A → World → Type 0) (m : Service A)
      (f : A → Service B)
      → Silent m
      → Leads R m Q
      → ((a : A) → SendsFrom (Q a) P (f a))
      → SendsFrom R P (m >>= f)
  unfolding ◌>>=◌
  SendsFrom-next {A} {B} R Q m f km q kf = record {
    sends_from = λ w r. next w r (m w).0 (m w).1 refl (km.quiet w);
  }
    where
      next :
          (w : World)
          → R w
          → (r : Reply A) (w' : World) → m w ≡ (r, w')
          → w'.sent ≡ w.sent
          → SentOne P w.sent (continue r f w').1.sent
      next w r (done a) w' h e =
          moved P w.sent w'.sent _ e ((kf a).sends_from w' (q.leads w w' a r h))
      next w r (failed x) w' h e = inl e
      next w r crashed w' h e = inl e

  pub SendsFrom-catch :
      {A B : Type 0} (R : World → Type 0) (Q : A → World → Type 0) (m : Service A)
      (f : A → Service B) (g : AuthorityError → Service B)
      → Silent m
      → Leads R m Q
      → ((a : A) → SendsFrom (Q a) P (f a))
      → ((e : AuthorityError) → Silent (g e))
      → SendsFrom R P (attempt_catch m f g)
  unfolding attempt_catch
  SendsFrom-catch {A} {B} R Q m f g km q kf kg = record {
    sends_from = λ w r. next w r (m w).0 (m w).1 refl (km.quiet w);
  }
    where
      next :
          (w : World)
          → R w
          → (r : Reply A) (w' : World) → m w ≡ (r, w')
          → w'.sent ≡ w.sent
          → SentOne P w.sent (handle r f g w').1.sent
      next w r (done a) w' h e =
          moved P w.sent w'.sent _ e ((kf a).sends_from w' (q.leads w w' a r h))
      next w r (failed x) w' h e = inl ((kg x).quiet w' ∙ e)
      next w r crashed w' h e = inl e

  pub SendsFrom-Sends :
      {A : Type 0} (R : World → Type 0) (m : Service A) → Sends P m → SendsFrom R P m
  SendsFrom-Sends R m k = record { sends_from = λ w r. k.sends w }

  pub Sends-SendsFrom : {A : Type 0} (m : Service A) → SendsFrom (λ _. Unit) P m → Sends P m
  Sends-SendsFrom m k = record { sends = λ w. k.sends_from w tt }

-- The world of which the step and the tables are known.
abbrev pub IsAt : ℕ → Db → World → Type 0
IsAt n db w = (w.step ≡ n) × (w.db ≡ db)

-- The tables that the n-th access finds.
abbrev pub found_by : Schedule → ℕ → Db → Db
found_by schedule n db = perform_all (schedule.others n) db

access-done :
    {A : Type 0} (schedule : Schedule) (method : ℕ → Db → Result A × Db) (w w' : World) (a : A)
    → access schedule method w ≡ (done a, w')
    → let run = method (schedule.clock w.step) (found_by schedule w.step w.db) in
      (reply_of run.0 ≡ done a) × (w' ≡ record w { db = run.1; step = suc w.step })
unfolding access
access-done schedule method w w' a e = elim (Bool-cases (schedule.alive w.step)) [
  | inr dead ↦ absurd (cc (ap (λ p. p.0) (rw dead at e)))
  | inl alive ↦
      let run = method (schedule.clock w.step) (found_by schedule w.step w.db) in
      let same : (reply_of run.0, record w { db = run.1; step = suc w.step }) ≡ (done a, w') =
        rw alive at e in
      (ap (λ p. p.0) same, ap (λ p. p.1) (sym same))
]

-- An access that returns leaves the result and the tables of its method.
pub Leads-access :
    {A : Type 0} (R : World → Type 0) (schedule : Schedule) (method : ℕ → Db → Result A × Db)
    (Q : A → World → Type 0)
    → ((w w' : World) (a : A)
        → R w
        → (method (schedule.clock w.step) (found_by schedule w.step w.db)).0 ≡ ok a
        → w'.db ≡ (method (schedule.clock w.step) (found_by schedule w.step w.db)).1
        → w'.step ≡ suc w.step
        → Q a w')
    → Leads R (access schedule method) Q
Leads-access R schedule method Q k = record {
  leads = λ w w' a r e.
      let (replies, moves) = access-done schedule method w w' a e in
      k w w' a r (reply_of-ok _ a replies) (ap (λ x. x.db) moves) (ap (λ x. x.step) moves);
}

pub Leads-read_clock :
    (schedule : Schedule) (n : ℕ) (db : Db)
    → Leads
        (IsAt n db)
        (read_clock schedule)
        (λ now w. (now ≡ schedule.clock n) × IsAt (suc n) db w)
unfolding read_clock
Leads-read_clock schedule n db = record {
  leads = λ w w' a (s, d) e.
      let read : done (schedule.clock w.step) ≡ done a = ap (λ p. p.0) e in
      let moves = ap (λ p. p.1) e in
      (cc (read, s), (sym (ap (λ x. x.step) moves) ∙ ap suc s, sym (ap (λ x. x.db) moves) ∙ d));
}

-- A method that leaves the world as it is.
pub record Still {A : Type 0} (m : Service A) : Type 0 where
  pub leaves : (w : World) → (m w).1 ≡ w

pub Still-pure : {A : Type 0} (a : A) → Still (pure a)
unfolding pure
Still-pure a = record { leaves = λ w. refl }

pub Still-raise : {A : Type 0} (e : AuthorityError) → Still {A = A} (raise e)
unfolding raise
Still-raise e = record { leaves = λ w. refl }

pub Still-Silent : {A : Type 0} (m : Service A) → Still m → Silent m
Still-Silent m k = record { quiet = λ w. ap (λ x. x.sent) (k.leaves w) }

pub Leads-Still :
    {A : Type 0} (R : World → Type 0) (Q : A → Type 0) (m : Service A)
    → Still m
    → Replies Q m
    → Leads R m (λ a w. Q a × R w)
Leads-Still R Q m k q = record {
  leads = λ w w' a r e. (q.replies w w' a e, subst R (sym (k.leaves w) ∙ ap (λ p. p.1) e) r);
}
