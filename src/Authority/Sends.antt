-- ===== src/Authority/Sends.antt =====
-- What a service method transmits: nothing, or one payment of which something is known.
pub mod Recorded
pub mod Stepwise
pub mod Reserved
pub mod Payment
pub mod Decided
pub mod Permitted
pub mod Safety
pub mod Replays
pub mod Honest
pub mod Retry
use virtual_haibin.Prelude.{
  ℕ, String, Bool, true, false, Option, none, some, List, [], ◌∷◌, ◌++◌, ◌≡◌, ◌⊎◌, ◌∙◌, sym, ap,
  subst, refl, inl, inr, Bool-cases, arith, if◌then◌else◌,
}
use virtual_haibin.Payments.{PaymentAttempt}
use virtual_haibin.Store.{Db}
use virtual_haibin.Store.Monad.{Result, ok, thrown}
use virtual_haibin.Store.Ledger.History.{perform_all}
use virtual_haibin.Authority.{AuthorityError}
use virtual_haibin.Authority.Monad.{
  Sent, World, Schedule, Reply, done, failed, crashed, Service, ◌>>=◌, pure, raise, attempt_catch,
  access, read_clock, transmit, continue, handle, reply_of,
}

pub record Silent {A : Type 0} (m : Service A) : Type 0 where
  pub quiet : (w : World) → (m w).1.sent ≡ w.sent

-- One payment at most.
abbrev pub SentOne : (Sent → Type 0) → List Sent → List Sent → Type 0
SentOne P before after = (after ≡ before) ⊎ ((s : Sent) × (after ≡ before ++ s ∷ []) × P s)

pub record Sends (P : Sent → Type 0) {A : Type 0} (m : Service A) : Type 0 where
  pub sends : (w : World) → SentOne P w.sent (m w).1.sent

-- What is known of a result.
pub record Replies {A : Type 0} (Q : A → Type 0) (m : Service A) : Type 0 where
  pub replies : (w w' : World) (a : A) → m w ≡ (done a, w') → Q a

pub Silent-pure : {A : Type 0} (a : A) → Silent (pure a)
unfolding pure
Silent-pure a = record { quiet = λ w. refl }

pub Silent-raise : {A : Type 0} (e : AuthorityError) → Silent {A = A} (raise e)
unfolding raise
Silent-raise e = record { quiet = λ w. refl }

pub Silent-read_clock : (schedule : Schedule) → Silent (read_clock schedule)
unfolding read_clock
Silent-read_clock schedule = record { quiet = λ w. refl }

pub Silent-access :
    {A : Type 0} (schedule : Schedule) (method : ℕ → Db → Result A × Db)
    → Silent (access schedule method)
unfolding access
Silent-access schedule method = record {
  quiet = λ w. elim (Bool-cases (schedule.alive w.step)) [
    | inl alive ↦ rw alive refl
    | inr dead ↦ rw dead refl
  ];
}

pub Silent-bind :
    {A B : Type 0} (m : Service A) (f : A → Service B)
    → Silent m
    → ((a : A) → Silent (f a))
    → Silent (m >>= f)
unfolding ◌>>=◌
Silent-bind {A} {B} m f km kf = record { quiet = λ w. next w (m w).0 (m w).1 (km.quiet w) }
  where
    next :
        (w : World) (r : Reply A) (w' : World)
        → w'.sent ≡ w.sent
        → (continue r f w').1.sent ≡ w.sent
    next w (done a) w' e = (kf a).quiet w' ∙ e
    next w (failed x) w' e = e
    next w crashed w' e = e

pub Silent-catch :
    {A B : Type 0} (m : Service A) (f : A → Service B) (g : AuthorityError → Service B)
    → Silent m
    → ((a : A) → Silent (f a))
    → ((e : AuthorityError) → Silent (g e))
    → Silent (attempt_catch m f g)
unfolding attempt_catch
Silent-catch {A} {B} m f g km kf kg = record { quiet = λ w. next w (m w).0 (m w).1 (km.quiet w) }
  where
    next :
        (w : World) (r : Reply A) (w' : World)
        → w'.sent ≡ w.sent
        → (handle r f g w').1.sent ≡ w.sent
    next w (done a) w' e = (kf a).quiet w' ∙ e
    next w (failed x) w' e = (kg x).quiet w' ∙ e
    next w crashed w' e = e

module _ (P : Sent → Type 0) where
  pub Sends-Silent : {A : Type 0} (m : Service A) → Silent m → Sends P m
  Sends-Silent m k = record { sends = λ w. inl (k.quiet w) }

  -- What may send comes first.
  pub Sends-first :
      {A B : Type 0} (m : Service A) (f : A → Service B)
      → Sends P m
      → ((a : A) → Silent (f a))
      → Sends P (m >>= f)
  unfolding ◌>>=◌
  Sends-first {A} {B} m f km kf = record { sends = λ w. next w (m w).0 (m w).1 (km.sends w) }
    where
      same :
          (before after after' : List Sent)
          → after' ≡ after
          → SentOne P before after
          → SentOne P before after'
      same before after after' e (inl h) = inl (e ∙ h)
      same before after after' e (inr (s, h, p)) = inr (s, e ∙ h, p)

      next :
          (w : World) (r : Reply A) (w' : World)
          → SentOne P w.sent w'.sent
          → SentOne P w.sent (continue r f w').1.sent
      next w (done a) w' h = same w.sent w'.sent _ ((kf a).quiet w') h
      next w (failed x) w' h = h
      next w crashed w' h = h

  moved :
      (before before' after : List Sent)
      → before' ≡ before
      → SentOne P before' after
      → SentOne P before after
  moved before before' after e (inl h) = inl (h ∙ e)
  moved before before' after e (inr (s, h, p)) = inr (s, h ∙ ap (λ x. x ++ s ∷ []) e, p)

  -- What may send comes next.
  pub Sends-next :
      {A B : Type 0} (Q : A → Type 0) (m : Service A) (f : A → Service B)
      → Silent m
      → Replies Q m
      → ((a : A) → Q a → Sends P (f a))
      → Sends P (m >>= f)
  unfolding ◌>>=◌
  Sends-next {A} {B} Q m f km q kf = record {
    sends = λ w. next w (m w).0 (m w).1 refl (km.quiet w);
  }
    where
      next :
          (w : World) (r : Reply A) (w' : World)
          → m w ≡ (r, w')
          → w'.sent ≡ w.sent
          → SentOne P w.sent (continue r f w').1.sent
      next w (done a) w' h e = moved w.sent w'.sent _ e ((kf a (q.replies w w' a h)).sends w')
      next w (failed x) w' h e = inl e
      next w crashed w' h e = inl e

  pub Sends-catch :
      {A B : Type 0} (Q : A → Type 0) (m : Service A) (f : A → Service B)
      (g : AuthorityError → Service B)
      → Silent m
      → Replies Q m
      → ((a : A) → Q a → Sends P (f a))
      → ((e : AuthorityError) → Silent (g e))
      → Sends P (attempt_catch m f g)
  unfolding attempt_catch
  Sends-catch {A} {B} Q m f g km q kf kg = record {
    sends = λ w. next w (m w).0 (m w).1 refl (km.quiet w);
  }
    where
      next :
          (w : World) (r : Reply A) (w' : World)
          → m w ≡ (r, w')
          → w'.sent ≡ w.sent
          → SentOne P w.sent (handle r f g w').1.sent
      next w (done a) w' h e = moved w.sent w'.sent _ e ((kf a (q.replies w w' a h)).sends w')
      next w (failed x) w' h e = inl ((kg x).quiet w' ∙ e)
      next w crashed w' h e = inl e

pub reply_of-ok : {A : Type 0} (r : Result A) (a : A) → reply_of r ≡ done a → r ≡ ok a
reply_of-ok (ok b) a e = cc (e)
reply_of-ok (thrown x) a e = absurd (cc (e))

pub Sends-map :
    {A : Type 0} (P Q : Sent → Type 0) (m : Service A)
    → ((s : Sent) → P s → Q s)
    → Sends P m
    → Sends Q m
Sends-map P Q m f k = record { sends = λ w. by_case w (k.sends w) }
  where
    by_case : (w : World) → SentOne P w.sent (m w).1.sent → SentOne Q w.sent (m w).1.sent
    by_case w (inl h) = inl h
    by_case w (inr (s, h, p)) = inr (s, h, f s p)

pub Replies-any : {A : Type 0} (m : Service A) → Replies (λ a. Unit) m
Replies-any m = record { replies = λ w w' a e. tt }

pub Replies-pure : {A : Type 0} (Q : A → Type 0) (a : A) → Q a → Replies Q (pure a)
unfolding pure
Replies-pure Q a q = record { replies = λ w w' b e. subst Q (cc (ap (λ p. p.0) e)) q }

pub Replies-raise : {A : Type 0} (Q : A → Type 0) (x : AuthorityError) → Replies Q (raise x)
unfolding raise
Replies-raise Q x = record { replies = λ w w' b e. absurd (cc (ap (λ p. p.0) e)) }
