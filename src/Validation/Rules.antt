-- ===== src/Validation/Rules.antt =====
-- What a validation that succeeds has checked, step by step.
use virtual_haibin.Prelude.{
  ℕ, String, Bool, true, false, Option, none, some, ◌≡◌, refl, inl, inr, Bool-cases, arith,
}
use virtual_haibin.Validation.{
  Json, number, text, Checked, valid, invalid, ◌>>=◌, ensure, text_field, time_field,
  is_safe_timestamp,
}

-- A string that passes a test.
pub record IsText (test : String → Bool) (o : Option Json) (s : String) : Type 0 where
  pub present : o ≡ some (text s)
  pub passes : test s ≡ true

-- A safe timestamp.
pub record IsTime (o : Option Json) (n : ℕ) : Type 0 where
  pub present : o ≡ some (number n)
  pub safe : is_safe_timestamp n ≡ true

pub valid-injective : {E A : Type 0} {a b : A} → Path (Checked E A) (valid a) (valid b) → a ≡ b
valid-injective e = cc (e)

pub bind-valid :
    {E A B : Type 0} (m : Checked E A) (f : A → Checked E B) (b : B)
    → (m >>= f) ≡ valid b
    → (a : A) × (m ≡ valid a) × (f a ≡ valid b)
unfolding ◌>>=◌
bind-valid (valid a) f b e = (a, refl, e)
bind-valid (invalid x) f b e = absurd (cc (e))

-- What holds of the values of a step and of what follows it.
pub bind-post :
    {E A B : Type 0} (P : B → Type 0) (m : Checked E A) (f : A → Checked E B)
    → ((a : A) → m ≡ valid a → (b : B) → f a ≡ valid b → P b)
    → (b : B) → (m >>= f) ≡ valid b
    → P b
bind-post P m f step b e = let (a, first, rest) = bind-valid m f b e in step a first b rest

pub ensure-valid :
    {E : Type 0} (test : Bool) (code : E) (u : Unit {0}) → ensure test code ≡ valid u → test ≡ true
unfolding ensure
ensure-valid true code u e = refl
ensure-valid false code u e = absurd (cc (e))

pub text_field-valid :
    {E : Type 0} (test : String → Bool) (o : Option Json) (code : E) (s : String)
    → text_field test o code ≡ valid s
    → IsText test o s
unfolding text_field
text_field-valid test (some (text t)) code s e = elim (Bool-cases (test t)) [
  | inl passes ↦
      let same : t ≡ s = ground (arith, passes, e) in
      record { present = ground (arith, same); passes = ground (arith, passes, same) }
  | inr other ↦ absurd (ground (arith, other, e))
]
text_field-valid test (some _) code s e = absurd (cc (e))
text_field-valid test none code s e = absurd (cc (e))

pub text_field-eval :
    {E : Type 0} (test : String → Bool) (o : Option Json) (code : E) (s : String)
    → IsText test o s
    → text_field test o code ≡ valid s
unfolding text_field
text_field-eval test o code s t = rw (t.present, t.passes) refl

pub time_field-valid :
    {E : Type 0} (o : Option Json) (code : E) (n : ℕ) → time_field o code ≡ valid n → IsTime o n
unfolding time_field
time_field-valid (some (number m)) code n e = elim (Bool-cases (is_safe_timestamp m)) [
  | inl safe ↦
      let same : m ≡ n = ground (arith, safe, e) in
      record { present = ground (arith, same); safe = ground (arith, safe, same) }
  | inr other ↦ absurd (ground (arith, other, e))
]
time_field-valid (some _) code n e = absurd (cc (e))
time_field-valid none code n e = absurd (cc (e))

pub time_field-eval :
    {E : Type 0} (o : Option Json) (code : E) (n : ℕ) → IsTime o n → time_field o code ≡ valid n
unfolding time_field
time_field-eval o code n t = rw (t.present, t.safe) refl
