-- ===== src/Decimal/Digits.antt =====
-- Facts about the digits of a number.
use native.Mathlib.Nat.{pow-suc}
use virtual_haibin.Prelude.{
  ℕ, zero, suc, ◌+◌, ◌-◌, ◌*◌, ◌/◌, ◌%◌, ◌^◌, ◌<◌, ◌≤◌, true, false, List, [], ◌∷◌, ◌++◌, ◌≡◌, refl,
  ltb, all, length, arith, Bool-cases, inl, inr, ap, ◌∙◌,
}
use virtual_haibin.Decimal.{
  is_digit, is_empty, starts_with_zero, value_from, decimal_codes, until_nul, has_nul,
}

pub value_from-append :
    (acc : ℕ) (xs : List ℕ) (c : ℕ)
    → value_from acc (xs ++ c ∷ []) ≡ value_from acc xs * 10 + (c - b'0')
unfolding value_from
value_from-append acc [] c = refl
value_from-append acc (x ∷ xs) c = value_from-append (acc * 10 + (x - b'0')) xs c

pub value_from-decimal_codes : (f n : ℕ) → n < f → value_from 0 (decimal_codes f n) ≡ n
unfolding decimal_codes value_from
value_from-decimal_codes zero n h = absurd (omega arith)
value_from-decimal_codes (suc f) n h = elim (Bool-cases (ltb n 10)) [
  | inl small ↦ rw small (omega arith)
  | inr big ↦ rw big (
      value_from-append 0 (decimal_codes f (n / 10)) (b'0' + n % 10)
      ∙ ground (arith, value_from-decimal_codes f (n / 10)))
]

all-append :
    (xs : List ℕ) (c : ℕ)
    → all is_digit xs ≡ true
    → is_digit c ≡ true
    → all is_digit (xs ++ c ∷ []) ≡ true
all-append [] c h k = ground arith
all-append (x ∷ xs) c h k = ground (arith, all-append xs c)

pub all-decimal_codes : (f n : ℕ) → all is_digit (decimal_codes f n) ≡ true
unfolding decimal_codes
all-decimal_codes zero n = refl
all-decimal_codes (suc f) n = elim (Bool-cases (ltb n 10)) [
  | inl small ↦ rw small (ground arith)
  | inr big ↦ rw big (
      all-append (decimal_codes f (n / 10)) (b'0' + n % 10) (all-decimal_codes f (n / 10))
        (ground arith))
]

length-append : (xs : List ℕ) (c : ℕ) → length (xs ++ c ∷ []) ≡ suc (length xs)
length-append [] c = refl
length-append (x ∷ xs) c = ap suc (length-append xs c)

pub length-decimal_codes : (f k n : ℕ) → n < 10 ^ suc k → length (decimal_codes f n) ≤ suc k
unfolding decimal_codes
length-decimal_codes zero k n h = omega arith
length-decimal_codes (suc f) zero n h =
    let small : ltb n 10 ≡ true = ground arith in rw small (omega arith)
length-decimal_codes (suc f) (suc k) n h = elim (Bool-cases (ltb n 10)) [
  | inl small ↦ rw small (omega arith)
  | inr big ↦ rw big (
      omega (
        arith,
        length-append (decimal_codes f (n / 10)) (b'0' + n % 10),
        length-decimal_codes f k (n / 10) (omega (arith, pow-suc 10 (suc k))),
      ))
]

head-append :
    (xs : List ℕ) (c : ℕ)
    → is_empty xs ≡ false
    → starts_with_zero xs ≡ false
    → (is_empty (xs ++ c ∷ []) ≡ false) × (starts_with_zero (xs ++ c ∷ []) ≡ false)
head-append [] c h k = cc
head-append (x ∷ xs) c h k = (refl, k)

pub head-decimal_codes :
    (f n : ℕ)
    → n < f
    → 0 < n
    → (is_empty (decimal_codes f n) ≡ false) × (starts_with_zero (decimal_codes f n) ≡ false)
unfolding decimal_codes
head-decimal_codes zero n h p = absurd (omega arith)
head-decimal_codes (suc f) n h p = elim (Bool-cases (ltb n 10)) [
  | inl small ↦ rw small (refl, ground arith)
  | inr big ↦
      let ih = head-decimal_codes f (n / 10) (ground arith) (ground arith) in
      rw big (head-append (decimal_codes f (n / 10)) (b'0' + n % 10) ih.0 ih.1)
]

pub until_nul-eq : (cs : List ℕ) → has_nul cs ≡ false → until_nul cs ≡ cs
until_nul-eq [] h = refl
until_nul-eq (c ∷ cs) h = ground (arith, until_nul-eq cs)

-- A text of digits has no U+0000.
pub until_nul-digits : (cs : List ℕ) → all is_digit cs ≡ true → until_nul cs ≡ cs
until_nul-digits [] h = refl
until_nul-digits (c ∷ cs) h = ground (arith, until_nul-digits cs)
