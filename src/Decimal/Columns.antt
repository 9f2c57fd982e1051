-- ===== src/Decimal/Columns.antt =====
-- The CHECK of the store's columns against the pattern of the packages.
use native.Mathlib.Nat.{pow-suc}
use virtual_haibin.Prelude.{
  ℕ, zero, suc, ◌+◌, ◌-◌, ◌*◌, ◌^◌, ◌≤◌, ◌<◌, all, length, String, true, false, not, ◌&&◌, ◌||◌,
  leb, List, [], ◌∷◌, ◌≡◌, refl, arith,
}
use virtual_haibin.Decimal.Digits.{until_nul-eq}
use virtual_haibin.Decimal.{
  codes, matches_atomic, is_canonical_atomic_amount, passes_check, atomic_check, value_from,
  big_int, is_digit, is_empty, is_zero_text, starts_with_zero, until_nul, has_nul,
}

passes-eq-matches : (cs : List ℕ) → has_nul cs ≡ false → passes_check cs ≡ matches_atomic cs
unfolding passes_check matches_atomic
passes-eq-matches cs h = rw (until_nul-eq cs h) (whole cs)
  where
    whole :
        (cs : List ℕ)
        → (not (is_empty cs)
            && all is_digit cs
            && (is_zero_text cs || not (starts_with_zero cs))
            && leb (length cs) 20)
          ≡ matches_atomic cs
    whole [] = refl
    whole (c ∷ []) = ground arith
    whole (c ∷ d ∷ cs) = ground arith

-- A column of the store accepts, of the texts without U+0000, exactly those that the packages' amount
-- pattern matches.
pub atomic_check-eq-pattern :
    (text : String)
    → has_nul (codes text) ≡ false
    → atomic_check text ≡ is_canonical_atomic_amount text
unfolding atomic_check is_canonical_atomic_amount
atomic_check-eq-pattern text = passes-eq-matches (codes text)

pow_pos : (k : ℕ) → 0 < 10 ^ k
pow_pos zero = omega arith
pow_pos (suc k) = omega (arith, pow-suc 10 k, pow_pos k)

shift_le : (acc d p : ℕ) → d ≤ 9 → suc (acc * 10 + d) * p ≤ suc acc * (p * 10)
shift_le acc d p h = grind arith

value_from-lt :
    (k acc : ℕ) (cs : List ℕ)
    → length cs ≤ k
    → all is_digit cs ≡ true
    → value_from acc cs < suc acc * 10 ^ k
unfolding value_from
value_from-lt k acc [] l h = grind (arith, pow_pos k)
value_from-lt zero acc (c ∷ cs) l h = absurd (omega arith)
value_from-lt (suc k) acc (c ∷ cs) l h =
    let digit : c - b'0' ≤ 9 = ground arith in
    rw (pow-suc 10 k) (
      omega (
        arith,
        value_from-lt k (acc * 10 + (c - b'0')) cs (omega arith) (ground arith),
        shift_le acc (c - b'0') (10 ^ k) digit,
      ))

passes_check-bounds :
    (cs : List ℕ)
    → passes_check cs ≡ true
    → (length (until_nul cs) ≤ 20) × (all is_digit (until_nul cs) ≡ true)
unfolding passes_check
passes_check-bounds cs h = (ground arith, ground arith)

-- An amount that a column accepts has at most twenty digits.
pub big_int-lt : (text : String) → atomic_check text ≡ true → big_int text < 10 ^ 20
unfolding atomic_check big_int
big_int-lt text h =
    let (short, digits) = passes_check-bounds (codes text) h in
    omega (arith, value_from-lt 20 0 (until_nul (codes text)) short digits)
