-- ===== src/Decimal/RoundTrip.antt =====
-- Printing and reading an amount.
use Prim.Native.Char.{code}
use virtual_haibin.Prelude.{
  ℕ, ◌+◌, ◌-◌, zero, suc, ◌<◌, true, List, [], ◌∷◌, ◌≡◌, refl, all, arith, ap₂, ◌^◌,
}
use virtual_haibin.Decimal.{
  codes, is_digit, passes_check, atomic_check, big_int, decimal_codes, digit_char, text_of,
  to_string,
}
use virtual_haibin.Decimal.Digits.{
  value_from-decimal_codes, all-decimal_codes, length-decimal_codes, head-decimal_codes,
  until_nul-digits,
}

code-digit_char : (d : ℕ) → d < 10 → code (digit_char d) ≡ b'0' + d
unfolding digit_char
code-digit_char zero h = refl
code-digit_char (suc zero) h = refl
code-digit_char (suc (suc zero)) h = refl
code-digit_char (suc (suc (suc zero))) h = refl
code-digit_char (suc (suc (suc (suc zero)))) h = refl
code-digit_char (suc (suc (suc (suc (suc zero))))) h = refl
code-digit_char (suc (suc (suc (suc (suc (suc zero)))))) h = refl
code-digit_char (suc (suc (suc (suc (suc (suc (suc zero))))))) h = refl
code-digit_char (suc (suc (suc (suc (suc (suc (suc (suc zero)))))))) h = refl
code-digit_char (suc (suc (suc (suc (suc (suc (suc (suc (suc zero))))))))) h = refl
code-digit_char (suc (suc (suc (suc (suc (suc (suc (suc (suc (suc n)))))))))) h =
    absurd (omega arith)

codes-text_of : (cs : List ℕ) → all is_digit cs ≡ true → codes (text_of cs) ≡ cs
unfolding text_of
codes-text_of [] h = refl
codes-text_of (c ∷ cs) h =
    ap₂ ◌∷◌ (ground (arith, code-digit_char (c - b'0'))) (codes-text_of cs (ground arith))

codes-to_string : (n : ℕ) → codes (to_string n) ≡ decimal_codes (suc n) n
codes-to_string n =
    unfold to_string in codes-text_of (decimal_codes (suc n) n) (all-decimal_codes (suc n) n)

-- Reading a printed amount gives the amount back.
pub big_int-to_string : (n : ℕ) → big_int (to_string n) ≡ n
unfolding big_int
big_int-to_string n =
    rw (codes-to_string n, until_nul-digits _ (all-decimal_codes (suc n) n))
      (value_from-decimal_codes (suc n) n (omega arith))

passes-decimal_codes : (n : ℕ) → n < 10 ^ 20 → passes_check (decimal_codes (suc n) n) ≡ true
unfolding passes_check
passes-decimal_codes zero h = unfold decimal_codes in refl
passes-decimal_codes (suc n) h = rw (until_nul-digits _ (all-decimal_codes (suc (suc n)) (suc n))) (
    ground (
      arith,
      head-decimal_codes (suc (suc n)) (suc n),
      all-decimal_codes (suc (suc n)) (suc n),
      length-decimal_codes (suc (suc n)) 19 (suc n) h,
    ))

-- Every amount below 10^20, hence every u64, is printed as a text that the columns accept.
pub to_string-passes : (n : ℕ) → n < 10 ^ 20 → atomic_check (to_string n) ≡ true
unfolding atomic_check
to_string-passes n h = rw (codes-to_string n) (passes-decimal_codes n h)
