-- ===== src/Decimal/Examples.antt =====
-- Amounts on concrete texts.
use virtual_haibin.Prelude.{true, false, ◌≡◌, refl, ◌<◌, ◌^◌, arith}
use virtual_haibin.Decimal.{is_canonical_atomic_amount, atomic_check, big_int, to_string}
use virtual_haibin.Decimal.RoundTrip.{big_int-to_string, to_string-passes}
use virtual_haibin.Decimal.Columns.{atomic_check-eq-pattern, big_int-lt}

check_zero : atomic_check "0" ≡ true
unfolding atomic_check
check_zero = refl

check_leading_zero : atomic_check "007" ≡ false
unfolding atomic_check
check_leading_zero = refl

big_int-to_string_example : big_int (to_string 18446744073709551615) ≡ 18446744073709551615
big_int-to_string_example = big_int-to_string 18446744073709551615

to_string-passes_example : atomic_check (to_string 250) ≡ true
to_string-passes_example = to_string-passes 250 (omega arith)

atomic_check-eq-pattern_example : atomic_check "007" ≡ is_canonical_atomic_amount "007"
atomic_check-eq-pattern_example = atomic_check-eq-pattern "007" refl

-- The database and the pattern on a text with U+0000.
nul_accepted : atomic_check "5\0junk" ≡ true
unfolding atomic_check
nul_accepted = refl

nul_refused : is_canonical_atomic_amount "5\0junk" ≡ false
unfolding is_canonical_atomic_amount
nul_refused = refl

check_250 : atomic_check "250" ≡ true
unfolding atomic_check
check_250 = refl

big_int-lt_example : big_int "250" < 10 ^ 20
big_int-lt_example = big_int-lt "250" check_250
