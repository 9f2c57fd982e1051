-- ===== src/Decimal.antt =====
-- Canonical decimal amounts: the pattern that the packages test amounts with, the CHECK that the
-- store's columns carry, and the two conversions of the language between such texts and BigInt.
pub mod Digits
pub mod RoundTrip
pub mod Columns
mod Examples
use Prim.Native.Char.{Char, code}
use virtual_haibin.Prelude.{
  ℕ, zero, suc, ◌+◌, ◌-◌, ◌*◌, ◌/◌, ◌%◌, String, Bool, true, false, not, ◌&&◌, ◌||◌, List, [], ◌∷◌,
  ◌++◌, Option, none, some, leb, ltb, eqb, if◌then◌else◌, all, any, length,
}

-- The code units of a text, which are its characters where the text is ASCII.
abbrev pub codes : String → List ℕ
codes String.[] = []
codes (String.◌∷◌ c s) = code c ∷ codes s

abbrev pub is_digit : ℕ → Bool
is_digit c = leb b'0' c && leb c b'9'

abbrev pub is_empty {ℓ} : {A : Type ℓ} → List A → Bool
is_empty [] = true
is_empty (_ ∷ _) = false

-- `ATOMIC_AMOUNT_PATTERN`, /^(0|[1-9][0-9]{0,19})$/
unfoldable pub matches_atomic : List ℕ → Bool
matches_atomic [] = false
matches_atomic (c ∷ cs) =
    (eqb c b'0' && is_empty cs)
    || (leb b'1' c && leb c b'9' && all is_digit cs && leb (length cs) 19)

unfoldable pub is_canonical_atomic_amount : String → Bool
unfolding matches_atomic
is_canonical_atomic_amount value = matches_atomic (codes value)

abbrev pub starts_with_zero : List ℕ → Bool
starts_with_zero [] = false
starts_with_zero (c ∷ _) = eqb c b'0'

abbrev pub is_zero_text : List ℕ → Bool
is_zero_text (c ∷ []) = eqb c b'0'
is_zero_text _ = false

-- What the functions of the database read of a text: they stop at the first U+0000.
abbrev pub until_nul : List ℕ → List ℕ
until_nul [] = []
until_nul (c ∷ cs) = let rest = until_nul cs in if eqb c 0 then [] else c ∷ rest

abbrev pub has_nul : List ℕ → Bool
has_nul = any (λ c. eqb c 0)

-- `atomicCheck`: `c <> ''`, `c NOT GLOB '*[^0-9]*'`, `c = '0' OR c NOT GLOB '0*'`, `length(c) <= 20`.
-- The two comparisons see the whole text, GLOB and length() what comes before a U+0000.
unfoldable pub passes_check : List ℕ → Bool
passes_check cs =
    let seen = until_nul cs in
    not (is_empty cs)
    && all is_digit seen
    && (is_zero_text cs || not (starts_with_zero seen))
    && leb (length seen) 20

unfoldable pub atomic_check : String → Bool
unfolding passes_check
atomic_check column = passes_check (codes column)

unfoldable pub value_from : ℕ → List ℕ → ℕ
value_from acc [] = acc
value_from acc (c ∷ cs) = value_from (acc * 10 + (c - b'0')) cs

-- `BigInt(text)` where the text is made of decimal digits. On any other text the language throws;
-- this reads what comes before a U+0000.
unfoldable pub big_int : String → ℕ
unfolding value_from
big_int text = value_from 0 (until_nul (codes text))

-- The digits of `n`; the fuel `suc n` is enough.
unfoldable pub decimal_codes : ℕ → ℕ → List ℕ
decimal_codes zero n = []
decimal_codes (suc fuel) n =
    let rest = decimal_codes fuel (n / 10) in
    if ltb n 10 then (b'0' + n) ∷ [] else rest ++ (b'0' + n % 10) ∷ []

-- The character of one digit.
unfoldable pub digit_char : ℕ → Char
digit_char zero = "0"
digit_char (suc zero) = "1"
digit_char (suc (suc zero)) = "2"
digit_char (suc (suc (suc zero))) = "3"
digit_char (suc (suc (suc (suc zero)))) = "4"
digit_char (suc (suc (suc (suc (suc zero))))) = "5"
digit_char (suc (suc (suc (suc (suc (suc zero)))))) = "6"
digit_char (suc (suc (suc (suc (suc (suc (suc zero))))))) = "7"
digit_char (suc (suc (suc (suc (suc (suc (suc (suc zero)))))))) = "8"
digit_char _ = "9"

unfoldable pub text_of : List ℕ → String
text_of [] = String.[]
text_of (c ∷ cs) = String.◌∷◌ (digit_char (c - b'0')) (text_of cs)

-- `n.toString()` of a BigInt that is not negative.
unfoldable pub to_string : ℕ → String
unfolding decimal_codes text_of digit_char
to_string n = text_of (decimal_codes (suc n) n)

abbrev pub max_u64 : ℕ
max_u64 = 18446744073709551615
