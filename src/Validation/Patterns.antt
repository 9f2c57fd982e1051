-- ===== src/Validation/Patterns.antt =====
-- packages/mandate/src: the patterns of validate.ts, authorization-request.ts and operation.ts, on the
-- code points of a text. The characters they allow are of one UTF-16 unit.
use virtual_haibin.Prelude.{
  ℕ, suc, ◌+◌, String, Bool, false, ◌&&◌, ◌||◌, List, [], ◌∷◌, all, length, eqb, leb, ltb,
  if◌then◌else◌,
}
use virtual_haibin.Decimal.{codes, is_digit}

abbrev pub is_letter : ℕ → Bool
is_letter c = (leb b'A' c && leb c b'Z') || (leb b'a' c && leb c b'z')

-- /^[A-Za-z0-9_.-]{1,128}$/
abbrev pub is_grant_char : ℕ → Bool
is_grant_char c = is_letter c || (is_digit c || (eqb c b'_' || (eqb c b'.' || eqb c b'-')))

-- /^[A-Za-z0-9_.:-]{1,128}$/
abbrev pub is_identifier_char : ℕ → Bool
is_identifier_char c = is_grant_char c || eqb c b':'

abbrev pub has_length : ℕ → ℕ → List ℕ → Bool
has_length least most cs = leb least (length cs) && leb (length cs) most

unfoldable pub matches_grant_id : String → Bool
matches_grant_id value = all is_grant_char (codes value) && has_length 1 128 (codes value)

unfoldable pub matches_identifier : String → Bool
matches_identifier value = all is_identifier_char (codes value) && has_length 1 128 (codes value)

-- /^[0-9a-f]{64}$/
abbrev pub is_hex_char : ℕ → Bool
is_hex_char c = is_digit c || (leb b'a' c && leb c b'f')

unfoldable pub matches_digest : String → Bool
matches_digest value = all is_hex_char (codes value) && has_length 64 64 (codes value)

-- [A-Za-z0-9_-]
abbrev pub is_segment_char : ℕ → Bool
is_segment_char c = is_letter c || (is_digit c || (eqb c b'_' || eqb c b'-'))

-- /^(\/[A-Za-z0-9_-]{1,32}){1,8}$/, with the segments begun so far, and the characters in the last.
unfoldable pub matches_segments : List ℕ → ℕ → ℕ → Bool
matches_segments [] begun size = leb 1 begun && leb 1 size
matches_segments (c ∷ cs) begun size =
    let next = matches_segments cs (suc begun) 0 in
    let same = matches_segments cs begun (suc size) in
    if eqb c b'/'
    then (eqb begun 0 || leb 1 size) && (ltb begun 8 && next)
    else is_segment_char c && (leb 1 begun && (ltb size 32 && same))

unfoldable pub matches_resource : String → Bool
unfolding matches_segments
matches_resource value = matches_segments (codes value) 0 0

-- [a-z0-9]
abbrev pub is_edge_char : ℕ → Bool
is_edge_char c = is_digit c || (leb b'a' c && leb c b'z')

abbrev pub ends_well : List ℕ → Bool
ends_well [] = false
ends_well (c ∷ []) = is_edge_char c
ends_well (c ∷ d ∷ cs) = (is_edge_char c || eqb c b'-') && ends_well (d ∷ cs)

-- /^[a-z0-9](?:[a-z0-9-]{0,62}[a-z0-9])?$/
abbrev pub matches_dataset_codes : List ℕ → Bool
matches_dataset_codes [] = false
matches_dataset_codes (c ∷ cs) = is_edge_char c && (ends_well (c ∷ cs) && leb (length cs) 63)

unfoldable pub matches_dataset_id : String → Bool
matches_dataset_id value = matches_dataset_codes (codes value)

-- The UTF-16 units of a text.
unfoldable pub utf16_length : List ℕ → ℕ
utf16_length [] = 0
utf16_length (c ∷ cs) = (if ltb c 65536 then 1 else 2) + utf16_length cs

-- `isBoundedString`
unfoldable pub is_bounded : String → Bool
unfolding utf16_length
is_bounded value = leb 1 (utf16_length (codes value)) && leb (utf16_length (codes value)) 256
