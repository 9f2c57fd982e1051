-- ===== src/Validation.antt =====
-- packages/mandate/src: the validation of untrusted JSON values. A value is what JSON.parse returns;
-- the keys of an object are distinct. A number that is no natural number is `other_number`: it is
-- negative, fractional or not finite.
pub mod Patterns
pub mod Operation
pub mod Permit
pub mod Request
pub mod Rules
pub mod Accepts
pub mod RoundTrip
pub mod Requests
mod Examples
use virtual_haibin.Prelude.{
  ℕ, String, Bool, true, false, not, ◌&&◌, Option, none, some, List, [], ◌∷◌, any, all, eqb, leb,
  if◌then◌else◌, ◌==◌,
}

mutual
  pub data Json : Type 0 where
    null other_number : Json
    boolean : Bool → Json
    number : ℕ → Json
    text : String → Json
    array : Elements → Json
    object : Fields → Json

  pub data Elements : Type 0 where
    no_elements : Elements
    element : Json → Elements → Elements

  pub data Fields : Type 0 where
    no_more : Fields
    field : String → Json → Fields → Fields

-- `record[name]`; `none` is undefined.
unfoldable pub get : String → Fields → Option Json
get name no_more = none
get name (field key value fields) = if key == name then some value else get name fields

-- That `Object.keys(record).find((key) => !allowed.includes(key))` is undefined.
unfoldable pub has_only : List String → Fields → Bool
has_only allowed no_more = true
has_only allowed (field key value fields) =
    any (λ name. name == key) allowed && has_only allowed fields

-- A result, or what is wrong.
pub data Checked (E A : Type 0) : Type 0 where
  valid : A → Checked E A
  invalid : E → Checked E A

infixl 5 ◌>>=◌ ◌>>◌
unfoldable pub ◌>>=◌ : {E A B : Type 0} → Checked E A → (A → Checked E B) → Checked E B
◌>>=◌ (valid a) f = f a
◌>>=◌ (invalid e) f = invalid e

abbrev pub ◌>>◌ : {E A B : Type 0} → Checked E A → Checked E B → Checked E B
m >> k = m >>= λ _. k

-- `if (!test) return fail(code, …)`
unfoldable pub ensure : {E : Type 0} → Bool → E → Checked E (Unit {0})
ensure true code = valid tt
ensure false code = invalid code

-- A field that is a string which passes a test.
unfoldable pub text_field : {E : Type 0} → (String → Bool) → Option Json → E → Checked E String
text_field test (some (text value)) code = if test value then valid value else invalid code
text_field test _ code = invalid code

-- `isSafeTimestamp`: a positive integer up to 2^53 - 1.
abbrev pub max_safe_integer : ℕ
max_safe_integer = 9007199254740991

abbrev pub is_safe_timestamp : ℕ → Bool
is_safe_timestamp n = leb 1 n && leb n max_safe_integer

unfoldable pub time_field : {E : Type 0} → Option Json → E → Checked E ℕ
time_field (some (number n)) code = if is_safe_timestamp n then valid n else invalid code
time_field _ code = invalid code

-- `value === literal`
unfoldable pub is_number : ℕ → Option Json → Bool
is_number n (some (number m)) = eqb m n
is_number n _ = false

unfoldable pub is_text : String → Option Json → Bool
is_text s (some (text t)) = t == s
is_text s _ = false

unfoldable pub is_false : Option Json → Bool
is_false (some (boolean false)) = true
is_false _ = false
