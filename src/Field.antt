-- ===== src/Field.antt =====
-- Field values and secrets: `FieldError`, `FieldValue`, `SecretValue` and `validate_name` of
-- interfaces/src/circuit/inputs.rs.
pub mod Canonical
pub mod Number
pub mod Describe
use crucible_prover.Base.{
  ℕ, ◌+◌, Bool, true, false, not, ◌&&◌, ◌||◌, List, [], ◌∷◌, Option, none, some, Text, codes, len,
  Result, ok, err, ltb, ◌==◌, Eq, nat_eq, text_eq, if◌then◌else◌, is_empty, all, strip_prefix,
  trim_start_matches, to_ascii_lowercase, is_ascii_hexdigit, is_ascii_lowercase, is_ascii_digit,
  map, ◌>>=◌, ℕ_discrete,
}

pub data FieldError : Type 0 where
  invalid_hex : Text → FieldError
  invalid_name_length : ℕ → FieldError
  invalid_name_characters : FieldError
  duplicate_name : Text → FieldError

pub record FieldValue : Type 0 where
  pub hex : Text

unfoldable pub FieldValue-discrete : Discrete FieldValue
FieldValue-discrete = hlevel ℕ_discrete

instance abbrev pub field_value_eq : Eq FieldValue
field_value_eq = record { discrete = FieldValue-discrete }

abbrev pub max_hex_len : ℕ
max_hex_len = 64

unfoldable pub zero_value : FieldValue
zero_value = record { hex = b'0' ∷ [] }

-- `hex.strip_prefix("0x").unwrap_or(hex)`.
unfoldable pub strip_0x : Text → Text
strip_0x hex = elim (strip_prefix (b'0' ∷ b'x' ∷ []) hex) [ none ↦ hex | some s ↦ s ]

-- The lowercase digits with no leading zero, `0` for none left.
unfoldable pub canonical : Text → Text
canonical s =
    let trimmed = trim_start_matches b'0' (map to_ascii_lowercase s) in
    if is_empty trimmed then b'0' ∷ [] else trimmed

unfoldable pub from_hex : Text → Result FieldError FieldValue
from_hex hex =
    let s = strip_0x hex in
    if is_empty s
    then err (invalid_hex (codes "empty"))
    else if ltb max_hex_len (len s)
    then err (invalid_hex (codes "longer than 64 hex chars"))
    else if not (all is_ascii_hexdigit s)
    then err (invalid_hex (codes "non-hex"))
    else ok (record { hex = canonical s })

unfoldable pub is_zero : FieldValue → Bool
is_zero v = v.hex == b'0' ∷ []

pub record SecretValue : Type 0 where
  pub contents : Text

unfoldable pub SecretValue-discrete : Discrete SecretValue
SecretValue-discrete = hlevel ℕ_discrete

instance abbrev pub secret_value_eq : Eq SecretValue
secret_value_eq = record { discrete = SecretValue-discrete }

unfoldable pub secret_from_hex : Text → Result FieldError SecretValue
secret_from_hex hex = do value ← from_hex hex; ok (record { contents = value.hex })

unfoldable pub into_hex : SecretValue → Text
into_hex secret = secret.contents

-- A character that a name may hold.
unfoldable pub is_name_char : ℕ → Bool
unfolding is_ascii_lowercase is_ascii_digit
is_name_char b = is_ascii_lowercase b || is_ascii_digit b || b == b'_'

unfoldable pub validate_name : Text → Result FieldError (Unit {0})
validate_name name =
    if is_empty name || ltb 64 (len name)
    then err (invalid_name_length 64)
    else if not (all is_name_char name)
    then err invalid_name_characters
    else ok tt
