-- ===== src/Circuit.antt =====
-- Operations, circuit ids and versions: interfaces/src/circuit/circuit.rs. The laws are in the
-- children Names and VersionText.
pub mod Names
pub mod VersionText
use crucible_prover.Base.{
  ℕ, ◌+◌, ◌%◌, Bool, true, false, not, ◌&&◌, ◌||◌, List, [], ◌∷◌, ◌++◌, Option, none, some, Text,
  codes, Result, ok, err, ok_or, ltb, ◌==◌, Eq, nat_eq, text_eq, if◌then◌else◌, is_empty, all, len,
  is_ascii_alphanumeric, show_u32, read_u32, u32_modulus, split, ◌>>=◌, ℕ_discrete,
}

pub data Operation : Type 0 where
  register deposit merge transfer withdraw : Operation

unfoldable pub Operation-discrete : Discrete Operation
Operation-discrete = hlevel

instance abbrev pub operation_eq : Eq Operation
operation_eq = record { discrete = Operation-discrete }

-- `Operation::as_str`, which `Display` writes too.
unfoldable pub as_str : Operation → Text
as_str register = codes "register"
as_str deposit = codes "deposit"
as_str merge = codes "merge"
as_str transfer = codes "transfer"
as_str withdraw = codes "withdraw"

pub record UnknownOperation : Type 0 where
  pub name : Text

unfoldable pub parse_operation : Text → Result UnknownOperation Operation
parse_operation s =
    if s == codes "register"
    then ok register
    else if s == codes "deposit"
    then ok deposit
    else if s == codes "merge"
    then ok merge
    else if s == codes "transfer"
    then ok transfer
    else if s == codes "withdraw"
    then ok withdraw
    else err (record { name = s })

pub record CircuitId : Type 0 where
  pub id : Text

unfoldable pub CircuitId-discrete : Discrete CircuitId
CircuitId-discrete = hlevel ℕ_discrete

instance abbrev pub circuit_id_eq : Eq CircuitId
circuit_id_eq = record { discrete = CircuitId-discrete }

pub data CircuitIdError : Type 0 where
  invalid_length : ℕ → ℕ → CircuitIdError
  invalid_characters : CircuitIdError

abbrev pub max_len : ℕ
max_len = 128

unfoldable pub for_operation : Operation → CircuitId
for_operation operation = record { id = as_str operation }

unfoldable pub is_id_char : ℕ → Bool
is_id_char c = is_ascii_alphanumeric c || (c == b'-' || (c == b'_' || c == b'.'))

-- `CircuitId::new`.
unfoldable pub circuit_id : Text → Result CircuitIdError CircuitId
circuit_id id =
    if is_empty id || ltb max_len (len id)
    then err (invalid_length (len id) max_len)
    else if not (all is_id_char id)
    then err invalid_characters
    else ok (record { id = id })

-- The components are of 32 bits.
pub record Version : Type 0 where
  pub major : ℕ
  pub minor : ℕ
  pub patch : ℕ

unfoldable pub Version-discrete : Discrete Version
Version-discrete = hlevel ℕ_discrete

instance abbrev pub version_eq : Eq Version
version_eq = record { discrete = Version-discrete }

abbrev pub v0_1 : Version
v0_1 = record { major = 0; minor = 1; patch = 0 }

-- The patch component wraps around, as a build without overflow checks has it.
unfoldable pub bump_patch : Version → Version
bump_patch v = record v { patch = (v.patch + 1) % u32_modulus }

-- `Display`.
unfoldable pub show_version : Version → Text
show_version v = show_u32 v.major ++ b'.' ∷ (show_u32 v.minor ++ b'.' ∷ show_u32 v.patch)

pub data VersionParseError : Type 0 where
  malformed : VersionParseError

three_parts : List Text → Option (Text × Text × Text)
three_parts (a ∷ b ∷ c ∷ []) = some (a, b, c)
three_parts _ = none

version_of : Text × Text × Text → Result VersionParseError Version
version_of (a, b, c) = do
  major ← ok_or malformed (read_u32 a)
  minor ← ok_or malformed (read_u32 b)
  patch ← ok_or malformed (read_u32 c)
  ok (record { major = major; minor = minor; patch = patch })

-- `FromStr`.
unfoldable pub parse_version : Text → Result VersionParseError Version
unfolding three_parts version_of
parse_version s = do parts ← ok_or malformed (three_parts (split b'.' s)); version_of parts
