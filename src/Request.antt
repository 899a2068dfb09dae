-- ===== src/Request.antt =====
-- Proof requests: interfaces/src/proof_provider/request.rs. The children prove what `validate`
-- accepts, and how the two root halves determine the root.
pub mod Root
pub mod RootBytes
pub mod Redacted
pub mod Validation
use crucible_prover.Base.{
  ℕ, Bool, true, false, not, ◌&&◌, ◌||◌, List, [], ◌∷◌, Option, none, some, Text, Bytes, codes,
  Result, ok, err, panicked, ltb, ◌==◌, Eq, nat_eq, text_eq, if◌then◌else◌, is_empty, all, len, map,
  replicate, split_at, is_ascii_alphanumeric, is_ascii_hexdigit, to_ascii_lowercase, ◌>>=◌, expect,
  ℕ_discrete,
}
use crucible_prover.Field.{FieldError, FieldValue, field_value_eq, from_hex, strip_0x}
use crucible_prover.Bag
use crucible_prover.Bag.{PublicInputBag, PrivateWitnessBag}
use crucible_prover.Bag.Private
use crucible_prover.Circuit.{
  Operation, register, deposit, merge, transfer, withdraw, CircuitId, Version,
}

pub record RequestId : Type 0 where
  pub id : Text

pub record BackendId : Type 0 where
  pub id : Text

unfoldable pub BackendId-discrete : Discrete BackendId
BackendId-discrete = hlevel ℕ_discrete

instance abbrev pub backend_id_eq : Eq BackendId
backend_id_eq = record { discrete = BackendId-discrete }

abbrev pub mock_id : Text
mock_id = codes "mock"

abbrev pub ultrahonk_id : Text
ultrahonk_id = codes "ultrahonk"

pub data BackendIdError : Type 0 where
  invalid_length invalid_characters : BackendIdError

unfoldable pub is_backend_char : ℕ → Bool
is_backend_char b = is_ascii_alphanumeric b || (b == b'-' || b == b'_')

-- `BackendId::new`.
unfoldable pub backend_id : Text → Result BackendIdError BackendId
backend_id id =
    if is_empty id || ltb 64 (len id)
    then err invalid_length
    else if not (all is_backend_char id)
    then err invalid_characters
    else ok (record { id = id })

pub record RootDigest : Type 0 where
  pub hex : Text

pub data RootDigestError : Type 0 where
  not_256_bit_hex : RootDigestError

-- `RootDigest::zero`.
unfoldable pub zero_root : RootDigest
zero_root = record { hex = replicate 64 b'0' }

-- `RootDigest::from_hex`.
unfoldable pub root_from_hex : Text → Result RootDigestError RootDigest
root_from_hex hex =
    let s = strip_0x hex in
    if not (len s == 64) || not (all is_ascii_hexdigit s)
    then err not_256_bit_hex
    else ok (record { hex = map to_ascii_lowercase s })

pub record StateReference : Type 0 where
  pub root : RootDigest
  pub sequence : ℕ
  pub label : Option Text

unfoldable pub StateReference-discrete : Discrete StateReference
StateReference-discrete = hlevel ℕ_discrete

instance abbrev pub state_reference_eq : Eq StateReference
state_reference_eq = record { discrete = StateReference-discrete }

-- `StateReference::new`.
unfoldable pub state_reference : RootDigest → ℕ → StateReference
state_reference root sequence = record { root = root; sequence = sequence; label = none }

unfoldable pub with_label : RootDigest → ℕ → Text → StateReference
with_label root sequence label = record { root = root; sequence = sequence; label = some label }

-- The slices `&hex[..32]` and `&hex[32..]`, which panic where byte 32 is no boundary.
halves_of : {E : Type 0} → Option (Text × Text) → Result E (FieldValue × FieldValue)
halves_of none = panicked
halves_of (some (high, low)) = do
  hi ← expect (from_hex high)
  lo ← expect (from_hex low)
  ok (hi, lo)

unfoldable pub root_halves : {E : Type 0} → StateReference → Result E (FieldValue × FieldValue)
unfolding halves_of
root_halves state = halves_of (split_at 32 state.root.hex)

pub data WitnessError : Type 0 where
  missing_witness : Operation → WitnessError
  missing_public_inputs : Operation → WitnessError
  missing_state_reference : Operation → WitnessError
  state_root_mismatch : WitnessError
  invalid_value : FieldError → WitnessError

pub record ProofRequest : Type 0 where
  pub request_id : RequestId
  pub operation : Operation
  pub circuit : CircuitId
  pub circuit_version : Version
  pub artifact_version : Version
  pub backend : BackendId
  pub witness : PrivateWitnessBag
  pub public_inputs : PublicInputBag
  pub state_reference : Option StateReference

-- `matches!(operation, Transfer | Merge | Withdraw)`.
unfoldable pub is_state_bound : Operation → Bool
is_state_bound transfer = true
is_state_bound merge = true
is_state_bound withdraw = true
is_state_bound register = false
is_state_bound deposit = false

-- The comparison of the root halves, where the request has a state and both halves.
unfoldable pub check_root :
    Option StateReference → Option FieldValue → Option FieldValue → Result WitnessError (Unit {0})
check_root (some state) (some hi) (some lo) = do
  expected ← root_halves state
  if not (hi == expected.0) || not (lo == expected.1) then err state_root_mismatch else ok tt
check_root _ _ _ = ok tt

abbrev pub is_none : {A : Type 0} → Option A → Bool
is_none none = true
is_none (some a) = false

unfoldable pub validate : ProofRequest → Result WitnessError (Unit {0})
validate r =
    if Private.is_empty r.witness
    then err (missing_witness r.operation)
    else if Bag.is_empty r.public_inputs
    then err (missing_public_inputs r.operation)
    else if is_state_bound r.operation && is_none r.state_reference
    then err (missing_state_reference r.operation)
    else check_root r.state_reference (Bag.get r.public_inputs (codes "root_hi"))
        (Bag.get r.public_inputs (codes "root_lo"))
