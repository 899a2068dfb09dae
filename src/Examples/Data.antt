-- ===== src/Examples/Data.antt =====
-- Inputs for the examples.
use crucible_prover.Base.{
  false, [], ◌∷◌, none, some, Text, codes, len, ok, text_eq, nat_eq, ◌≡◌, refl, arith, strip_prefix,
  trim_start_matches, to_ascii_lowercase, is_ascii_hexdigit, is_ascii_lowercase, is_ascii_digit,
  ℕ_discrete, List_ℕ-discrete, replicate,
}
use crucible_prover.Bag
use crucible_prover.Bag.{Bag, PublicInputBag, has}
use crucible_prover.Bag.Lookup.{IsWellFormed}
use crucible_prover.Bag.Private
use crucible_prover.Circuit.{Version, v0_1, register, merge}
use crucible_prover.Circuit.VersionText.{FitsU32}
use crucible_prover.Core.Preflight.{
  missing_private_names, missing_public_names, required_private_names, required_public_names,
}
use crucible_prover.Core.Service.{preflight}
use crucible_prover.Expectations.{expectations, private_names}
use crucible_prover.Field.{FieldValue, from_hex, strip_0x, canonical, validate_name, is_name_char}
use crucible_prover.Field.Canonical.{IsCanonical}
use crucible_prover.Mock.{mock_backend}
use crucible_prover.Request.{
  ProofRequest, RootDigest, StateReference, validate, is_state_bound, check_root,
}
use crucible_prover.Request.Root.{IsDigest}

abbrev pub value_ab : FieldValue
value_ab = record { hex = codes "ab" }

abbrev pub padded_ab : Text
padded_ab = codes "0x00Ab"

abbrev pub plain_ab : Text
plain_ab = codes "aB"

pub read_padded : from_hex padded_ab ≡ ok value_ab
unfolding from_hex strip_0x canonical strip_prefix trim_start_matches to_ascii_lowercase
    is_ascii_hexdigit ℕ_discrete List_ℕ-discrete len
read_padded = refl

pub read_plain : from_hex plain_ab ≡ ok value_ab
unfolding from_hex strip_0x canonical strip_prefix trim_start_matches to_ascii_lowercase
    is_ascii_hexdigit ℕ_discrete List_ℕ-discrete len
read_plain = refl

pub value_ab-IsCanonical : IsCanonical value_ab
value_ab-IsCanonical = record { digits = refl; minimal = ground arith; bounded = omega arith }

abbrev pub one_input : PublicInputBag
one_input = record { entries = (codes "token", value_ab) ∷ [] }

abbrev pub two_inputs : PublicInputBag
two_inputs = record { entries = (codes "token", value_ab) ∷ (codes "nonce", value_ab) ∷ [] }

pub validate_token : validate_name (codes "token") ≡ ok tt
unfolding validate_name is_name_char is_ascii_lowercase is_ascii_digit ℕ_discrete len
validate_token = refl

pub validate_nonce : validate_name (codes "nonce") ≡ ok tt
unfolding validate_name is_name_char is_ascii_lowercase is_ascii_digit ℕ_discrete len
validate_nonce = refl

distinct_names : has (codes "token") ((codes "nonce", value_ab) ∷ []) ≡ false
unfolding List_ℕ-discrete ℕ_discrete
distinct_names = refl

pub one_input-IsWellFormed : IsWellFormed one_input
one_input-IsWellFormed = record { valid = (validate_token, tt); distinct = (refl, tt) }

pub insert_nonce : Bag.insert one_input (codes "nonce") value_ab ≡ ok two_inputs
unfolding Bag.insert validate_name is_name_char is_ascii_lowercase is_ascii_digit ℕ_discrete len
    List_ℕ-discrete
insert_nonce = refl

pub set_token : Bag.set two_inputs (codes "token") value_ab ≡ ok two_inputs
unfolding Bag.set validate_name is_name_char is_ascii_lowercase is_ascii_digit ℕ_discrete len
    List_ℕ-discrete
set_token = refl

abbrev pub version_123 : Version
version_123 = record { major = 1; minor = 20; patch = 3 }

pub version_123-FitsU32 : FitsU32 version_123
version_123-FitsU32 = record {
  major_fits = omega arith;
  minor_fits = omega arith;
  patch_fits = omega arith;
}

pub two_inputs-IsWellFormed : IsWellFormed two_inputs
two_inputs-IsWellFormed = record {
  valid = (validate_token, (validate_nonce, tt));
  distinct = (distinct_names, (refl, tt));
}

abbrev pub register_request : ProofRequest
register_request = record {
  request_id = record { id = codes "r1" };
  operation = register;
  circuit = record { id = codes "register" };
  circuit_version = v0_1;
  artifact_version = v0_1;
  backend = mock_backend;
  witness = record { entries = (codes "account_sk", record { contents = codes "7" }) ∷ [] };
  public_inputs = record { entries = (codes "account_address", value_ab) ∷ [] };
  state_reference = none;
}

pub validate_register : validate register_request ≡ ok tt
unfolding validate is_state_bound check_root Private.is_empty Bag.is_empty Bag.get List_ℕ-discrete
    ℕ_discrete
validate_register = refl

pub preflight_register : preflight register_request ≡ ok tt
unfolding preflight missing_private_names missing_public_names required_private_names
    required_public_names private_names expectations Private.get Bag.get List_ℕ-discrete ℕ_discrete
preflight_register = rw validate_register refl

abbrev pub root_of_ones : RootDigest
root_of_ones = record { hex = replicate 64 b'1' }

pub root_of_ones-IsDigest : IsDigest root_of_ones
root_of_ones-IsDigest = record { whole = refl; digits = refl }

abbrev pub state_of_ones : StateReference
state_of_ones = record { root = root_of_ones; sequence = 5; label = none }

-- Its root halves are not those of the state.
abbrev pub merge_request : ProofRequest
merge_request = record {
  request_id = record { id = codes "r2" };
  operation = merge;
  circuit = record { id = codes "merge" };
  circuit_version = v0_1;
  artifact_version = v0_1;
  backend = mock_backend;
  witness = record { entries = (codes "account_sk", record { contents = codes "7" }) ∷ [] };
  public_inputs = record {
    entries = (codes "root_hi", value_ab) ∷ (codes "root_lo", value_ab) ∷ [];
  };
  state_reference = some state_of_ones;
}
