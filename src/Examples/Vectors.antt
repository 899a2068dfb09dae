-- ===== src/Examples/Vectors.antt =====
-- An example for test vectors.
use crucible_prover.Base.{
  true, [], ◌∷◌, none, some, codes, ok, ◌≡◌, refl, replicate, len, ℕ_discrete, List_ℕ-discrete,
  split_at, strip_prefix, trim_start_matches, to_ascii_lowercase, is_ascii_hexdigit,
  is_ascii_lowercase, is_ascii_digit, is_ascii_alphanumeric, All,
}
use crucible_prover.Bag
use crucible_prover.Bag.{Distinct}
use crucible_prover.Circuit.{transfer, v0_1, as_str, Operation-discrete}
use crucible_prover.Field.{
  FieldValue, from_hex, strip_0x, canonical, validate_name, is_name_char, secret_from_hex,
  FieldValue-discrete,
}
use crucible_prover.Request.{
  ProofRequest, WitnessError, backend_id, is_backend_char, mock_id, is_state_bound, root_halves,
  validate,
}
use crucible_prover.Vectors.{
  TestVector, check_operation, check_apart, check_category, check_halves, check_vector_state,
  check_bound, check_outputs, validate_structure,
}
use crucible_prover.Vectors.Build.{to_request_for}
use crucible_prover.Vectors.Requests.{IsReadable, to_request_for-valid}

abbrev half : FieldValue
half = record { hex = replicate 32 b'1' }

abbrev vector : TestVector
vector = record {
  id = codes "transfer/1";
  operation = transfer;
  category = codes "valid";
  description = none;
  circuit = record { id = codes "transfer" };
  circuit_version = v0_1;
  witness = record {
    operation = transfer;
    private = (codes "amount", codes "2a") ∷ [];
    public = record { entries = (codes "root_hi", half) ∷ (codes "root_lo", half) ∷ [] };
  };
  expected_public_outputs = record { entries = [] };
  state_reference =
      some (record { root = record { hex = replicate 64 b'1' }; sequence = 1; label = none });
  expect_verification = true;
}

vector_valid : validate_structure vector ≡ ok tt
unfolding validate_structure check_operation check_apart check_category check_bound
    check_vector_state check_halves check_outputs Bag.names Bag.get as_str is_state_bound
    root_halves split_at from_hex strip_0x canonical strip_prefix trim_start_matches
    to_ascii_lowercase is_ascii_hexdigit Operation-discrete FieldValue-discrete len ℕ_discrete
    List_ℕ-discrete
vector_valid = refl

vector_bound : is_state_bound vector.operation ≡ true
unfolding is_state_bound
vector_bound = refl

vector-IsReadable : All IsReadable vector.witness.private
unfolding validate_name is_name_char is_ascii_lowercase is_ascii_digit secret_from_hex from_hex
    strip_0x canonical strip_prefix trim_start_matches to_ascii_lowercase is_ascii_hexdigit len
    ℕ_discrete List_ℕ-discrete
vector-IsReadable = ((refl, record { contents = codes "2a" }, refl), tt)

mock_valid : backend_id mock_id ≡ ok (record { id = mock_id })
unfolding backend_id is_backend_char is_ascii_alphanumeric len ℕ_discrete
mock_valid = refl

to_request_for-valid_example :
    (r : ProofRequest) × (to_request_for {E = WitnessError} vector mock_id ≡ ok r)
    × (r.public_inputs ≡ vector.witness.public)
    × (validate r ≡ ok tt)
to_request_for-valid_example =
    to_request_for-valid vector mock_id {id = record { id = mock_id }} vector_valid vector_bound
      vector-IsReadable (refl, tt) mock_valid
