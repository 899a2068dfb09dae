-- ===== src/Vectors/Build.antt =====
-- The request of a vector: `to_request_for` of crates/vectors/src/lib.rs.
use crucible_prover.Base.{
  ◌||◌, List, [], ◌∷◌, ◌++◌, map, Text, codes, Result, ok, expect, ◌==◌, nat_eq, text_eq,
  if◌then◌else◌, ◌>>=◌,
}
use crucible_prover.Bag.{PrivateWitnessBag}
use crucible_prover.Bag.Private
use crucible_prover.Circuit.{operation_eq, v0_1}
use crucible_prover.Field.{field_value_eq, secret_from_hex}
use crucible_prover.Request.{BackendId, ProofRequest, backend_id, mock_id}
use crucible_prover.Vectors.{TestVector}

-- The loop of `to_request_for`; its `expect`s panic on a value or a name that is refused.
unfoldable pub collect_secrets :
    {E : Type 0} → PrivateWitnessBag → List (Text × Text) → Result E PrivateWitnessBag
collect_secrets bag [] = ok bag
collect_secrets bag ((name, hex) ∷ entries) = do
  secret ← expect (secret_from_hex hex)
  next ← expect (Private.insert bag name secret)
  collect_secrets next entries

-- `id.replace(['/', '\\'], "-")`
unfoldable pub request_name : TestVector → Text
request_name v = codes "vector-" ++ map (λ c. if c == b'/' || c == 0x5C then b'-' else c) v.id

abbrev pub request_of : TestVector → PrivateWitnessBag → BackendId → ProofRequest
request_of v witness backend = record {
  request_id = record { id = request_name v };
  operation = v.operation;
  circuit = v.circuit;
  circuit_version = v.circuit_version;
  artifact_version = v0_1;
  backend = backend;
  witness = witness;
  public_inputs = v.witness.public;
  state_reference = v.state_reference;
}

-- `TestVector::to_request_for`
unfoldable pub to_request_for : {E : Type 0} → TestVector → Text → Result E ProofRequest
to_request_for v backend = do
  witness ← collect_secrets Private.new v.witness.private
  id ← expect (backend_id backend)
  ok (request_of v witness id)

-- `TestVector::to_request`
unfoldable pub to_request : {E : Type 0} → TestVector → Result E ProofRequest
to_request v = to_request_for v mock_id
