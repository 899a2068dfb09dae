-- ===== src/Vectors/Load.antt =====
-- Reading a vector's file: `load` of crates/vectors/src/lib.rs.
use crucible_prover.Base.{
  Bool, ◌++◌, Option, Text, codes, Result, ok, map_err, nat_eq, text_eq, ◌>>=◌,
}
use crucible_prover.Bag.{PublicInputBag}
use crucible_prover.Circuit.{Operation, operation_eq, CircuitId, Version}
use crucible_prover.Field.{FieldError, field_value_eq}
use crucible_prover.Machine.{FilePath, display, Machine}
use crucible_prover.Request.{StateReference}
use crucible_prover.Vectors.{
  RawBag, RawWitness, VectorWitness, TestVector, into_bag, into_witness, validate_structure,
}

-- A vector as its file has it.
pub record RawVector : Type 0 where
  pub id : Text
  pub operation : Operation
  pub category : Text
  pub description : Option Text
  pub circuit : CircuitId
  pub circuit_version : Version
  pub witness : RawWitness
  pub expected_outputs : RawBag
  pub state_reference : Option StateReference
  pub expect_verification : Bool

abbrev pub vector_of : RawVector → VectorWitness → PublicInputBag → TestVector
vector_of raw witness outputs = record {
  id = raw.id;
  operation = raw.operation;
  category = raw.category;
  description = raw.description;
  circuit = raw.circuit;
  circuit_version = raw.circuit_version;
  witness = witness;
  expected_public_outputs = outputs;
  state_reference = raw.state_reference;
  expect_verification = raw.expect_verification;
}

abbrev pub in_file : FilePath → Text → Text
in_file path e = e ++ (codes " (in `" ++ (display path ++ codes "`)"))

-- `TestVector::load`; `from_str` is `serde_json::from_str`.
unfoldable pub load_vector :
    {S : Type 0}
    → Machine S
    → (Text → Result Text RawVector)
    → (FieldError → Text)
    → S
    → FilePath
    → Result Text TestVector
load_vector m from_str reason s path = do
  text ←
      map_err (λ e. codes "cannot read `" ++ (display path ++ (codes "`: " ++ e)))
        (m.read_to_string s path)
  raw ←
      map_err (λ e. codes "`" ++ (display path ++ (codes "` is not a valid test vector: " ++ e)))
        (from_str text)
  let context = codes "vector `" ++ (raw.id ++ codes "`")
  witness ← map_err (in_file path) (into_witness reason raw.witness context)
  outputs ←
      map_err (in_file path)
        (into_bag reason raw.expected_outputs (context ++ codes ": expected_public_outputs"))
  _ ← map_err (in_file path) (validate_structure (vector_of raw witness outputs))
  ok (vector_of raw witness outputs)
