-- ===== src/Vectors.antt =====
-- Test vectors and their structure, of crates/vectors/src/lib.rs.
pub mod Load
pub mod Build
pub mod Requests
pub mod Catalog
use crucible_prover.Base.{
  ℕ, Bool, true, false, not, ◌&&◌, ◌||◌, List, [], ◌∷◌, ◌++◌, map, Option, none, some, Text, codes,
  Result, ok, err, panicked, map_err, expect, ok_or, ◌==◌, nat_eq, text_eq, if◌then◌else◌, ◌>>=◌,
  any, is_empty,
}
use crucible_prover.Bag
use crucible_prover.Bag.{PublicInputBag, PrivateWitnessBag, has}
use crucible_prover.Bag.Private
use crucible_prover.Circuit.{Operation, operation_eq, register, as_str, CircuitId, Version, v0_1}
use crucible_prover.Field.{
  FieldError, FieldValue, field_value_eq, from_hex, secret_from_hex, into_hex,
}
use crucible_prover.Machine.{FilePath, display, Machine}
use crucible_prover.Request.{
  BackendId, StateReference, ProofRequest, root_halves, is_state_bound, backend_id, mock_id,
}

-- The entries of a bag as a vector's file has them.
pub record RawBag : Type 0 where
  pub entries : List (Text × Text)

-- The private values are in the order of their names, as a `BTreeMap` has them.
pub record RawWitness : Type 0 where
  pub operation : Operation
  pub private : List (Text × Text)
  pub public : RawBag

pub record VectorWitness : Type 0 where
  pub operation : Operation
  pub private : List (Text × Text)
  pub public : PublicInputBag

pub record TestVector : Type 0 where
  pub id : Text
  pub operation : Operation
  pub category : Text
  pub description : Option Text
  pub circuit : CircuitId
  pub circuit_version : Version
  pub witness : VectorWitness
  pub expected_public_outputs : PublicInputBag
  pub state_reference : Option StateReference
  pub expect_verification : Bool

abbrev pub reject_categories : List Text
reject_categories =
    codes "invalid"
    ∷ codes "wrong-owner"
    ∷ codes "insufficient-balance"
    ∷ codes "stale-state"
    ∷ codes "malformed-proof"
    ∷ codes "replay"
    ∷ []

abbrev pub known_categories : List Text
known_categories =
    codes "valid"
    ∷ codes "invalid"
    ∷ codes "insufficient-balance"
    ∷ codes "wrong-owner"
    ∷ codes "stale-state"
    ∷ codes "malformed-proof"
    ∷ codes "replay"
    ∷ codes "state-transition"
    ∷ codes "commitment"
    ∷ []

abbrev pub is_among : List Text → Text → Bool
is_among categories category = any (λ c. c == category) categories

-- `reason` is the text of a field error.
module _ (reason : FieldError → Text) where
  -- The loop of `RawBag::into_bag`.
  unfoldable pub collect_bag :
      Text → PublicInputBag → List (Text × Text) → Result Text PublicInputBag
  collect_bag context bag [] = ok bag
  collect_bag context bag ((name, hex) ∷ entries) = do
    value ←
        map_err (λ e. context ++ (codes ": field `" ++ (name ++ (codes "`: " ++ reason e))))
          (from_hex hex)
    next ← map_err (λ e. context ++ (codes ": " ++ reason e)) (Bag.insert bag name value)
    collect_bag context next entries

  -- `RawBag::into_bag`
  unfoldable pub into_bag : RawBag → Text → Result Text PublicInputBag
  into_bag raw context = collect_bag context Bag.new raw.entries

  -- The loop of `RawWitness::into_witness`.
  unfoldable pub collect_private : Text → List (Text × Text) → Result Text (List (Text × Text))
  collect_private context [] = ok []
  collect_private context ((name, hex) ∷ entries) = do
    value ←
        map_err (λ e. context ++ (codes ": secret `" ++ (name ++ (codes "`: " ++ reason e))))
          (secret_from_hex hex)
    rest ← collect_private context entries
    ok ((name, into_hex value) ∷ rest)

  -- `RawWitness::into_witness`
  unfoldable pub into_witness : RawWitness → Text → Result Text VectorWitness
  into_witness raw context = do
    private ← collect_private context raw.private
    public ← into_bag raw.public (context ++ codes ": public inputs")
    ok (record { operation = raw.operation; private = private; public = public })

unfoldable pub ctx : TestVector → Text → Text
ctx v msg = codes "vector `" ++ (v.id ++ (codes "`: " ++ msg))

-- The loop over the public names.
unfoldable pub check_apart : TestVector → List Text → Result Text (Unit {0})
check_apart v [] = ok tt
check_apart v (name ∷ names) =
    if has name v.witness.private
    then err (
        ctx v
          (codes "name `" ++ (name ++ codes "` appears in both private witness and public inputs")))
    else check_apart v names

-- The checks before the names.
unfoldable pub check_operation : TestVector → Result Text (Unit {0})
check_operation v =
    if not (is_among known_categories v.category)
    then err (ctx v (codes "unknown category `" ++ (v.category ++ codes "`")))
    else if not (v.circuit.id == as_str v.operation)
    then err (
        ctx v (
          codes "circuit `"
          ++ (v.circuit.id
              ++ (codes "` does not match operation `" ++ (as_str v.operation ++ codes "`")))))
    else if not (v.witness.operation == v.operation)
    then err (
        ctx v (
          codes "witness operation `"
          ++ (as_str v.witness.operation
              ++ (codes "` does not match vector operation `"
                  ++ (as_str v.operation ++ codes "`")))))
    else if is_empty v.witness.private
    then err (ctx v (codes "operation requires a non-empty private witness"))
    else ok tt

-- The category against the expectation.
unfoldable pub check_category : TestVector → Result Text (Unit {0})
check_category v =
    if v.category == codes "valid" && not v.expect_verification
    then err (ctx v (codes "category `valid` requires expect_verification=true"))
    else if is_among reject_categories v.category && v.expect_verification
    then err
        (ctx v (codes "category `" ++ (v.category ++ codes "` requires expect_verification=false")))
    else ok tt

-- The words of the root against its halves.
unfoldable pub check_halves :
    TestVector → FieldValue → FieldValue → FieldValue × FieldValue → Result Text (Unit {0})
check_halves v hi_entry lo_entry (hi, lo) =
    if not (hi_entry == hi)
    then err (
        ctx v (
          codes "`root_hi` ("
          ++ (hi_entry.hex
              ++ (codes ") does not match the state root's high half (" ++ (hi.hex ++ codes ")")))))
    else if not (lo_entry == lo)
    then err (
        ctx v (
          codes "`root_lo` ("
          ++ (lo_entry.hex
              ++ (codes ") does not match the state root's low half (" ++ (lo.hex ++ codes ")")))))
    else ok tt

unfoldable pub check_vector_state : TestVector → Result Text (Unit {0})
check_vector_state v = do
  state ←
      ok_or
        (ctx v (codes "operation " ++ (as_str v.operation ++ codes " requires a state reference")))
        v.state_reference
  halves ← root_halves state
  hi_entry ←
      ok_or (ctx v (codes "state-bound operation must expose `root_hi` as a public input"))
        (Bag.get v.witness.public (codes "root_hi"))
  lo_entry ←
      ok_or (ctx v (codes "state-bound operation must expose `root_lo` as a public input"))
        (Bag.get v.witness.public (codes "root_lo"))
  check_halves v hi_entry lo_entry halves

unfoldable pub check_bound : TestVector → Bool → Result Text (Unit {0})
check_bound v true = check_vector_state v
check_bound v false = ok tt

unfoldable pub check_outputs : TestVector → Result Text (Unit {0})
check_outputs v =
    if v.operation == register && not (Bag.is_empty v.expected_public_outputs)
    then err (ctx v (codes "register has no public return; expected_public_outputs must be empty"))
    else ok tt

-- `TestVector::validate_structure`
unfoldable pub validate_structure : TestVector → Result Text (Unit {0})
validate_structure v = do
  _ ← check_operation v
  _ ← check_apart v (Bag.names v.witness.public)
  _ ← check_category v
  _ ← check_bound v (is_state_bound v.operation)
  check_outputs v
