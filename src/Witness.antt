-- ===== src/Witness.antt =====
-- Witness assembly and structural validation: crates/witness/src/builder.rs and
-- crates/witness/src/validation.rs.
pub mod Assembly
pub mod Toml
pub mod Scrub
pub mod File
use crucible_prover.Base.{
  ℕ, Bool, true, false, not, List, [], ◌∷◌, ◌++◌, Option, none, some, Text, codes, Result, ok, err,
  map_err, is_ok, ◌==◌, nat_eq, if◌then◌else◌, ◌>>=◌, find?,
}
use crucible_prover.Bag
use crucible_prover.Bag.{PublicInputBag, PrivateWitnessBag}
use crucible_prover.Bag.Private
use crucible_prover.Circuit.{Operation, register, deposit, merge, transfer, withdraw}
use crucible_prover.Field.{FieldError, FieldValue, SecretValue}
use crucible_prover.Request.{ProofRequest, is_none}

pub data WitnessSide : Type 0 where
  public private : WitnessSide

pub data WitnessError : Type 0 where
  missing_required : Operation → WitnessSide → Text → WitnessError
  overlap : Text → WitnessError
  operation_mismatch : Operation → Operation → WitnessError
  invalid_value : FieldError → WitnessError
  io : Text → WitnessError
  encoding : Text → WitnessError

pub record WitnessData : Type 0 where
  pub operation : Operation
  pub public_inputs : PublicInputBag
  pub private_values : PrivateWitnessBag

-- `WitnessData::from_request`.
unfoldable pub from_request : ProofRequest → WitnessData
from_request r = record {
  operation = r.operation;
  public_inputs = r.public_inputs;
  private_values = r.witness;
}

unfoldable pub private_count : WitnessData → ℕ
private_count d = Private.len d.private_values

pub record WitnessAssembler : Type 0 where
  pub operation : Operation
  pub public_inputs : PublicInputBag
  pub private_values : PrivateWitnessBag
  pub required_public : List Text
  pub required_private : List Text

-- `WitnessAssembler::for_operation`.
unfoldable pub assembler_for : Operation → WitnessAssembler
assembler_for op = record {
  operation = op;
  public_inputs = Bag.new;
  private_values = Private.new;
  required_public = [];
  required_private = [];
}

unfoldable pub with_operation : WitnessAssembler → Operation → WitnessAssembler
with_operation a op = record a { operation = op }

unfoldable pub with_public :
    WitnessAssembler → Text → FieldValue → Result WitnessError WitnessAssembler
with_public a name value = do
  bag ← map_err invalid_value (Bag.insert a.public_inputs name value)
  ok (record a { public_inputs = bag })

unfoldable pub with_private :
    WitnessAssembler → Text → SecretValue → Result WitnessError WitnessAssembler
with_private a name value = do
  bag ← map_err invalid_value (Private.insert a.private_values name value)
  ok (record a { private_values = bag })

unfoldable pub requires_public : WitnessAssembler → Text → WitnessAssembler
requires_public a name = record a { required_public = a.required_public ++ name ∷ [] }

unfoldable pub requires_private : WitnessAssembler → Text → WitnessAssembler
requires_private a name = record a { required_private = a.required_private ++ name ∷ [] }

-- A loop that fails at the first name that passes the test.
abbrev pub refuse_first :
    (Text → Bool) → (Text → WitnessError) → List Text → Result WitnessError (Unit {0})
refuse_first p e [] = ok tt
refuse_first p e (name ∷ names) = if p name then err (e name) else refuse_first p e names

-- The names of the public side that the private side has too.
unfoldable pub refuse_overlap : PublicInputBag → PrivateWitnessBag → Result WitnessError (Unit {0})
refuse_overlap shown hidden =
    refuse_first (λ name. not (is_none (Private.get hidden name))) overlap (Bag.names shown)

unfoldable pub assemble : WitnessAssembler → Result WitnessError WitnessData
assemble a = do
  _ ←
      refuse_first (λ name. is_none (Bag.get a.public_inputs name))
        (missing_required a.operation public) a.required_public
  _ ←
      refuse_first (λ name. is_none (Private.get a.private_values name))
        (missing_required a.operation private) a.required_private
  _ ← refuse_overlap a.public_inputs a.private_values
  ok (record {
    operation = a.operation;
    public_inputs = a.public_inputs;
    private_values = a.private_values;
  })

-- `WitnessValidation::validate`.
unfoldable pub validate : WitnessData → Result WitnessError (Unit {0})
validate d =
    if Bag.is_empty d.public_inputs
    then err (missing_required d.operation public (codes "<any>"))
    else if private_count d == 0
    then err (missing_required d.operation private (codes "<any>"))
    else refuse_overlap d.public_inputs d.private_values

-- `WitnessValidation::is_valid`.
unfoldable pub is_valid : WitnessData → Bool
is_valid d = is_ok (validate d)

unfoldable pub requires_state_binding : Operation → Bool
requires_state_binding transfer = true
requires_state_binding merge = true
requires_state_binding withdraw = true
requires_state_binding register = false
requires_state_binding deposit = false
