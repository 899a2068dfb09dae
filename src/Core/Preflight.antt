-- ===== src/Core/Preflight.antt =====
-- Which names a request must carry: crates/prover-core/src/witness.rs.
use crucible_prover.Base.{
  Bool, true, false, List, Text, is_empty, retain, ◌≡◌, ◌↔◌, Option, All, retain_none,
}
use crucible_prover.Bag
use crucible_prover.Bag.Private
use crucible_prover.Circuit.{Operation}
use crucible_prover.Expectations.{expectations, private_names}
use crucible_prover.Request.{ProofRequest, is_none}

unfoldable pub required_private_names : Operation → List Text
required_private_names operation = private_names operation

unfoldable pub required_public_names : Operation → List Text
required_public_names operation = (expectations operation).public_params

unfoldable pub missing_private_names : ProofRequest → List Text
missing_private_names r =
    retain (λ name. is_none (Private.get r.witness name)) (required_private_names r.operation)

unfoldable pub missing_public_names : ProofRequest → List Text
missing_public_names r =
    retain (λ name. is_none (Bag.get r.public_inputs name)) (required_public_names r.operation)

unfoldable pub has_required_witness : ProofRequest → Bool
has_required_witness r = is_empty (missing_private_names r)

unfoldable pub has_required_public_inputs : ProofRequest → Bool
has_required_public_inputs r = is_empty (missing_public_names r)

abbrev pub IsPresent : {A : Type 0} → Option A → Type 0
IsPresent o = is_none o ≡ false

-- Nothing is missing exactly when every private parameter of the circuit is in the witness and
-- every public one among the inputs.
pub has_required_iff :
    (r : ProofRequest)
    → ((has_required_witness r ≡ true)
        ↔ All (λ n. IsPresent (Private.get r.witness n)) (expectations r.operation).private)
      × ((has_required_public_inputs r ≡ true)
          ↔ All
              (λ n. IsPresent (Bag.get r.public_inputs n))
              (expectations r.operation).public_params)
unfolding has_required_witness has_required_public_inputs missing_private_names missing_public_names
    required_private_names required_public_names private_names
has_required_iff r = (
  retain_none (λ name. is_none (Private.get r.witness name)) (expectations r.operation).private,
  retain_none (λ name. is_none (Bag.get r.public_inputs name))
      (expectations r.operation).public_params,
)
