-- ===== src/Provider.antt =====
-- The seams that backends implement: the traits `ProofProvider` and `Verifier` of
-- interfaces/src/proof_provider/provider.rs and interfaces/src/verifier/verifier.rs, and their errors.
use crucible_prover.Base.{Text, Bool, Result}
use crucible_prover.Circuit.{CircuitId, Version}
use crucible_prover.Request.{BackendId, ProofRequest, WitnessError}
use crucible_prover.Response.{ProofResponse, VerificationRequest, VerificationOutcome}

pub data ProviderError : Type 0 where
  invalid_request : WitnessError → ProviderError
  unsupported_circuit : Text → CircuitId → Version → ProviderError
  artifact_unavailable : Text → CircuitId → Version → ProviderError
  artifact_integrity : CircuitId → Version → ProviderError
  backend_unavailable : Text → Text → ProviderError
  proof_generation : Text → Text → ProviderError
  internal : Text → ProviderError

pub record ProofProvider : Type 0 where
  pub backend : BackendId
  pub supports : CircuitId → Version → Bool
  pub generate : ProofRequest → Result ProviderError ProofResponse

pub data VerifierError : Type 0 where
  unsupported_verifier : Text → Text → VerifierError
  invalid_verification_request : Text → VerifierError
  verification_unavailable : Text → Text → VerifierError
  internal_verifier : Text → VerifierError

pub record Verifier : Type 0 where
  pub backend : BackendId
  pub verify : VerificationRequest → Result VerifierError VerificationOutcome
