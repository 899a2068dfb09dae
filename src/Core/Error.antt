-- ===== src/Core/Error.antt =====
-- The errors of the orchestration: crates/prover-core/src/errors.rs and
-- interfaces/src/prover/errors.rs. Where the source keeps the text of another error, the error
-- itself stands here.
use crucible_prover.Base.{List, Option, Text}
use crucible_prover.Circuit.{Operation, CircuitId, Version}
use crucible_prover.Envelope.{EnvelopeError}
use crucible_prover.Provider.{ProviderError, VerifierError}
use crucible_prover.Request.{BackendId, WitnessError}
use crucible_prover.Response.{VerificationFailure}

-- What the message of an invalid request is made from.
pub data InvalidReason : Type 0 where
  malformed_request : WitnessError → InvalidReason
  requires_private : Operation → List Text → InvalidReason
  requires_public : Operation → List Text → InvalidReason

pub data CoreError : Type 0 where
  unknown_backend : BackendId → CoreError
  unsupported_circuit : BackendId → CircuitId → Version → CoreError
  invalid_request : InvalidReason → CoreError
  generation : ProviderError → CoreError
  envelope : EnvelopeError → CoreError
  not_verified : Option VerificationFailure → CoreError
  no_verifier : CoreError
  internal : VerifierError → CoreError

-- What the message of a provider error is made from.
pub data ProviderReason : Type 0 where
  from_request : InvalidReason → ProviderReason
  from_provider : ProviderError → ProviderReason
  from_envelope : EnvelopeError → ProviderReason
  from_verifier : VerifierError → ProviderReason

-- And that of a verification that could not run.
pub data VerificationReason : Type 0 where
  no_verifier_configured : VerificationReason
  verifier_failed : VerifierError → VerificationReason

pub data ProverError : Type 0 where
  no_provider_available : ProverError
  provider : ProviderReason → ProverError
  verification_failed : VerificationReason → ProverError
  not_verified_locally : Option VerificationFailure → ProverError
