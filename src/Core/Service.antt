-- ===== src/Core/Service.antt =====
-- The proving service: crates/prover-core/src/prover.rs and crates/prover-core/src/verification.rs,
-- and the default method of the trait in interfaces/src/prover/prover.rs.
pub mod Guarantees
pub mod Boxed
use crucible_prover.Base.{
  Bool, true, false, not, List, Option, none, some, Text, Result, ok, err, panicked, ok_or, map_err,
  is_empty, if◌then◌else◌, ◌>>=◌,
}
use crucible_prover.Core.Error.{
  InvalidReason, malformed_request, requires_private, requires_public, CoreError, unknown_backend,
  unsupported_circuit, invalid_request, generation, envelope, not_verified, no_verifier, internal,
  ProviderReason, from_request, from_provider, from_envelope, from_verifier, no_verifier_configured,
  verifier_failed, ProverError, no_provider_available, provider, verification_failed,
  not_verified_locally,
}
use crucible_prover.Core.Preflight.{missing_private_names, missing_public_names}
use crucible_prover.Core.Registry
use crucible_prover.Core.Registry.{ProviderRegistry, provide}
use crucible_prover.Envelope
use crucible_prover.Envelope.{ProofEnvelope}
use crucible_prover.Provider.{ProofProvider, Verifier}
use crucible_prover.Request.{ProofRequest, validate}
use crucible_prover.Response.{
  ProofResponse, VerificationRequest, VerificationOutcome, from_response,
}

-- `verify_round_trip_with`.
unfoldable pub verify_round_trip_with :
    Verifier → VerificationRequest → Result CoreError VerificationOutcome
verify_round_trip_with verifier request = do
  outcome ← map_err internal (verifier.verify request)
  if not outcome.verified then err (not_verified outcome.failure) else ok outcome

unfoldable pub verify_round_trip : Verifier → ProofResponse → Result CoreError VerificationOutcome
verify_round_trip verifier response = verify_round_trip_with verifier (from_response response)

pub record ProverService : Type 0 where
  pub registry : ProviderRegistry
  pub local_verifier : Option Verifier
  pub produced_by : Text

-- `ProverService::new`.
unfoldable pub new : Text → ProverService
new produced_by = record {
  registry = Registry.new;
  local_verifier = none;
  produced_by = produced_by;
}

unfoldable pub register_provider : ProverService → ProofProvider → ProverService
register_provider s p = record s { registry = Registry.register s.registry p }

unfoldable pub with_local_verifier : ProverService → Verifier → ProverService
with_local_verifier s v = record s { local_verifier = some v }

unfoldable pub preflight : ProofRequest → Result CoreError (Unit {0})
preflight r = do
  _ ← map_err (λ e. invalid_request (malformed_request e)) (validate r)
  if not (is_empty (missing_private_names r))
      then err (invalid_request (requires_private r.operation (missing_private_names r)))
      else if not (is_empty (missing_public_names r))
      then err (invalid_request (requires_public r.operation (missing_public_names r)))
      else ok tt

unfoldable pub prove_core : ProverService → ProofRequest → Result CoreError ProofResponse
prove_core s r = do _ ← preflight r; provide s.registry r

unfoldable pub prove_and_verify_core :
    ProverService → ProofRequest → Result CoreError (ProofResponse × VerificationOutcome)
prove_and_verify_core s r = do
  response ← prove_core s r
  verifier ← ok_or no_verifier s.local_verifier
  outcome ← verify_round_trip verifier response
  ok (response, outcome)

unfoldable pub prove_enveloped : ProverService → ProofRequest → Result CoreError ProofEnvelope
prove_enveloped s r = do
  response ← prove_core s r
  ok (Envelope.from_response response r.operation s.produced_by)

unfoldable pub prove_enveloped_and_verify :
    ProverService → ProofRequest → Result CoreError ProofEnvelope
prove_enveloped_and_verify s r = do
  done ← prove_and_verify_core s r
  ok (Envelope.from_response done.0 r.operation s.produced_by)

unfoldable pub map_core_error : CoreError → ProverError
map_core_error (unknown_backend b) = no_provider_available
map_core_error (unsupported_circuit b c v) = no_provider_available
map_core_error (invalid_request reason) = provider (from_request reason)
map_core_error (generation reason) = provider (from_provider reason)
map_core_error (envelope reason) = provider (from_envelope reason)
map_core_error (not_verified failure) = not_verified_locally failure
map_core_error no_verifier = verification_failed no_verifier_configured
map_core_error (internal reason) = provider (from_verifier reason)

-- The implementation of the trait `Prover`.
unfoldable pub prove : ProverService → ProofRequest → Result ProverError ProofResponse
prove s r = map_err map_core_error (prove_core s r)

unfoldable pub prove_and_verify :
    ProverService → ProofRequest → Result ProverError (ProofResponse × VerificationOutcome)
prove_and_verify s r = map_err map_core_error (prove_and_verify_core s r)

-- `local_verifier`, whose `expect` unwinds where none is configured.
unfoldable pub local_verifier : {E : Type 0} → ProverService → Result E Verifier
local_verifier s = elim s.local_verifier [ none ↦ panicked | some v ↦ ok v ]

-- The default `prove_and_verify` of the trait, as `Box<ProverService>` has it: the implementation
-- for `Box` forwards `prove` and `local_verifier` alone.
unfoldable pub default_prove_and_verify :
    ProverService → ProofRequest → Result ProverError (ProofResponse × VerificationOutcome)
default_prove_and_verify s r = do
  response ← prove s r
  verifier ← local_verifier s
  outcome ←
      map_err (λ e. verification_failed (verifier_failed e))
        (verifier.verify (from_response response))
  if not outcome.verified
      then err (not_verified_locally outcome.failure)
      else ok (response, outcome)
