-- ===== src/Examples/Services.antt =====
-- Examples for the registry, the proving service and the verification service.
use crucible_prover.Base.{
  true, false, [], ◌∷◌, none, some, Text, codes, ok, ◌≡◌, ◌↔◌, is_empty, All,
}
use crucible_prover.Bag
use crucible_prover.Core.Outputs.{outputs_match, outputs_match_iff}
use crucible_prover.Core.Registry.{ProviderRegistry, provide}
use crucible_prover.Core.Registry.Dispatch.{Dispatched, provide_iff}
use crucible_prover.Core.Service.{ProverService, prove_and_verify}
use crucible_prover.Core.Service.Guarantees.{Proved, PassedBy, prove_and_verify_iff}
use crucible_prover.Envelope
use crucible_prover.Envelope.{ProofEnvelope}
use crucible_prover.Mock.{mock_backend, mock_provider}
use crucible_prover.Mock.Service.{mock_service}
use crucible_prover.Mock.Verify.{mock_verifier}
use crucible_prover.Provider.{ProofProvider}
use crucible_prover.Request.{backend_id_eq}
use crucible_prover.Response.{VerificationRequest, accepted, from_response}
use crucible_prover.Verification
use crucible_prover.Verification.{VerificationService, verify_all, registered_for}
use crucible_prover.Verification.Agreement.{Ran, Accepts, verify_iff, verify_all_iff}
use crucible_prover.Verification.Report.{VerificationReport}
use crucible_prover.Examples.Data.{register_request, one_input, two_inputs}
use crucible_prover.Examples.Mocked.{small_crates, mock, response}

abbrev local : ProofProvider
local = mock_provider small_crates mock

abbrev one_provider : ProviderRegistry
one_provider = record { providers = local ∷ [] }

provide_iff_example : (provide one_provider register_request ≡ ok response) ↔ (
    (p : ProofProvider) × Dispatched one_provider register_request p
    × (p.supports register_request.circuit register_request.circuit_version ≡ true)
    × (p.generate register_request ≡ ok response))
provide_iff_example = provide_iff one_provider register_request response

outputs_match_iff_example :
    (outputs_match one_input two_inputs ≡ true)
    ↔ ((n : Text) → Bag.get one_input n ≡ Bag.get two_inputs n)
outputs_match_iff_example = outputs_match_iff one_input two_inputs

abbrev service : ProverService
service = mock_service small_crates mock (codes "local")

prove_and_verify_iff_example :
    (prove_and_verify service register_request ≡ ok (response, accepted))
    ↔ (Proved service register_request response × PassedBy service response accepted)
prove_and_verify_iff_example = prove_and_verify_iff service register_request response accepted

abbrev enveloped : ProofEnvelope
enveloped = Envelope.from_response response register_request.operation service.produced_by

abbrev unverified : ProverService
unverified = record { registry = one_provider; local_verifier = none; produced_by = codes "local" }

abbrev verified : ProverService
verified = record unverified { local_verifier = some (mock_verifier small_crates mock) }

abbrev two_verifiers : VerificationService
two_verifiers = record {
  by_backend =
      (mock_backend, record { label = codes "local"; verifier = mock_verifier small_crates mock })
      ∷ (mock_backend, record { label = codes "spare"; verifier = mock_verifier small_crates mock })
      ∷ [];
}

abbrev both_passed : VerificationReport
both_passed = record {
  results =
      record { label = codes "local"; outcome = accepted }
      ∷ record { label = codes "spare"; outcome = accepted }
      ∷ [];
}

abbrev submitted : VerificationRequest
submitted = from_response response

verify_iff_example : (Verification.verify two_verifiers submitted ≡ ok both_passed) ↔ (
    (is_empty (registered_for submitted.backend two_verifiers.by_backend) ≡ false)
    × Ran submitted (registered_for submitted.backend two_verifiers.by_backend) both_passed.results)
verify_iff_example = verify_iff two_verifiers submitted both_passed

verify_all_iff_example : (verify_all two_verifiers submitted ≡ ok accepted) ↔ (
    (is_empty (registered_for submitted.backend two_verifiers.by_backend) ≡ false)
    × All (Accepts submitted) (registered_for submitted.backend two_verifiers.by_backend))
verify_all_iff_example = verify_all_iff two_verifiers submitted
