-- ===== src/Mock/Verify.antt =====
-- The test-only verifier: crates/mock/src/verifier.rs.
use crucible_prover.Base.{
  ◌-◌, Bool, not, ◌||◌, Option, none, some, Bytes, Result, ok, ltb, ◌==◌, nat_eq, text_eq,
  if◌then◌else◌, length, take, drop,
}
use crucible_prover.Bag.{public_bag_eq}
use crucible_prover.Circuit.{circuit_id_eq, version_eq}
use crucible_prover.Mock.{Crates, Mock, MockEnvelope, envelope_from_bytes, digest, mock_backend}
use crucible_prover.Provider.{Verifier, VerifierError}
use crucible_prover.Request.{backend_id_eq, mock_id, StateReference, state_reference_eq}
use crucible_prover.Response.{
  mock_format, verification_key_id_eq, artifact_checksum_eq, VerificationRequest,
  VerificationOutcome, accepted, rejected, invalid_proof, public_output_mismatch,
  state_reference_mismatch, wrong_verification_key, circuit_mismatch, version_mismatch,
  artifact_checksum_mismatch, backend_mismatch, missing_state_binding,
}

-- The comparison of the states: both absent, or both present and equal.
unfoldable pub compare_states : Option StateReference → Option StateReference → VerificationOutcome
compare_states none none = accepted
compare_states (some embedded) (some submitted) =
    if embedded == submitted then accepted else rejected state_reference_mismatch
compare_states none (some submitted) = rejected missing_state_binding
compare_states (some embedded) none = rejected missing_state_binding

-- The field-by-field comparison of the envelope with the submitted request.
unfoldable pub compare_context : MockEnvelope → VerificationRequest → VerificationOutcome
compare_context e q =
    if not (e.backend == q.backend)
    then rejected backend_mismatch
    else if not (e.circuit == q.circuit)
    then rejected circuit_mismatch
    else if not (e.circuit_version == q.circuit_version)
    then rejected version_mismatch
    else if not (e.verification_key_id == q.verification_key_id)
    then rejected wrong_verification_key
    else if not (e.artifact_checksum == q.artifact_checksum)
    then rejected artifact_checksum_mismatch
    else if not (e.public_outputs == q.public_outputs)
    then rejected public_output_mismatch
    else compare_states e.state_reference q.state_reference

unfoldable pub verify_envelope : Option MockEnvelope → VerificationRequest → VerificationOutcome
verify_envelope none q = rejected invalid_proof
verify_envelope (some e) q = compare_context e q

module _ (x : Crates) where
  unfoldable pub verify_digest : Mock → Bytes → Bytes → Bool
  verify_digest m payload submitted = submitted == digest x m payload

  unfoldable pub verify : Mock → VerificationRequest → Result VerifierError VerificationOutcome
  verify m q =
      let split = length q.proof.bytes - 32 in
      let payload = take split q.proof.bytes in
      let submitted = drop split q.proof.bytes in
      if not (q.proof.format.tag == mock_format) || not (q.backend.id == mock_id)
      then ok (rejected backend_mismatch)
      else if ltb (length q.proof.bytes) 32
      then ok (rejected invalid_proof)
      else if not (verify_digest m payload submitted)
      then ok (rejected invalid_proof)
      else ok (verify_envelope (envelope_from_bytes x payload) q)

  unfoldable pub mock_verifier : Mock → Verifier
  mock_verifier m = record { backend = mock_backend; verify = verify m }
