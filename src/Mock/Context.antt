-- ===== src/Mock/Context.antt =====
-- The comparison of an envelope with a submitted request.
use crucible_prover.Base.{Option, none, some, ◌≡◌, ◌↔◌, arith}
use crucible_prover.Mock.{MockEnvelope}
use crucible_prover.Mock.Verify.{compare_states, compare_context}
use crucible_prover.Request.{StateReference}
use crucible_prover.Response.{VerificationRequest, accepted}

-- The request claims what the envelope holds.
pub record Agrees (e : MockEnvelope) (q : VerificationRequest) : Type 0 where
  pub same_backend : e.backend ≡ q.backend
  pub same_circuit : e.circuit ≡ q.circuit
  pub same_version : e.circuit_version ≡ q.circuit_version
  pub same_key : e.verification_key_id ≡ q.verification_key_id
  pub same_checksum : e.artifact_checksum ≡ q.artifact_checksum
  pub same_outputs : e.public_outputs ≡ q.public_outputs
  pub same_state : e.state_reference ≡ q.state_reference

compare_states_iff : (a b : Option StateReference) → (compare_states a b ≡ accepted) ↔ (a ≡ b)
unfolding compare_states
compare_states_iff none none = ground arith
compare_states_iff (some a) (some b) = ground arith
compare_states_iff none (some b) = ground arith
compare_states_iff (some a) none = ground arith

compare_inv :
    (e : MockEnvelope) (q : VerificationRequest) → compare_context e q ≡ accepted → Agrees e q
unfolding compare_context
compare_inv e q h = ground (arith, compare_states_iff e.state_reference q.state_reference)

compare_accepts :
    (e : MockEnvelope) (q : VerificationRequest) → Agrees e q → compare_context e q ≡ accepted
unfolding compare_context
compare_accepts e q a = ground (arith, compare_states_iff e.state_reference q.state_reference)

-- A request is accepted exactly when it agrees with the envelope in every field.
pub compare_context_iff :
    (e : MockEnvelope) (q : VerificationRequest) → (compare_context e q ≡ accepted) ↔ Agrees e q
compare_context_iff e q = (compare_inv e q, compare_accepts e q)
