-- ===== src/Core/Service/Boxed.antt =====
-- `prove_and_verify` through a box: the default method of the trait against that of the service.
use crucible_prover.Base.{some, ok, ◌≡◌, arith}
use crucible_prover.Core.Service.{
  ProverService, prove, prove_and_verify_core, prove_and_verify, default_prove_and_verify,
  local_verifier, map_core_error, verify_round_trip, verify_round_trip_with,
}
use crucible_prover.Provider.{Verifier}
use crucible_prover.Request.{ProofRequest}
use crucible_prover.Response.{ProofResponse, VerificationOutcome, from_response}

-- With a verifier that runs on the proof, both give the same result.
pub boxed_agrees :
    (s : ProverService) (r : ProofRequest) (resp : ProofResponse) (v : Verifier)
    (out : VerificationOutcome)
    → s.local_verifier ≡ some v
    → prove s r ≡ ok resp
    → v.verify (from_response resp) ≡ ok out
    → default_prove_and_verify s r ≡ prove_and_verify s r
unfolding prove_and_verify prove_and_verify_core default_prove_and_verify local_verifier prove
    map_core_error verify_round_trip verify_round_trip_with
boxed_agrees s r resp v out c p h = ground arith
