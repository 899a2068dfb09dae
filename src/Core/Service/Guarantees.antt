-- ===== src/Core/Service/Guarantees.antt =====
-- What a proof that the service hands out has gone through.
use crucible_prover.Base.{true, some, Result, ok, err, panicked, map_err, ◌≡◌, ◌↔◌, arith, All}
use crucible_prover.Bag
use crucible_prover.Bag.Private
use crucible_prover.Core.Preflight.{
  has_required_witness, has_required_public_inputs, has_required_iff, IsPresent,
}
use crucible_prover.Core.Registry.{provide}
use crucible_prover.Core.Registry.Dispatch.{provide_iff, Dispatched}
use crucible_prover.Core.Service.{
  ProverService, preflight, prove_core, verify_round_trip, verify_round_trip_with,
  prove_and_verify_core, prove_and_verify, map_core_error,
}
use crucible_prover.Envelope
use crucible_prover.Expectations.{expectations}
use crucible_prover.Provider.{ProofProvider, Verifier}
use crucible_prover.Request.{ProofRequest, validate}
use crucible_prover.Response.{ProofResponse, VerificationOutcome, from_response}

-- Every parameter of the operation's circuit is there.
pub record HasParameters (r : ProofRequest) : Type 0 where
  pub private : All (λ n. IsPresent (Private.get r.witness n)) (expectations r.operation).private
  pub public :
      All (λ n. IsPresent (Bag.get r.public_inputs n)) (expectations r.operation).public_params

preflight_tests :
    (r : ProofRequest)
    → (preflight r ≡ ok tt) ↔ (
        (validate r ≡ ok tt)
        × (has_required_witness r ≡ true)
        × (has_required_public_inputs r ≡ true))
unfolding preflight has_required_witness has_required_public_inputs
preflight_tests r = ground arith

-- The checks before the dispatch pass exactly for a valid request that carries every private and
-- public parameter of its operation's circuit.
pub preflight_iff :
    (r : ProofRequest) → (preflight r ≡ ok tt) ↔ ((validate r ≡ ok tt) × HasParameters r)
preflight_iff r =
    let tests = preflight_tests r in
    let (witness, inputs) = has_required_iff r in
    (
      (λ h.
          let (v, w, i) = tests.0 h in (v, record { private = witness.0 w; public = inputs.0 i })),
      λ h. tests.1 (h.0, witness.1 h.1.private, inputs.1 h.1.public),
    )

-- The proof comes from the provider of the request's backend.
pub record Proved (s : ProverService) (r : ProofRequest) (resp : ProofResponse) : Type 0 where
  pub checked : preflight r ≡ ok tt
  pub source : ProofProvider
  pub dispatched : Dispatched s.registry r source
  pub supported : source.supports r.circuit r.circuit_version ≡ true
  pub generated : source.generate r ≡ ok resp

-- The local verifier has accepted the proof.
pub record PassedBy (s : ProverService) (resp : ProofResponse) (out : VerificationOutcome)
    : Type 0 where
  pub checker : Verifier
  pub configured : s.local_verifier ≡ some checker
  pub ran : checker.verify (from_response resp) ≡ ok out
  pub passed : out.verified ≡ true

prove_core_iff :
    (s : ProverService) (r : ProofRequest) (resp : ProofResponse)
    → (prove_core s r ≡ ok resp) ↔ ((preflight r ≡ ok tt) × (provide s.registry r ≡ ok resp))
unfolding prove_core
prove_core_iff s r resp = ground arith

prove_core-Proved :
    (s : ProverService) (r : ProofRequest) (resp : ProofResponse)
    → (prove_core s r ≡ ok resp) ↔ Proved s r resp
prove_core-Proved s r resp =
    let core = prove_core_iff s r resp in
    let provided = provide_iff s.registry r resp in
    (
      (λ h.
          let (c, d) = core.0 h in
          let (p, k, u, g) = provided.0 d in
          record { checked = c; source = p; dispatched = k; supported = u; generated = g }),
      λ h. core.1 (h.checked, provided.1 (h.source, h.dispatched, h.supported, h.generated)),
    )

round_trip_ok :
    (v : Verifier) (resp : ProofResponse) (out : VerificationOutcome)
    → (verify_round_trip v resp ≡ ok out)
      ↔ ((v.verify (from_response resp) ≡ ok out) × (out.verified ≡ true))
unfolding verify_round_trip verify_round_trip_with
round_trip_ok v resp out = ground arith

and_verify_core :
    (s : ProverService) (r : ProofRequest) (resp : ProofResponse) (out : VerificationOutcome)
    → (prove_and_verify_core s r ≡ ok (resp, out)) ↔ (
        (v : Verifier) × (prove_core s r ≡ ok resp)
        × (s.local_verifier ≡ some v)
        × (verify_round_trip v resp ≡ ok out))
unfolding prove_and_verify_core
and_verify_core s r resp out = (λ h. ground arith, λ h. ground arith)

map_err_ok :
    {E F A : Type 0} (f : E → F) (m : Result E A) (a : A) → (map_err f m ≡ ok a) ↔ (m ≡ ok a)
map_err_ok f (ok b) a = ground arith
map_err_ok f (err e) a = ground arith
map_err_ok f panicked a = ground arith

-- `prove_and_verify` returns a proof exactly when the request passes the checks, the registered
-- provider of its own backend supports the circuit and generates the proof, and the configured
-- local verifier accepts it.
pub prove_and_verify_iff :
    (s : ProverService) (r : ProofRequest) (resp : ProofResponse) (out : VerificationOutcome)
    → (prove_and_verify s r ≡ ok (resp, out)) ↔ (Proved s r resp × PassedBy s resp out)
unfolding prove_and_verify
prove_and_verify_iff s r resp out =
    let mapped = map_err_ok map_core_error (prove_and_verify_core s r) (resp, out) in
    let core = and_verify_core s r resp out in
    let proved = prove_core-Proved s r resp in
    (
      (λ h.
          let (v, p, c, t) = core.0 (mapped.0 h) in
          let (ran, passed) = (round_trip_ok v resp out).0 t in
          (proved.0 p, record { checker = v; configured = c; ran = ran; passed = passed })),
      λ h. mapped.1 (
          core.1 (
            h.1.checker,
            proved.1 h.0,
            h.1.configured,
            (round_trip_ok h.1.checker resp out).1 (h.1.ran, h.1.passed),
          )),
    )
