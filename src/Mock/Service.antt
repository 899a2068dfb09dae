-- ===== src/Mock/Service.antt =====
-- The service over the mock, as the tests and the local development use it.
use crucible_prover.Base.{some, Text, ok, ◌≡◌, refl, sym, ◌∙◌, arith, ◌≤◌, len, ==_refl}
use crucible_prover.Core.Registry
use crucible_prover.Core.Registry.{provider}
use crucible_prover.Core.Registry.Registration.{provider-register}
use crucible_prover.Core.Service.{
  ProverService, new, register_provider, with_local_verifier, preflight, prove_and_verify,
}
use crucible_prover.Core.Service.Guarantees.{prove_and_verify_iff, preflight_iff}
use crucible_prover.Mock.{
  Crates, Mock, IsSerializable, generate, respond, mock_provider, mock_backend, key_id_text,
  verification_key_id_for,
}
use crucible_prover.Mock.Binding.{envelope, verify-generate_iff}
use crucible_prover.Mock.KeyId.{key_id_text-nonempty}
use crucible_prover.Mock.Verify.{verify, mock_verifier}
use crucible_prover.Provider.{ProviderError}
use crucible_prover.Request.{ProofRequest, backend_id_eq, validate}
use crucible_prover.Response.{
  ProofResponse, accepted, from_response, VerificationKeyId, verification_key_id,
}

module _ (x : Crates) where
  -- A service whose provider and verifier are the mock with one key.
  abbrev pub mock_service : Mock → Text → ProverService
  mock_service m label =
      with_local_verifier (register_provider (new label) (mock_provider x m)) (mock_verifier x m)

  -- The key id of the request's circuit, where it is short enough.
  abbrev pub key_of : ProofRequest → VerificationKeyId
  key_of r = record { id = key_id_text r.circuit r.circuit_version }

  abbrev pub response_of : Mock → ProofRequest → ProofResponse
  response_of m r = respond x m r (key_of r)

  key_short :
      (r : ProofRequest)
      → len (key_id_text r.circuit r.circuit_version) ≤ 128
      → verification_key_id_for {E = ProviderError} r.circuit r.circuit_version ≡ ok (key_of r)
  unfolding verification_key_id_for verification_key_id
  key_short r h = ground (arith, key_id_text-nonempty r.circuit r.circuit_version)

  pub generate_total :
      (m : Mock) (r : ProofRequest)
      → validate r ≡ ok tt
      → r.backend ≡ mock_backend
      → len (key_id_text r.circuit r.circuit_version) ≤ 128
      → generate x m r ≡ ok (response_of m r)
  unfolding generate
  generate_total m r v b k = ground (arith, key_short r k)

  provider_of_service :
      (m : Mock) (label : Text) (r : ProofRequest)
      → r.backend ≡ mock_backend
      → provider (mock_service m label).registry r.backend ≡ some (mock_provider x m)
  unfolding with_local_verifier register_provider new mock_provider mock_verifier
  provider_of_service m label r b =
      provider-register Registry.new (mock_provider x m) r.backend
      ∙ rw (b, ==_refl mock_backend) refl

  pub accepts_own :
      (m : Mock) (r : ProofRequest)
      → generate x m r ≡ ok (response_of m r)
      → IsSerializable (envelope r (response_of m r))
      → verify x m (from_response (response_of m r)) ≡ ok accepted
  unfolding from_response
  accepts_own m r g s =
      (verify-generate_iff x m r (response_of m r) (from_response (response_of m r)) g s refl).1
        (record {
          backend = refl;
          circuit = refl;
          version = refl;
          key = refl;
          checksum = refl;
          outputs = refl;
          state = refl;
        })

  -- Every request that passes the checks, targets the mock, has a key id of at most 128 bytes and
  -- fits the envelope's format is proved by a service over the mock, and the service's own
  -- verifier accepts the proof.
  pub mock_service_completes :
      (m : Mock) (label : Text) (r : ProofRequest)
      → preflight r ≡ ok tt
      → r.backend ≡ mock_backend
      → len (key_id_text r.circuit r.circuit_version) ≤ 128
      → IsSerializable (envelope r (response_of m r))
      → prove_and_verify (mock_service m label) r ≡ ok (response_of m r, accepted)
  unfolding with_local_verifier register_provider new mock_provider mock_verifier
  mock_service_completes m label r p b k s =
      let g = generate_total m r ((preflight_iff r).0 p).0 b k in
      (prove_and_verify_iff (mock_service m label) r (response_of m r) accepted).1 (
        record {
          checked = p;
          source = mock_provider x m;
          dispatched = record { registered = provider_of_service m label r b; own_backend = sym b };
          supported = refl;
          generated = g;
        },
        record {
          checker = mock_verifier x m;
          configured = refl;
          ran = accepts_own m r g s;
          passed = refl;
        },
      )
