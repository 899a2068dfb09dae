-- ===== src/Examples/Mocked.antt =====
-- Examples for the mock prover and verifier.
use crucible_prover.Base.{
  ◌<◌, ◌+◌, false, ◌++◌, some, Bytes, codes, ok, panicked, ◌==◌, ◌≡◌, ◌↔◌, refl, arith, len,
  ℕ_discrete, List_ℕ-discrete, show_u32, as_bytes, text_eq,
}
use crucible_prover.Circuit.{show_version}
use crucible_prover.Core.Service.{prove_and_verify}
use crucible_prover.Mock.{
  Crates, Mock, MockEnvelope, IsSerializable, generate, respond, digest, envelope_from_bytes,
  key_id_text, default_mock_key, envelope_of, artifact_checksum_for, checksum_from_bytes,
  checksum_from_bytes,
}
use crucible_prover.Mock.Binding.{Claims, envelope, verify-generate_iff, verify_sound}
use crucible_prover.Mock.Context.{Agrees}
use crucible_prover.Mock.KeyId.{generate_panics_iff}
use crucible_prover.Mock.Service.{
  mock_service, response_of, generate_total, accepts_own, mock_service_completes,
}
use crucible_prover.Mock.Verify.{verify}
use crucible_prover.Response.{ProofResponse, accepted, from_response}
use crucible_prover.Examples.Crates.{sum_sha, plain_hex, sum, encode}
use crucible_prover.Examples.Data.{
  value_ab-IsCanonical, register_request, validate_register, preflight_register,
}
use crucible_prover.Examples.Json.{envelope_codec, to_vec}

abbrev pub small_crates : Crates
small_crates = record { sha = sum_sha; hex = plain_hex; json = envelope_codec }

abbrev pub mock : Mock
mock = record { key = default_mock_key }

abbrev other_mock : Mock
other_mock = record { key = codes "b" }

abbrev pub response : ProofResponse
response = response_of small_crates mock register_request

pub len-key_of_register :
    len (key_id_text register_request.circuit register_request.circuit_version) ≡ 22
unfolding key_id_text show_version show_u32 len ℕ_discrete
len-key_of_register = refl

pub generate_register : generate small_crates mock register_request ≡ ok response
generate_register =
    generate_total small_crates mock register_request validate_register refl
      (omega (arith, len-key_of_register))

pub register_request-IsSerializable : IsSerializable (envelope register_request response)
unfolding envelope_of
register_request-IsSerializable = record {
  version_fits = record {
    major_fits = omega arith;
    minor_fits = omega arith;
    patch_fits = omega arith;
  };
  canonical = (value_ab-IsCanonical, tt);
  sequence_fits = tt;
}

verify-generate_iff_example :
    (verify small_crates mock (from_response response) ≡ ok accepted)
    ↔ Claims response (from_response response)
verify-generate_iff_example =
    verify-generate_iff small_crates mock register_request response (from_response response)
      generate_register register_request-IsSerializable (unfold from_response in refl)

verify_sound_example :
    (payload : Bytes) × (e : MockEnvelope) × ((from_response response).proof.bytes
      ≡ payload ++ digest small_crates mock payload)
    × (envelope_from_bytes small_crates payload ≡ some e)
    × Agrees e (from_response response)
verify_sound_example = verify_sound small_crates mock (from_response response) (
    accepts_own small_crates mock register_request generate_register
      register_request-IsSerializable)

generate_panics_iff_example :
    (generate small_crates mock register_request ≡ panicked)
    ↔ (119 < len register_request.circuit.id + len (show_version register_request.circuit_version))
generate_panics_iff_example =
    generate_panics_iff small_crates mock register_request validate_register refl

mock_service_completes_example :
    prove_and_verify (mock_service small_crates mock (codes "local")) register_request
    ≡ ok (response, accepted)
mock_service_completes_example =
    mock_service_completes small_crates mock (codes "local") register_request preflight_register
      refl (omega (arith, len-key_of_register)) register_request-IsSerializable

other_digest :
    (digest small_crates other_mock (envelope_codec.to_vec (envelope register_request response))
      == digest small_crates mock (envelope_codec.to_vec (envelope register_request response)))
    ≡ false
unfolding digest sum to_vec envelope_of respond artifact_checksum_for checksum_from_bytes encode
    key_id_text show_version show_u32 as_bytes ℕ_discrete List_ℕ-discrete
other_digest = refl
