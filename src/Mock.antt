-- ===== src/Mock.antt =====
-- The test-only prover: crates/mock/src/prover.rs. The child Verify is the verifier.
pub mod Verify
pub mod Context
pub mod Binding
pub mod KeyId
pub mod Service
use crucible_prover.Base.{
  ℕ, ◌-◌, Bool, true, false, not, ◌&&◌, ◌||◌, List, [], ◌∷◌, ◌++◌, Option, none, some, Text, Bytes,
  codes, Result, ok, err, panicked, ◌≡◌, ltb, ◌==◌, Eq, nat_eq, text_eq, if◌then◌else◌, length,
  take, drop, as_bytes, map_err, expect, ◌>>=◌, u32_modulus, ◌<◌, ◌^◌,
}
use crucible_prover.Bag.{OutputBag, public_bag_eq}
use crucible_prover.Bag.Encoding.{HasCanonicalValues}
use crucible_prover.Circuit.{CircuitId, circuit_id_eq, Version, version_eq, show_version}
use crucible_prover.Circuit.VersionText.{FitsU32}
use crucible_prover.Request.{
  BackendId, backend_id_eq, mock_id, StateReference, state_reference_eq, ProofRequest, WitnessError,
  validate,
}
use crucible_prover.Response.{
  ProofBlob, mock_format, VerificationKeyId, verification_key_id_eq, verification_key_id,
  ArtifactChecksum, artifact_checksum_eq, ProofResponse, VerificationRequest, VerificationOutcome,
  accepted, rejected, invalid_proof, public_output_mismatch, state_reference_mismatch,
  wrong_verification_key, circuit_mismatch, version_mismatch, artifact_checksum_mismatch,
  backend_mismatch, missing_state_binding,
}
use crucible_prover.Provider.{
  ProofProvider, Verifier, ProviderError, invalid_request, proof_generation, VerifierError,
}
use crucible_prover.External.{Sha256, Hex}

abbrev pub domain : Bytes
domain = codes "crucible-mock-envelope-v1"

abbrev pub default_mock_key : Text
default_mock_key = codes "crucible-mock-key-v1-test-only"

pub record MockEnvelope : Type 0 where
  pub kind : Text
  pub circuit : CircuitId
  pub circuit_version : Version
  pub backend : BackendId
  pub verification_key_id : VerificationKeyId
  pub artifact_checksum : ArtifactChecksum
  pub public_outputs : OutputBag
  pub state_reference : Option StateReference

abbrev pub SequenceFits : Option StateReference → Type 0
SequenceFits none = Unit
SequenceFits (some s) = s.sequence < 2 ^ 64

-- The values that the deserializers of the fields accept as they are.
pub record IsSerializable (e : MockEnvelope) : Type 0 where
  pub version_fits : FitsU32 e.circuit_version
  pub canonical : HasCanonicalValues e.public_outputs.entries
  pub sequence_fits : SequenceFits e.state_reference

-- `serde_json::to_vec` and `serde_json::from_slice` of envelopes.
pub record EnvelopeJson : Type 0 where
  pub to_vec : MockEnvelope → Bytes
  pub from_slice : Bytes → Option MockEnvelope
  pub from_slice-to_vec : (e : MockEnvelope) → IsSerializable e → from_slice (to_vec e) ≡ some e

-- `BackendId::new("mock").expect(…)`.
abbrev pub mock_backend : BackendId
mock_backend = record { id = mock_id }

-- `ArtifactChecksum::from_bytes`.
unfoldable pub checksum_from_bytes : Sha256 → Hex → Bytes → ArtifactChecksum
checksum_from_bytes sha hex bytes = record { hex = hex.encode (sha.digest bytes) }

unfoldable pub key_id_text : CircuitId → Version → Text
key_id_text circuit version = codes "mock-vk/" ++ (circuit.id ++ b'/' ∷ show_version version)

-- `verification_key_id_for`; its `expect` unwinds where the id is refused.
unfoldable pub verification_key_id_for :
    {E : Type 0} → CircuitId → Version → Result E VerificationKeyId
verification_key_id_for circuit version = expect (verification_key_id (key_id_text circuit version))

-- Both `MockProver` and `MockVerifier` are a key.
pub record Mock : Type 0 where
  pub key : Text

-- The envelope of a request.
unfoldable pub envelope_of : ProofRequest → VerificationKeyId → ArtifactChecksum → MockEnvelope
envelope_of r vk checksum = record {
  kind = mock_format;
  circuit = r.circuit;
  circuit_version = r.circuit_version;
  backend = r.backend;
  verification_key_id = vk;
  artifact_checksum = checksum;
  public_outputs = r.public_inputs;
  state_reference = r.state_reference;
}

-- The crates that the mock calls.
pub record Crates : Type 0 where
  pub sha : Sha256
  pub hex : Hex
  pub json : EnvelopeJson

module _ (x : Crates) where
  unfoldable pub artifact_checksum_for : CircuitId → Version → ArtifactChecksum
  artifact_checksum_for circuit version =
      checksum_from_bytes x.sha x.hex
        (as_bytes (codes "mock-artifact/" ++ (circuit.id ++ b'/' ∷ show_version version)))

  -- `MockEnvelope::from_bytes`; the reason of a refusal is not kept.
  unfoldable pub envelope_from_bytes : Bytes → Option MockEnvelope
  envelope_from_bytes bytes = elim (x.json.from_slice bytes) [
    | none ↦ none
    | some e ↦ if e.kind == mock_format then some e else none
  ]

  unfoldable pub digest : Mock → Bytes → Bytes
  digest m payload = x.sha.digest (domain ++ (payload ++ (as_bytes m.key ++ 0 ∷ [])))

  unfoldable pub build_proof_bytes :
      Mock → ProofRequest → VerificationKeyId → ArtifactChecksum → Bytes
  build_proof_bytes m r vk checksum =
      let payload = x.json.to_vec (envelope_of r vk checksum) in payload ++ digest m payload

  unfoldable pub respond : Mock → ProofRequest → VerificationKeyId → ProofResponse
  respond m r vk =
      let checksum = artifact_checksum_for r.circuit r.circuit_version in
      record {
        request_id = r.request_id;
        circuit = r.circuit;
        circuit_version = r.circuit_version;
        backend = mock_backend;
        proof = record {
          format = record { tag = mock_format };
          bytes = build_proof_bytes m r vk checksum;
        };
        public_outputs = r.public_inputs;
        verification_key_id = vk;
        artifact_checksum = checksum;
        state_reference = r.state_reference;
      }

  unfoldable pub generate : Mock → ProofRequest → Result ProviderError ProofResponse
  generate m r = do
    _ ← map_err invalid_request (validate r)
    if not (r.backend == mock_backend)
        then err (
            proof_generation r.backend.id
              (codes "request targets a different backend than the mock prover"))
        else do vk ← verification_key_id_for r.circuit r.circuit_version; ok (respond m r vk)

  unfoldable pub mock_provider : Mock → ProofProvider
  mock_provider m = record { backend = mock_backend; supports = λ _ _. true; generate = generate m }
