-- ===== src/Envelope.antt =====
-- The wire envelope: crates/proof-types/src/common.rs and crates/prover-core/src/proof.rs.
use crucible_prover.Base.{ℕ, Option, Text, Result, ok, err, map_err, ltb, if◌then◌else◌, ◌>>=◌}
use crucible_prover.Bag.{OutputBag}
use crucible_prover.Circuit.{Operation, CircuitId, Version}
use crucible_prover.Request.{RequestId, BackendId, RootDigest, StateReference}
use crucible_prover.Response.{
  ProofBlob, VerificationKeyId, ArtifactChecksum, ProofResponse, root_of,
}

abbrev pub envelope_v1 : ℕ
envelope_v1 = 1

pub record EnvelopeMetadata : Type 0 where
  pub request_id : RequestId
  pub produced_by : Text

pub record ProofEnvelope : Type 0 where
  pub version : ℕ
  pub operation : Operation
  pub circuit : CircuitId
  pub circuit_version : Version
  pub backend : BackendId
  pub proof : ProofBlob
  pub public_outputs : OutputBag
  pub verification_key_id : VerificationKeyId
  pub artifact_checksum : ArtifactChecksum
  pub state_reference : Option StateReference
  pub metadata : EnvelopeMetadata

-- `ProofEnvelope::from_response`, which `assemble_envelope` calls.
unfoldable pub from_response : ProofResponse → Operation → Text → ProofEnvelope
from_response response operation produced_by = record {
  version = envelope_v1;
  operation = operation;
  circuit = response.circuit;
  circuit_version = response.circuit_version;
  backend = response.backend;
  proof = response.proof;
  public_outputs = response.public_outputs;
  verification_key_id = response.verification_key_id;
  artifact_checksum = response.artifact_checksum;
  state_reference = response.state_reference;
  metadata = record { request_id = response.request_id; produced_by = produced_by };
}

-- `ProofEnvelope::state_root`.
unfoldable pub state_root : ProofEnvelope → Option RootDigest
state_root envelope = root_of envelope.state_reference

-- `serde_json::to_string` and `serde_json::from_str` of envelopes; a refusal is a reason.
pub record EnvelopeText : Type 0 where
  pub to_string : ProofEnvelope → Result Text Text
  pub from_str : Text → Result Text ProofEnvelope

pub data EnvelopeError : Type 0 where
  unsupported_version : ℕ → ℕ → EnvelopeError
  encoding : Text → EnvelopeError

module _ (json : EnvelopeText) where
  unfoldable pub to_json : ProofEnvelope → Result EnvelopeError Text
  to_json envelope = map_err encoding (json.to_string envelope)

  unfoldable pub from_json : Text → Result EnvelopeError ProofEnvelope
  from_json text = do
    envelope ← map_err encoding (json.from_str text)
    if ltb envelope_v1 envelope.version
        then err (unsupported_version envelope.version envelope_v1)
        else ok envelope
