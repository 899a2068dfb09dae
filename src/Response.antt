-- ===== src/Response.antt =====
-- Proof responses, verification requests and outcomes: interfaces/src/proof_provider/proof.rs,
-- interfaces/src/verifier/request.rs and interfaces/src/verifier/response.rs.
use crucible_prover.Base.{
  Bool, true, false, not, ◌&&◌, ◌||◌, Option, none, some, Text, Bytes, codes, Result, ok, err, ltb,
  ◌==◌, Eq, nat_eq, if◌then◌else◌, is_empty, all, len, map, is_ascii_hexdigit, to_ascii_lowercase,
  ℕ_discrete,
}
use crucible_prover.Field.{strip_0x}
use crucible_prover.Bag.{OutputBag}
use crucible_prover.Circuit.{CircuitId, Version}
use crucible_prover.Request.{RequestId, BackendId, RootDigest, StateReference}

pub record ProofFormat : Type 0 where
  pub tag : Text

abbrev pub mock_format : Text
mock_format = codes "mock-envelope-v1"

abbrev pub ultrahonk_format : Text
ultrahonk_format = codes "ultrahonk-v1"

pub data LengthError : Type 0 where
  invalid_length : LengthError

-- `ProofFormat::new`.
unfoldable pub proof_format : Text → Result LengthError ProofFormat
proof_format format =
    if is_empty format || ltb 64 (len format)
    then err invalid_length
    else ok (record { tag = format })

pub record ProofBlob : Type 0 where
  pub format : ProofFormat
  pub bytes : Bytes

pub record VerificationKeyId : Type 0 where
  pub id : Text

unfoldable pub VerificationKeyId-discrete : Discrete VerificationKeyId
VerificationKeyId-discrete = hlevel ℕ_discrete

instance abbrev pub verification_key_id_eq : Eq VerificationKeyId
verification_key_id_eq = record { discrete = VerificationKeyId-discrete }

-- `VerificationKeyId::new`.
unfoldable pub verification_key_id : Text → Result LengthError VerificationKeyId
verification_key_id id =
    if is_empty id || ltb 128 (len id) then err invalid_length else ok (record { id = id })

pub record ArtifactChecksum : Type 0 where
  pub hex : Text

unfoldable pub ArtifactChecksum-discrete : Discrete ArtifactChecksum
ArtifactChecksum-discrete = hlevel ℕ_discrete

instance abbrev pub artifact_checksum_eq : Eq ArtifactChecksum
artifact_checksum_eq = record { discrete = ArtifactChecksum-discrete }

pub data ArtifactChecksumError : Type 0 where
  not_sha256_hex : ArtifactChecksumError

-- `ArtifactChecksum::from_hex`.
unfoldable pub checksum_from_hex : Text → Result ArtifactChecksumError ArtifactChecksum
checksum_from_hex hex =
    let s = strip_0x hex in
    if not (len s == 64) || not (all is_ascii_hexdigit s)
    then err not_sha256_hex
    else ok (record { hex = map to_ascii_lowercase s })

pub record ProofResponse : Type 0 where
  pub request_id : RequestId
  pub circuit : CircuitId
  pub circuit_version : Version
  pub backend : BackendId
  pub proof : ProofBlob
  pub public_outputs : OutputBag
  pub verification_key_id : VerificationKeyId
  pub artifact_checksum : ArtifactChecksum
  pub state_reference : Option StateReference

abbrev pub root_of : Option StateReference → Option RootDigest
root_of none = none
root_of (some s) = some s.root

unfoldable pub state_root : ProofResponse → Option RootDigest
state_root response = root_of response.state_reference

pub record VerificationRequest : Type 0 where
  pub request_id : RequestId
  pub proof : ProofBlob
  pub circuit : CircuitId
  pub circuit_version : Version
  pub backend : BackendId
  pub verification_key_id : VerificationKeyId
  pub artifact_checksum : ArtifactChecksum
  pub public_outputs : OutputBag
  pub state_reference : Option StateReference

-- `VerificationRequest::from_response`.
unfoldable pub from_response : ProofResponse → VerificationRequest
from_response response = record {
  request_id = response.request_id;
  proof = response.proof;
  circuit = response.circuit;
  circuit_version = response.circuit_version;
  backend = response.backend;
  verification_key_id = response.verification_key_id;
  artifact_checksum = response.artifact_checksum;
  public_outputs = response.public_outputs;
  state_reference = response.state_reference;
}

pub data VerificationFailure : Type 0 where
  invalid_proof public_output_mismatch state_reference_mismatch : VerificationFailure
  wrong_verification_key circuit_mismatch version_mismatch : VerificationFailure
  artifact_checksum_mismatch backend_mismatch missing_state_binding : VerificationFailure

unfoldable pub VerificationFailure-discrete : Discrete VerificationFailure
VerificationFailure-discrete = hlevel

instance abbrev pub verification_failure_eq : Eq VerificationFailure
verification_failure_eq = record { discrete = VerificationFailure-discrete }

pub record VerificationOutcome : Type 0 where
  pub verified : Bool
  pub failure : Option VerificationFailure

-- `VerificationOutcome::verified`.
abbrev pub accepted : VerificationOutcome
accepted = record { verified = true; failure = none }

abbrev pub rejected : VerificationFailure → VerificationOutcome
rejected failure = record { verified = false; failure = some failure }

unfoldable pub rejected_with : VerificationOutcome → VerificationFailure → Bool
rejected_with outcome failure =
    not outcome.verified && elim outcome.failure [ none ↦ false | some f ↦ f == failure ]
