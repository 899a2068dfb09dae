-- ===== src/UltraHonk/Verifier.antt =====
-- The UltraHonk verifier: crates/ultrahonk/src/verifier.rs.
pub mod Acceptance
pub mod Documents
use crucible_prover.Base.{
  ℕ, ◌%◌, Bool, true, false, not, ◌||◌, List, [], ◌∷◌, ◌++◌, map, Option, none, some, Text, Bytes,
  codes, Result, ok, err, panicked, map_err, ◌==◌, nat_eq, text_eq, if◌then◌else◌, ◌>>=◌, is_empty,
  length,
}
use crucible_prover.Bag
use crucible_prover.Circuit.{CircuitId, circuit_id_eq, Version, version_eq}
use crucible_prover.External.{Sha256, Hex}
use crucible_prover.Field.{FieldValue, field_value_eq}
use crucible_prover.Machine.{FilePath, join, Machine, Json}
use crucible_prover.Provider.{Verifier, VerifierError, verification_unavailable, internal_verifier}
use crucible_prover.Request.{BackendId, backend_id_eq, ultrahonk_id, StateReference, root_halves}
use crucible_prover.Response.{
  ultrahonk_format, ArtifactChecksum, artifact_checksum_eq, VerificationRequest,
  VerificationFailure, VerificationOutcome, accepted, rejected, invalid_proof,
  state_reference_mismatch, wrong_verification_key, circuit_mismatch, version_mismatch,
  artifact_checksum_mismatch, backend_mismatch, missing_state_binding,
}
use crucible_prover.UltraHonk.{UltraHonkError, missing_file, parse}
use crucible_prover.UltraHonk.Backend.{ultrahonk_backend, tested_bb_version}
use crucible_prover.UltraHonk.Describe.{to_string}
use crucible_prover.UltraHonk.Exec
use crucible_prover.UltraHonk.Exec.{VerifyOptions, VerifyOutcome}
use crucible_prover.UltraHonk.Store.{VkStore, get}
use crucible_prover.UltraHonk.Toolchain.{locate, check_version}
use crucible_prover.UltraHonk.Words.{
  ProofDocument, PublicInputsDocument, VkDocument, scheme_ultra_honk, pad_64, blob_words,
}

-- An early return of the rejection, if there is one.
abbrev pub stop :
    Option VerificationFailure
    → Result VerifierError VerificationOutcome
    → Result VerifierError VerificationOutcome
stop none rest = rest
stop (some failure) rest = ok (rejected failure)

unfoldable pub check_parts :
    VerificationRequest → CircuitId × Version × ArtifactChecksum → Option VerificationFailure
check_parts q (circuit, version, artifact) =
    if not (circuit == q.circuit)
    then some circuit_mismatch
    else if not (version == q.circuit_version)
    then some version_mismatch
    else if not (artifact == q.artifact_checksum)
    then some artifact_checksum_mismatch
    else none

unfoldable pub check_id :
    VerificationRequest
    → Result UltraHonkError (CircuitId × Version × ArtifactChecksum)
    → Option VerificationFailure
check_id q (ok parts) = check_parts q parts
check_id q (err e) = some wrong_verification_key
check_id q panicked = some wrong_verification_key

-- The routing, and what the verification key id pins.
unfoldable pub check_context : VerificationRequest → Option VerificationFailure
check_context q =
    if not (q.proof.format.tag == ultrahonk_format) || not (q.backend == ultrahonk_backend)
    then some backend_mismatch
    else check_id q (parse q.verification_key_id.id)

-- Whole field words only.
unfoldable pub check_bytes : Bytes → Option VerificationFailure
check_bytes bytes =
    if is_empty bytes || not (length bytes % 32 == 0) then some invalid_proof else none

-- The words of the state root, where both are there, against the state.
unfoldable pub check_state :
    Option FieldValue
    → Option FieldValue
    → Option StateReference
    → Result VerifierError (Option VerificationFailure)
check_state (some root_hi) (some root_lo) none = ok (some missing_state_binding)
check_state (some root_hi) (some root_lo) (some state) = do
  halves ← root_halves state
  ok (
      if not (root_hi == halves.0) || not (root_lo == halves.1)
      then some state_reference_mismatch
      else none)
check_state _ _ state = ok none

unfoldable pub state_failure :
    VerificationRequest → Result VerifierError (Option VerificationFailure)
state_failure q =
    check_state (Bag.get q.public_outputs (codes "root_hi"))
      (Bag.get q.public_outputs (codes "root_lo")) q.state_reference

abbrev pub is_missing_file : UltraHonkError → Bool
is_missing_file (missing_file path) = true
is_missing_file _ = false

-- A key that was not loaded.
unfoldable pub key_error : UltraHonkError → Result VerifierError VerificationOutcome
key_error e =
    if is_missing_file e
    then ok (rejected wrong_verification_key)
    else err (internal_verifier (codes "cannot load verification key: " ++ to_string e))

unfoldable pub outcome_of : VerifyOutcome → VerificationOutcome
outcome_of outcome = if outcome.verified then accepted else rejected invalid_proof

abbrev pub unavailable : Text → VerifierError
unavailable reason = verification_unavailable ultrahonk_id reason

module _ (x : Hex) where
  -- The document of `write_proof_json`.
  unfoldable pub proof_document : Bytes → VkDocument → ProofDocument
  proof_document bytes vk = record {
    proof = blob_words x bytes;
    vk_hash = vk.hash;
    bb_version = vk.bb_version;
    scheme = vk.scheme;
  }

-- The document of `write_public_inputs_json`.
unfoldable pub inputs_document : VerificationRequest → PublicInputsDocument
inputs_document q = record {
  public_inputs = map (λ e. codes "0x" ++ pad_64 (e.1).hex) (Bag.iter q.public_outputs);
  bb_version = tested_bb_version;
  scheme = scheme_ultra_honk;
}

module _ {S : Type 0} (sha : Sha256) (x : Hex) (m : Machine S) (docs : Exec.Documents) where
  -- `write_proof_json`, `write_vk_json` and `write_public_inputs_json`, for the document and its name.
  unfoldable pub write_json :
      {D : Type 0} → Json D → Text → S → FilePath → D → Result VerifierError S
  write_json json what s path doc = do
    text ←
        map_err (λ e. internal_verifier (codes "cannot serialize " ++ (what ++ (codes ": " ++ e))))
          (json.to_string doc)
    map_err (λ e. internal_verifier (codes "cannot write " ++ (what ++ (codes ": " ++ e))))
        (m.write s path text)

  -- The scratch directory with its three files.
  unfoldable pub rebuild :
      S → VerificationRequest → VkDocument → Result VerifierError (S × VerifyOptions)
  rebuild s q vk = do
    scratch ←
        map_err (λ e. internal_verifier (codes "cannot create verification scratch dir: " ++ e))
          (m.tempdir s)
    let proof_path = join scratch.1 (codes "proof.json")
    let vk_path = join scratch.1 (codes "vk.json")
    let inputs_path = join scratch.1 (codes "public_inputs.json")
    s1 ←
        write_json docs.proofs (codes "proof document") scratch.0 proof_path
          (proof_document x q.proof.bytes vk)
    s2 ← write_json docs.keys (codes "verification key") s1 vk_path vk
    s3 ← write_json docs.inputs (codes "public inputs") s2 inputs_path (inputs_document q)
    ok (s3, record { proof = proof_path; vk = vk_path; public_inputs = inputs_path })

  -- What `bb` decides.
  unfoldable pub decide :
      S → VerificationRequest → VkDocument → Result VerifierError VerificationOutcome
  decide s q vk = do
    bb ←
        map_err (λ e. unavailable (codes "bb binary not found on PATH (see scripts/check-bb.sh)"))
          (locate m s)
    _ ← map_err (λ e. unavailable (to_string e)) (check_version m bb s)
    files ← rebuild s q vk
    outcome ←
        map_err (λ e. unavailable (codes "bb verify failed to run: " ++ to_string e))
          (Exec.verify m bb files.0 files.1)
    ok (outcome_of outcome)

  unfoldable pub with_key :
      S
      → VerificationRequest
      → Result UltraHonkError VkDocument
      → Result VerifierError VerificationOutcome
  with_key s q (ok vk) =
      stop (check_bytes q.proof.bytes) (do failure ← state_failure q; stop failure (decide s q vk))
  with_key s q (err e) = key_error e
  with_key s q panicked = panicked

  -- `UltraHonkVerifier::verify`
  unfoldable pub verify :
      VkStore → S → VerificationRequest → Result VerifierError VerificationOutcome
  verify store s q =
      stop (check_context q) (with_key s q (get sha x m docs.keys store s q.verification_key_id))

  -- The verifier as the service calls it.
  unfoldable pub ultrahonk_verifier : VkStore → S → Verifier
  ultrahonk_verifier store s = record { backend = ultrahonk_backend; verify = verify store s }
