-- ===== src/UltraHonk/Provider.antt =====
-- The provider that makes UltraHonk proofs: `generate` and `field_from_word` of
-- crates/ultrahonk/src/provider.rs.
pub mod Stages
pub mod Outputs
pub mod Composition
use crucible_prover.Base.{
  ℕ, Bool, not, List, [], ◌∷◌, ◌++◌, Option, none, some, Text, Bytes, codes, Result, ok, err, ok_or,
  map_err, ◌==◌, nat_eq, if◌then◌else◌, ◌>>=◌, is_empty, length, trim_start_matches, show_u32, true,
}
use crucible_prover.Artifacts.{ArtifactError, missing_file, read_failure}
use crucible_prover.Artifacts.Loader
use crucible_prover.Artifacts.Loader.{Loading, load, file_of}
use crucible_prover.Bag
use crucible_prover.Bag.{OutputBag}
use crucible_prover.Expectations.{
  CircuitExpectations, expectations, public_names, public_word_count,
}
use crucible_prover.Field.{FieldValue, strip_0x, from_hex}
use crucible_prover.Field.Describe
use crucible_prover.Machine.{FilePath, join, Machine}
use crucible_prover.Mock.{checksum_from_bytes}
use crucible_prover.Noir
use crucible_prover.Noir.Toolchain as Nargo
use crucible_prover.Provider.{
  ProviderError, invalid_request, unsupported_circuit, artifact_unavailable, artifact_integrity,
  proof_generation, internal,
}
use crucible_prover.Request.{ProofRequest, backend_id_eq, ultrahonk_id, validate}
use crucible_prover.Response.{
  ultrahonk_format, ArtifactChecksum, VerificationKeyId, verification_key_id, ProofResponse,
}
use crucible_prover.UltraHonk.{id_for}
use crucible_prover.UltraHonk.Backend.{ultrahonk_backend, supports}
use crucible_prover.UltraHonk.Describe.{to_string}
use crucible_prover.UltraHonk.Exec.{ProvenArtifacts, Documents}
use crucible_prover.UltraHonk.Exec.Prove.{prove}
use crucible_prover.UltraHonk.Scratch.{
  UltraHonkConfig, generation, no_backend, quoted, solve_witness,
}
use crucible_prover.UltraHonk.Store.{put}
use crucible_prover.UltraHonk.Toolchain
use crucible_prover.UltraHonk.Words.{VkDocument, proof_bytes}

-- `field_from_word`; the error is its text.
unfoldable pub word_digits : Text → Text
word_digits word =
    let trimmed = trim_start_matches b'0' (strip_0x word) in
    if is_empty trimmed then b'0' ∷ [] else trimmed

unfoldable pub field_from_word : Text → Result Text FieldValue
field_from_word word =
    map_err
      (λ e.
        codes "public input word "
        ++ (quoted word ++ (codes " is not canonical: " ++ Describe.to_string e)))
      (from_hex (word_digits word))

-- The requests that the provider takes.
unfoldable pub check_request : ProofRequest → Result ProviderError (Unit {0})
check_request r = do
  _ ← map_err invalid_request (validate r)
  if not (r.backend == ultrahonk_backend)
      then err (
          proof_generation r.backend.id
            (codes "request targets a different backend than the ultrahonk provider"))
      else if not (supports r.circuit r.circuit_version)
      then err (unsupported_circuit r.backend.id r.circuit r.circuit_version)
      else ok tt

abbrev pub no_artifact : ProofRequest → ProviderError
no_artifact r = artifact_unavailable ultrahonk_id r.circuit r.circuit_version

-- The error of the loader, as the provider reports it.
unfoldable pub artifact_error : ProofRequest → ArtifactError → ProviderError
artifact_error r (read_failure path reason) = no_artifact r
artifact_error r (missing_file path) = no_artifact r
artifact_error r _ = artifact_integrity r.circuit r.circuit_version

unfoldable pub key_id_of : ProofRequest → ArtifactChecksum → Result ProviderError VerificationKeyId
key_id_of r checksum =
    map_err
      (λ _.
        internal
          (codes "cannot form verification key id: verification key id must be 1..=128 characters"))
      (verification_key_id (id_for r.circuit r.circuit_version checksum))

-- The loop over the names and the words, as far as both go.
unfoldable pub name_words : OutputBag → List Text → List Text → Result ProviderError OutputBag
name_words bag (name ∷ names) (word ∷ words) = do
  value ← map_err generation (field_from_word word)
  next ←
      map_err (λ e. internal (codes "cannot assemble public outputs: " ++ Describe.to_string e))
        (Bag.insert bag name value)
  name_words next names words
name_words bag _ _ = ok bag

unfoldable pub name_outputs : ProofRequest → List Text → Result ProviderError OutputBag
name_outputs r words =
    let spec = expectations r.operation in
    if not (length words == public_word_count spec)
    then err (
        generation (
          codes "circuit "
          ++ (quoted r.circuit.id
              ++ (codes " reported "
                  ++ (show_u32 (length words)
                      ++ (codes " public input words but its pinned surface has "
                          ++ (show_u32 (public_word_count spec)
                              ++ codes " (circuit source and expectations spec drifted)")))))))
    else name_words Bag.new (public_names spec) words

-- The response of a proof and its outputs.
unfoldable pub response_of :
    ProofRequest → ArtifactChecksum → VerificationKeyId → OutputBag → Bytes → ProofResponse
response_of r checksum id outputs bytes = record {
  request_id = r.request_id;
  circuit = r.circuit;
  circuit_version = r.circuit_version;
  backend = ultrahonk_backend;
  proof = record { format = record { tag = ultrahonk_format }; bytes = bytes };
  public_outputs = outputs;
  verification_key_id = id;
  artifact_checksum = checksum;
  state_reference = r.state_reference;
}

-- The tools, as they are found.
pub record Tools : Type 0 where
  pub bb : Toolchain.BbToolchain
  pub nargo : Nargo.NoirToolchain

module _ {S : Type 0} (m : Machine S) where
  unfoldable pub find_tools : S → Result ProviderError Tools
  find_tools s = do
    bb ←
        map_err (λ _. no_backend (codes "bb binary not found on PATH (see scripts/check-bb.sh)"))
          (Toolchain.locate m s)
    nargo ←
        map_err
          (λ _. no_backend (codes "nargo binary not found on PATH (see scripts/check-circuits.sh)"))
          (Nargo.locate m s)
    _ ← map_err (λ e. no_backend (to_string e)) (Toolchain.check_version m bb s)
    _ ← map_err (λ e. no_backend (Noir.to_string e)) (Nargo.check_version m nargo s)
    ok (record { bb = bb; nargo = nargo })

module _ {S : Type 0} (m : Machine S) (l : Loading) (docs : Documents)
    (config : UltraHonkConfig) where
  abbrev pub artifact_dir : ProofRequest → FilePath
  artifact_dir r = join config.artifact_root r.circuit.id

  abbrev pub bytecode_name : ProofRequest → Text
  bytecode_name r = r.circuit.id ++ codes ".json"

  -- The bytecode, checked against the manifest of its directory.
  unfoldable pub load_bytecode : S → ProofRequest → Result ProviderError Bytes
  load_bytecode s r = do
    loaded ←
        map_err (artifact_error r)
          (load l Loader.new (artifact_dir r) (m.snapshot s (artifact_dir r)))
    ok_or (no_artifact r) (file_of loaded (bytecode_name r))

  -- The witness in its scratch directory, and the proof in another.
  unfoldable pub solve_and_prove :
      Tools → ProofRequest → S → Result ProviderError (S × ProvenArtifacts)
  solve_and_prove tools r s = do
    scratch ← map_err (λ e. generation (codes "cannot create scratch dir: " ++ e)) (m.tempdir s)
    witness ← solve_witness m config tools.nargo r scratch.1 scratch.0
    out_dir ←
        map_err (λ e. generation (codes "cannot create proof scratch dir: " ++ e))
          (m.tempdir witness.0)
    map_err (λ e. generation (to_string e))
        (prove l.hex m docs tools.bb out_dir.0 (record {
          bytecode = join (artifact_dir r) (bytecode_name r);
          witness = witness.1;
          output_dir = out_dir.1;
          write_vk = true;
        }))

  unfoldable pub store_key : S → VerificationKeyId → Option VkDocument → Result ProviderError S
  store_key s id none = ok s
  store_key s id (some vk) =
      map_err (λ e. generation (codes "cannot store verification key: " ++ to_string e))
        (put l.sha l.hex m docs.keys config.vk_store s id vk)

  -- The response, once its artifacts are made.
  unfoldable pub respond :
      ProofRequest
      → ArtifactChecksum
      → VerificationKeyId
      → S × ProvenArtifacts
      → Result ProviderError (S × ProofResponse)
  respond r checksum id (s, made) = do
    outputs ← name_outputs r made.public_inputs.public_inputs
    s' ← store_key s id made.vk
    bytes ←
        map_err (λ e. generation (codes "cannot decode proof bytes: " ++ to_string e))
          (proof_bytes l.hex made.proof)
    ok (s', response_of r checksum id outputs bytes)

  -- The scratch directories are removed in the end, which is not modelled.
  unfoldable pub generate : S → ProofRequest → Result ProviderError (S × ProofResponse)
  generate s r = do
    _ ← check_request r
    tools ← find_tools m s
    bytes ← load_bytecode s r
    let checksum = checksum_from_bytes l.sha l.hex bytes
    id ← key_id_of r checksum
    made ← solve_and_prove tools r s
    respond r checksum id made
