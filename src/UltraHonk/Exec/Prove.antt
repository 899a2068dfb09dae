-- ===== src/UltraHonk/Exec/Prove.antt =====
-- `prove` of crates/ultrahonk/src/exec.rs, and what its artifacts agree on.
use crucible_prover.Base.{
  Bool, true, false, not, List, [], ◌∷◌, ◌++◌, Option, none, some, Text, codes, Result, ok, err,
  map_err, ◌==◌, text_eq, if◌then◌else◌, ◌>>=◌,
}
use crucible_prover.External.{Hex}
use crucible_prover.Machine.{FilePath, join, display, Machine}
use crucible_prover.UltraHonk.{UltraHonkError, io, command_failed, inconsistent_artifacts}
use crucible_prover.UltraHonk.Toolchain.{BbToolchain, check_version}
use crucible_prover.UltraHonk.Words.{
  ProofDocument, PublicInputsDocument, VkDocument, validate_provenance, vk_hash_bytes, hash_bytes,
}
use crucible_prover.UltraHonk.Exec.{
  ProveOptions, ProvenArtifacts, Documents, require_file, read_document, run_bb, excerpt,
}

-- The arguments of `bb prove`.
unfoldable pub prove_args : ProveOptions → List Text
prove_args options =
    codes "prove"
    ∷ codes "-b"
    ∷ display options.bytecode
    ∷ codes "-w"
    ∷ display options.witness
    ∷ codes "-o"
    ∷ display options.output_dir
    ∷ ((if options.write_vk then codes "--write_vk" ∷ [] else [])
        ++ codes "--output_format" ∷ codes "json" ∷ [])

module _ (x : Hex) where
  -- The digest that the proof embeds is that of the key.
  unfoldable pub same_digest : ProofDocument → VkDocument → Result UltraHonkError (Unit {0})
  same_digest proof vk = do
    proof_hash ← vk_hash_bytes x proof
    vk_hash ← hash_bytes x vk
    if not (vk_hash == proof_hash)
        then err (
            inconsistent_artifacts
              (codes "proof embeds a different verification-key digest than vk.json"))
        else ok tt

  unfoldable pub check_vk : ProofDocument → Option VkDocument → Result UltraHonkError (Unit {0})
  check_vk proof none = ok tt
  check_vk proof (some vk) = do
    _ ← validate_provenance (codes "verification key") vk.scheme vk.bb_version
    same_digest proof vk

  -- The checks of the documents that `bb` wrote.
  unfoldable pub check_documents :
      ProofDocument → PublicInputsDocument → Option VkDocument → Result UltraHonkError (Unit {0})
  check_documents proof inputs vk = do
    _ ← validate_provenance (codes "proof") proof.scheme proof.bb_version
    _ ← validate_provenance (codes "public inputs") inputs.scheme inputs.bb_version
    check_vk proof vk

module _ {S : Type 0} (x : Hex) (m : Machine S) (docs : Documents) where
  unfoldable pub read_vk : Bool → S → FilePath → Result UltraHonkError (Option VkDocument)
  read_vk false s dir = ok none
  read_vk true s dir = do
    vk ← read_document m docs.keys s (join dir (codes "vk.json"))
    ok (some vk)

  unfoldable pub check_artifacts : S → ProvenArtifacts → Result UltraHonkError (S × ProvenArtifacts)
  check_artifacts s a = do _ ← check_documents x a.proof a.public_inputs a.vk; ok (s, a)

  -- What `bb` wrote, read and checked.
  unfoldable pub collect : ProveOptions → S → Result UltraHonkError (S × ProvenArtifacts)
  collect options s = do
    proof ← read_document m docs.proofs s (join options.output_dir (codes "proof.json"))
    inputs ← read_document m docs.inputs s (join options.output_dir (codes "public_inputs.json"))
    vk ← read_vk options.write_vk s options.output_dir
    check_artifacts s
        (record { output_dir = options.output_dir; proof = proof; public_inputs = inputs; vk = vk })

  -- Whether the process succeeded, and its diagnostics.
  unfoldable pub finish :
      ProveOptions → S → Bool → Text → Result UltraHonkError (S × ProvenArtifacts)
  finish options s true stderr = collect options s
  finish options s false stderr = do
    reason ← excerpt stderr
    err (command_failed (codes "prove") reason)

  -- `prove`
  unfoldable pub prove :
      BbToolchain → S → ProveOptions → Result UltraHonkError (S × ProvenArtifacts)
  prove bb s options = do
    _ ← check_version m bb s
    _ ← require_file m s options.bytecode
    _ ← require_file m s options.witness
    s1 ← map_err (io (display options.output_dir)) (m.create_dir_all s options.output_dir)
    out ← (run_bb m bb s1 (prove_args options)).1
    finish options (run_bb m bb s1 (prove_args options)).0 out.success out.stderr
