-- ===== src/UltraHonk/Scratch.antt =====
-- The scratch copy of a circuit package, and the witness that is solved in it:
-- `UltraHonkConfig`, `solve_witness`, `copy_package_sources` and `copy_tree` of
-- crates/ultrahonk/src/provider.rs.
use crucible_prover.Base.{
  not, List, [], ◌∷◌, ◌++◌, none, some, Text, codes, Result, ok, err, ok_or, map_err, if◌then◌else◌,
  ◌>>=◌,
}
use crucible_prover.Machine.{
  FilePath, join, display, parent, Node, file, folder, locked, special, Entries, none_left, entry,
  Machine,
}
use crucible_prover.Noir
use crucible_prover.Noir.Compiler.{CapturedExecute, execute_captured}
use crucible_prover.Noir.Toolchain.{NoirToolchain}
use crucible_prover.Provider.{ProviderError, backend_unavailable, proof_generation}
use crucible_prover.Request.{ProofRequest, ultrahonk_id}
use crucible_prover.UltraHonk.Store.{VkStore}
use crucible_prover.Witness.{from_request}
use crucible_prover.Witness.File
use crucible_prover.Witness.File.{write_prover_toml}

pub record UltraHonkConfig : Type 0 where
  pub circuits_root : FilePath
  pub artifact_root : FilePath
  pub vk_store : VkStore

-- `UltraHonkConfig::new`
unfoldable pub config_new : FilePath → VkStore → UltraHonkConfig
config_new circuits_root vk_store = record {
  circuits_root = circuits_root;
  artifact_root = circuits_root ++ codes ".." ∷ codes "artifacts" ∷ codes "circuits" ∷ [];
  vk_store = vk_store;
}

unfoldable pub with_artifact_root : UltraHonkConfig → FilePath → UltraHonkConfig
with_artifact_root config artifact_root = record config { artifact_root = artifact_root }

abbrev pub generation : Text → ProviderError
generation reason = proof_generation ultrahonk_id reason

abbrev pub no_backend : Text → ProviderError
no_backend reason = backend_unavailable ultrahonk_id reason

-- A name in quotation marks of Markdown.
abbrev pub quoted : Text → Text
quoted s = b'`' ∷ (s ++ b'`' ∷ [])

module _ {S : Type 0} (m : Machine S) where
  unfoldable pub create_dir : S → FilePath → Result Text S
  create_dir s path =
      map_err (λ e. codes "cannot create " ++ (quoted (display path) ++ (codes ": " ++ e)))
        (m.create_dir_all s path)

  unfoldable pub create_parent : S → FilePath → Result Text S
  create_parent s to = elim (parent to) [ none ↦ ok s | some up ↦ create_dir s up ]

  unfoldable pub copy_file : S → FilePath → FilePath → Result Text S
  copy_file s from to = do
    s1 ← create_parent s to
    map_err
        (λ e.
          codes "cannot copy "
          ++ (quoted (display from)
              ++ (codes " -> " ++ (quoted (display to) ++ (codes ": " ++ e)))))
        (m.copy s1 from to)

  -- `copy_tree`, for what stands at the path `from`.
  unfoldable mutual
    pub copy_node : S → FilePath → FilePath → Node → Result Text S
    copy_node s from to (file content) = copy_file s from to
    copy_node s from to (folder entries) = do s1 ← create_dir s to; copy_entries s1 from to entries
    copy_node s from to (locked reason) = do
      s1 ← create_dir s to
      err (codes "cannot read " ++ (quoted (display from) ++ (codes ": " ++ reason)))
    copy_node s from to special = ok s

    pub copy_entries : S → FilePath → FilePath → Entries → Result Text S
    copy_entries s from to none_left = ok s
    copy_entries s from to (entry name node rest) = do
      s1 ← copy_node s (join from name) (join to name) node
      copy_entries s1 from to rest

  unfoldable pub copy_tree : S → FilePath → FilePath → Result Text S
  copy_tree s from to = copy_node s from to (m.snapshot s from)

  -- The loop over what a package must have.
  unfoldable pub check_required : FilePath → Text → S → List Text → Result Text (Unit {0})
  check_required circuits_root op s [] = ok tt
  check_required circuits_root op s (required ∷ more) =
      if not (m.exists s (join (join circuits_root op) required))
      then err (
          codes "circuit package "
          ++ (quoted op
              ++ (codes " is missing "
                  ++ (quoted required ++ (codes " under " ++ quoted (display circuits_root))))))
      else check_required circuits_root op s more

  -- The manifest and the sources of one package.
  unfoldable pub copy_package : FilePath → FilePath → Text → S → Result Text S
  copy_package from to name s = do
    s1 ←
        copy_tree s (join (join from name) (codes "Nargo.toml"))
          (join (join to name) (codes "Nargo.toml"))
    copy_tree s1 (join (join from name) (codes "src")) (join (join to name) (codes "src"))

  unfoldable pub copy_package_sources : FilePath → Text → FilePath → S → Result Text S
  copy_package_sources circuits_root op scratch_root s = do
    _ ← check_required circuits_root op s (codes "Nargo.toml" ∷ codes "src" ∷ [])
    s1 ← copy_package circuits_root scratch_root op s
    copy_package circuits_root scratch_root (codes "lib") s1

  -- The precompiled bytecode in the scratch package.
  unfoldable pub place_bytecode : FilePath → Text → FilePath → S → Result ProviderError S
  place_bytecode circuits_root op target_dir s = do
    s1 ←
        map_err (λ e. generation (codes "cannot create scratch target dir: " ++ e))
          (m.create_dir_all s target_dir)
    map_err (λ e. generation (codes "cannot copy bytecode into scratch: " ++ e))
        (m.copy s1 (join (join circuits_root (codes "target")) (op ++ codes ".json"))
          (join target_dir (op ++ codes ".json")))

  -- The path of the witness, if there is one.
  unfoldable pub solved_path : S × CapturedExecute → Result ProviderError (S × FilePath)
  solved_path (s, c) =
      if not c.solved
      then err (
          generation (
            codes
              "the witness did not solve: the request's private values do not satisfy the circuit constraints (wrong owner, overdraw, or opening mismatch)"))
      else do
        path ←
            ok_or (generation (codes "nargo reported a solved witness but wrote no witness file"))
              c.witness_path
        ok (s, path)

  -- `solve_witness`
  unfoldable pub solve_witness :
      UltraHonkConfig
      → NoirToolchain
      → ProofRequest
      → FilePath
      → S
      → Result ProviderError (S × FilePath)
  solve_witness config nargo r scratch_root s = do
    let op = r.circuit.id
    let package_dir = join scratch_root op
    s1 ← map_err generation (copy_package_sources config.circuits_root op scratch_root s)
    s2 ← place_bytecode config.circuits_root op (join package_dir (codes "target")) s1
    s3 ←
        map_err (λ e. generation (codes "cannot write witness Prover.toml: " ++ File.to_string e))
          (write_prover_toml m s2 (from_request r) (join package_dir (codes "Prover.toml")))
    captured ←
        map_err (λ e. no_backend (codes "nargo execute failed: " ++ Noir.to_string e))
          (execute_captured m nargo s3 package_dir (codes "Prover") (codes "witness"))
    solved_path captured
