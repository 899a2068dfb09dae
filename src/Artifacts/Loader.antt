-- ===== src/Artifacts/Loader.antt =====
-- Loading an artifact against its manifest: crates/artifacts/src/loader.rs.
pub mod Integrity
use crucible_prover.Base.{
  ℕ, Bool, true, false, not, ◌&&◌, ◌||◌, List, [], ◌∷◌, ◌++◌, map, Option, none, some, Text, Bytes,
  codes, Result, ok, err, panicked, map_err, ◌==◌, nat_eq, text_eq, if◌then◌else◌, ◌>>=◌, any,
  split,
}
use crucible_prover.Artifacts.{
  ArtifactError, unexpected_file, checksum_mismatch, read_failure, ManifestFile, ArtifactManifest,
  ManifestJson, manifest_filename, parse_manifest,
}
use crucible_prover.Artifacts.Tree.{walk_files, read_file, resolve_safe}
use crucible_prover.Machine.{Node}
use crucible_prover.External.{Sha256, Hex}
use crucible_prover.Machine.{FilePath}
use crucible_prover.Mock.{checksum_from_bytes}
use crucible_prover.Response.{ArtifactChecksum, artifact_checksum_eq}

pub record LoadedArtifact : Type 0 where
  pub manifest : ArtifactManifest
  pub files : List (Text × Bytes)

pub record ArtifactLoader : Type 0 where
  pub is_strict : Bool

-- `ArtifactLoader::new` and `default`
unfoldable pub new : ArtifactLoader
new = record { is_strict = true }

unfoldable pub strict : ArtifactLoader → Bool → ArtifactLoader
strict loader b = record { is_strict = b }

abbrev pub find_file : Text → List (Text × Bytes) → Option Bytes
find_file path [] = none
find_file path (f ∷ fs) = if f.0 == path then some f.1 else find_file path fs

-- `LoadedArtifact::file`
unfoldable pub file_of : LoadedArtifact → Text → Option Bytes
file_of loaded path = find_file path loaded.files

abbrev pub is_declared : List ManifestFile → Text → Bool
is_declared files path = any (λ f. f.path == path) files

-- The loop over the files of the directory, in strict mode.
unfoldable pub check_entries : List ManifestFile → List Text → Result ArtifactError (Unit {0})
check_entries files [] = ok tt
check_entries files (path ∷ paths) =
    if path == manifest_filename || is_declared files path
    then check_entries files paths
    else err (unexpected_file path)

unfoldable pub check_strict :
    Bool → FilePath → Node → List ManifestFile → Result ArtifactError (Unit {0})
check_strict false root node files = ok tt
check_strict true root node files = do paths ← walk_files root node; check_entries files paths

-- The crates and the texts that the loader relies on: `reason` is why a path has no content.
pub record Loading : Type 0 where
  pub sha : Sha256
  pub hex : Hex
  pub json : ManifestJson
  pub reason : FilePath → Text

module _ (l : Loading) where
  -- The content against its declared digest.
  unfoldable pub check_digest : ManifestFile → Bytes → Result ArtifactError (Text × Bytes)
  check_digest f bytes =
      let actual = checksum_from_bytes l.sha l.hex bytes in
      if not (actual == f.sha256)
      then err (checksum_mismatch f.path f.sha256 actual)
      else ok (f.path, bytes)

  unfoldable pub verify_file : FilePath → Node → ManifestFile → Result ArtifactError (Text × Bytes)
  verify_file root node f = do
    disk_path ← resolve_safe root f.path
    bytes ← map_err (read_failure f.path) (read_file l.reason node disk_path)
    check_digest f bytes

  -- The loop over the declared files.
  unfoldable pub verify_files :
      FilePath → Node → List ManifestFile → Result ArtifactError (List (Text × Bytes))
  verify_files root node [] = ok []
  verify_files root node (f ∷ fs) = do
    file ← verify_file root node f
    files ← verify_files root node fs
    ok (file ∷ files)

  unfoldable pub load_declared :
      FilePath → Node → ArtifactManifest → Result ArtifactError LoadedArtifact
  load_declared root node m = do
    files ← verify_files root node m.files
    ok (record { manifest = m; files = files })

  -- `ArtifactLoader::load_with_manifest`
  unfoldable pub load_with_manifest :
      ArtifactLoader → FilePath → Node → Bytes → Result ArtifactError LoadedArtifact
  load_with_manifest loader root node manifest_json = do
    m ← parse_manifest l.json manifest_json
    _ ← check_strict loader.is_strict root node m.files
    load_declared root node m

  -- `ArtifactLoader::load`
  unfoldable pub load : ArtifactLoader → FilePath → Node → Result ArtifactError LoadedArtifact
  load loader root node = do
    bytes ←
        map_err (read_failure manifest_filename) (read_file l.reason node (manifest_filename ∷ []))
    load_with_manifest loader root node bytes
