-- ===== src/Examples/Artifacts.antt =====
-- Examples for artifacts: a manifest, and a directory with what it declares.
use crucible_prover.Base.{
  true, List, [], ◌∷◌, none, Text, codes, ok, ◌≡◌, refl, text_eq, replicate, ℕ_discrete,
  List_ℕ-discrete, Eq, split, split_onto,
}
use crucible_prover.Artifacts.{
  ManifestFile, ArtifactManifest, ManifestJson, is_safe_relative_path, before, insert_file,
  sort_files, check_paths, sort_manifest, normalize, parse_manifest, file_checksum,
}
use crucible_prover.Artifacts.Normal.{IsNormal, normalize-IsNormal}
use crucible_prover.Artifacts.Tree.{
  collect_node, collect_entries, walk_files, read_file, find_node, find_entry, resolve_safe, below,
  rel_text,
}
use crucible_prover.Machine.{Node, file, folder, none_left, entry}
use crucible_prover.Artifacts.Loader.{
  LoadedArtifact, ArtifactLoader, Loading, file_of, check_entries, check_strict, check_digest,
  verify_file, verify_files, load_declared, load_with_manifest,
}
use crucible_prover.Artifacts.Loader.Integrity.{digest_of, file_of-file_checksum}
use crucible_prover.Circuit.{v0_1}
use crucible_prover.Examples.Crates.{sum_sha, plain_hex, sum, encode}
use crucible_prover.Examples.Machines.{write_only, read_only, read_only-write_only}
use crucible_prover.Machine.{FilePath, display}
use crucible_prover.Mock.{checksum_from_bytes}
use crucible_prover.Response.{ArtifactChecksum, ArtifactChecksum-discrete}
use crucible_prover.UltraHonk.Backend.{ultrahonk_backend}
use mathlib.Core.List.{Perm}

-- The digest of the content `ab`: 0x61 + 0x62 is 0xc3, 32 times.
abbrev pub digest_of_ab : ArtifactChecksum
digest_of_ab = record { hex = encode (replicate 32 0xc3) }

abbrev declared : Text → ManifestFile
declared path = record { path = path; sha256 = digest_of_ab; kind = none }

abbrev manifest_of : List ManifestFile → ArtifactManifest
manifest_of files = record {
  manifest_version = 1;
  circuit = record { id = codes "transfer" };
  circuit_version = v0_1;
  artifact_version = v0_1;
  backend = ultrahonk_backend;
  verification_key_id = none;
  files = files;
  backend_metadata = [];
}

abbrev unsorted : ArtifactManifest
unsorted = manifest_of (declared (codes "k/v") ∷ declared (codes "a") ∷ [])

abbrev sorted : ArtifactManifest
sorted = manifest_of (declared (codes "a") ∷ declared (codes "k/v") ∷ [])

unsorted_normalized : normalize unsorted ≡ ok sorted
unfolding normalize sort_manifest check_paths is_safe_relative_path split split_onto sort_files
    insert_file before ℕ_discrete List_ℕ-discrete
unsorted_normalized = refl

normalize-IsNormal_example :
    IsNormal sorted
    × Perm sorted.files unsorted.files
    × (record unsorted { files = sorted.files } ≡ sorted)
    × (normalize sorted ≡ ok sorted)
normalize-IsNormal_example = normalize-IsNormal unsorted sorted unsorted_normalized

unfoldable pub ArtifactManifest-discrete : Discrete ArtifactManifest
ArtifactManifest-discrete = hlevel ℕ_discrete

instance abbrev pub manifest_eq : Eq ArtifactManifest
manifest_eq = record { discrete = ArtifactManifest-discrete }

unfoldable manifest_json : ManifestJson
manifest_json = record {
  from_slice = read_only sorted;
  to_vec = write_only sorted;
  from_slice-to_vec = λ m s h. read_only-write_only sorted m h;
}

abbrev loading : Loading
loading = record {
  sha = sum_sha;
  hex = plain_hex;
  json = manifest_json;
  reason = λ path. codes "no such file";
}

-- `a`, `k/v` and the manifest, as they stand in the directory.
abbrev directory : Node
directory = folder (
    entry (codes "manifest.json") (file (ok (codes "{}"))) (
      entry (codes "a") (file (ok (codes "ab"))) (
        entry (codes "k") (folder (entry (codes "v") (file (ok (codes "ba"))) none_left))
          none_left)))

abbrev root : FilePath
root = codes "artifacts" ∷ codes "transfer" ∷ []

abbrev loaded : LoadedArtifact
loaded = record {
  manifest = sorted;
  files = (codes "a", codes "ab") ∷ (codes "k/v", codes "ba") ∷ [];
}

abbrev strict_loader : ArtifactLoader
strict_loader = record { is_strict = true }

load_succeeds : load_with_manifest loading strict_loader root directory (codes "{}") ≡ ok loaded
unfolding load_with_manifest manifest_json parse_manifest read_only normalize sort_manifest
    check_paths is_safe_relative_path split split_onto sort_files insert_file before check_strict
    walk_files collect_node collect_entries rel_text display check_entries load_declared
    verify_files verify_file resolve_safe below read_file find_node find_entry check_digest
    checksum_from_bytes sum encode ArtifactChecksum-discrete ℕ_discrete List_ℕ-discrete
load_succeeds = refl

file_of-file_checksum_example :
    digest_of loading (file_of loaded (codes "k/v")) ≡ file_checksum sorted (codes "k/v")
file_of-file_checksum_example =
    file_of-file_checksum loading strict_loader root directory (codes "{}") loaded (codes "k/v")
      load_succeeds
