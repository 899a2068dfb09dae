-- ===== src/Artifacts.antt =====
-- Circuit artifacts: the errors of crates/artifacts/src/errors.rs, the manifests of manifest.rs and
-- the checksums of checksum.rs.
pub mod Tree
pub mod Loader
pub mod Sorting
pub mod Normal
use crucible_prover.Base.{
  ℕ, ◌<◌, ◌^◌, Bool, ◌≡◌, true, false, not, ◌&&◌, ◌||◌, List, [], ◌∷◌, ◌++◌, map, Option, none,
  some, Text, Bytes, codes, Result, ok, err, panicked, map_err, expect, ltb, ◌==◌, nat_eq, text_eq,
  if◌then◌else◌, ◌>>=◌, is_empty, all, any, split, as_bytes, find?,
}
use crucible_prover.Circuit.{CircuitId, Version}
use crucible_prover.Circuit.VersionText.{FitsU32}
use crucible_prover.External.{Sha256, Hex}
use crucible_prover.Mock.{checksum_from_bytes}
use crucible_prover.Request.{BackendId}
use crucible_prover.Response.{ArtifactChecksum, VerificationKeyId}

pub data ArtifactError : Type 0 where
  malformed_manifest : Text → ArtifactError
  unsupported_manifest_version : ℕ → ℕ → ArtifactError
  missing_file unexpected_file : Text → ArtifactError
  checksum_mismatch : Text → ArtifactChecksum → ArtifactChecksum → ArtifactError
  integrity_mismatch : ArtifactError
  unsafe_path : Text → ArtifactError
  read_failure : Text → Text → ArtifactError

abbrev pub manifest_schema_version : ℕ
manifest_schema_version = 1

abbrev pub manifest_filename : Text
manifest_filename = codes "manifest.json"

pub record ManifestFile : Type 0 where
  pub path : Text
  pub sha256 : ArtifactChecksum
  pub kind : Option Text

-- The metadata in the order of its keys.
pub record ArtifactManifest : Type 0 where
  pub manifest_version : ℕ
  pub circuit : CircuitId
  pub circuit_version : Version
  pub artifact_version : Version
  pub backend : BackendId
  pub verification_key_id : Option VerificationKeyId
  pub files : List ManifestFile
  pub backend_metadata : List (Text × Text)

-- A part between slashes that names an entry of a directory.
abbrev pub is_plain_part : Text → Bool
is_plain_part part = not (is_empty part) && (not (part == codes ".") && not (part == codes ".."))

abbrev pub starts_with_slash : Text → Bool
starts_with_slash [] = false
starts_with_slash (c ∷ s) = c == b'/'

unfoldable pub is_safe_relative_path : Text → Bool
is_safe_relative_path path =
    not (is_empty path)
    && (not (starts_with_slash path)
        && (not (any (λ c. c == 0x5C) path)
            && (not (any (λ c. c == 0) path) && all is_plain_part (split b'/' path))))

-- The order of texts by their bytes, which is that of their code points.
unfoldable pub before : Text → Text → Bool
before [] [] = false
before [] (d ∷ t) = true
before (c ∷ s) [] = false
before (c ∷ s) (d ∷ t) = ltb c d || c == d && before s t

-- `sort_by` on the paths, which is stable.
unfoldable pub insert_file : ManifestFile → List ManifestFile → List ManifestFile
insert_file f [] = f ∷ []
insert_file f (g ∷ gs) = if before g.path f.path then g ∷ insert_file f gs else f ∷ g ∷ gs

unfoldable pub sort_files : List ManifestFile → List ManifestFile
sort_files [] = []
sort_files (f ∷ fs) = insert_file f (sort_files fs)

-- The loop of `normalize` over the files.
unfoldable pub check_paths : List ManifestFile → Result ArtifactError (Unit {0})
check_paths [] = ok tt
check_paths (f ∷ fs) =
    if not (is_safe_relative_path f.path) then err (unsafe_path f.path) else check_paths fs

unfoldable pub sort_manifest : ArtifactManifest → Result ArtifactError ArtifactManifest
sort_manifest m = do _ ← check_paths m.files; ok (record m { files = sort_files m.files })

-- `ArtifactManifest::normalize`
unfoldable pub normalize : ArtifactManifest → Result ArtifactError ArtifactManifest
normalize m =
    if not (m.manifest_version == manifest_schema_version)
    then err (unsupported_manifest_version m.manifest_version manifest_schema_version)
    else sort_manifest m

-- Entries in the order of their keys, as a `BTreeMap` has them.
abbrev pub IsOrdered : List (Text × Text) → Type 0
IsOrdered [] = Unit
IsOrdered (e ∷ []) = Unit
IsOrdered (e ∷ f ∷ fs) = (before e.0 f.0 ≡ true) × IsOrdered (f ∷ fs)

-- A manifest that the types of the code can hold.
pub record IsSerializable (m : ArtifactManifest) : Type 0 where
  pub version_fits : m.manifest_version < 2 ^ 32
  pub circuit_fits : FitsU32 m.circuit_version
  pub artifact_fits : FitsU32 m.artifact_version
  pub ordered : IsOrdered m.backend_metadata

-- `serde_json::from_slice` and `to_vec` for manifests; an error is its text.
pub record ManifestJson : Type 0 where
  pub from_slice : Bytes → Result Text ArtifactManifest
  pub to_vec : ArtifactManifest → Result Text Bytes
  pub from_slice-to_vec :
      (m : ArtifactManifest) {b : Bytes} → IsSerializable m → to_vec m ≡ ok b → from_slice b ≡ ok m

-- `ArtifactManifest::parse`
unfoldable pub parse_manifest : ManifestJson → Bytes → Result ArtifactError ArtifactManifest
parse_manifest json bytes = do m ← map_err malformed_manifest (json.from_slice bytes); normalize m

-- `to_canonical_json`; its `expect` panics where the serializer fails.
unfoldable pub to_canonical_json : {E : Type 0} → ManifestJson → ArtifactManifest → Result E Bytes
to_canonical_json json m = expect (json.to_vec m)

unfoldable pub manifest_checksum :
    {E : Type 0} → Sha256 → Hex → ManifestJson → ArtifactManifest → Result E ArtifactChecksum
manifest_checksum sha hex json m = do
  bytes ← to_canonical_json json m
  ok (checksum_from_bytes sha hex bytes)

abbrev pub find_checksum : Text → List ManifestFile → Option ArtifactChecksum
find_checksum path [] = none
find_checksum path (f ∷ fs) = if f.path == path then some f.sha256 else find_checksum path fs

-- `ArtifactManifest::file_checksum`
unfoldable pub file_checksum : ArtifactManifest → Text → Option ArtifactChecksum
file_checksum m path = find_checksum path m.files

-- What `artifact_checksum` hashes.
unfoldable pub entries_bytes : List (Text × ArtifactChecksum) → Bytes
entries_bytes [] = []
entries_bytes ((path, checksum) ∷ entries) =
    as_bytes path ++ 0 ∷ (as_bytes checksum.hex ++ 0 ∷ entries_bytes entries)

-- `artifact_checksum` of checksum.rs: the digest of the digest.
unfoldable pub artifact_checksum : Sha256 → Hex → List (Text × ArtifactChecksum) → ArtifactChecksum
artifact_checksum sha hex entries = checksum_from_bytes sha hex (sha.digest (entries_bytes entries))
