-- ===== src/UltraHonk/Store.antt =====
-- Verification keys on disk: crates/ultrahonk/src/store.rs.
pub mod Paths
pub mod Keys
use crucible_prover.Base.{
  Bool, not, List, [], ◌∷◌, ◌++◌, Option, none, some, Text, codes, Result, ok, err, panicked, ok_or,
  map_err, ◌==◌, text_eq, if◌then◌else◌, ◌>>=◌, as_bytes,
}
use crucible_prover.Circuit.{CircuitId, Version, show_version}
use crucible_prover.External.{Sha256, Hex}
use crucible_prover.Machine.{FilePath, join, display, parent, Machine, Json}
use crucible_prover.Response.{ArtifactChecksum, VerificationKeyId}
use crucible_prover.UltraHonk.{
  UltraHonkError, parse, io, missing_file, malformed_artifact, inconsistent_artifacts,
}
use crucible_prover.UltraHonk.Words.{VkDocument, scheme_ultra_honk}

pub record VkStore : Type 0 where
  pub root : FilePath

abbrev pub json_suffix : Text
json_suffix = codes ".json"

-- The path of an id that is parsed.
abbrev pub key_path : FilePath → CircuitId × Version × ArtifactChecksum → FilePath
key_path root (circuit, version, artifact) =
    join (join (join root circuit.id) (show_version version)) (artifact.hex ++ json_suffix)

-- The path of any other id.
abbrev pub foreign_path : Sha256 → Hex → FilePath → VerificationKeyId → FilePath
foreign_path sha hex root id =
    join (join root (codes "_foreign")) (hex.encode (sha.digest (as_bytes id.id)) ++ json_suffix)

-- `VkStore::path_for`
unfoldable pub path_for : Sha256 → Hex → VkStore → VerificationKeyId → FilePath
path_for sha hex store id = elim (parse id.id) [
  | ok parts ↦ key_path store.root parts
  | err e ↦ foreign_path sha hex store.root id
  | panicked ↦ foreign_path sha hex store.root id
]

module _ {S : Type 0} (sha : Sha256) (hex : Hex) (m : Machine S) (json : Json VkDocument) where
  -- The directory of a key's path.
  unfoldable pub create_parent : S → FilePath → Result UltraHonkError S
  create_parent s path = do
    up ← ok_or (io (display path) (codes "no parent directory")) (parent path)
    map_err (io (display up)) (m.create_dir_all s up)

  unfoldable pub serialize : FilePath → VkDocument → Result UltraHonkError Text
  serialize path doc =
      map_err (λ e. io (display path) (codes "cannot serialize verification key: " ++ e))
        (json.to_string doc)

  unfoldable pub put_document : S → FilePath → VkDocument → Result UltraHonkError S
  put_document s path doc = do
    s1 ← create_parent s path
    text ← serialize path doc
    map_err (io (display path)) (m.write s1 path text)

  -- `VkStore::put`
  unfoldable pub put : VkStore → S → VerificationKeyId → VkDocument → Result UltraHonkError S
  put store s id doc =
      if not (doc.scheme == scheme_ultra_honk)
      then err (
          inconsistent_artifacts (
            codes "refusing to store a VK with scheme `"
            ++ (doc.scheme ++ codes "` under an UltraHonk id")))
      else put_document s (path_for sha hex store id) doc

  -- A document that was read, which is of this scheme.
  unfoldable pub of_scheme : FilePath → VkDocument → Result UltraHonkError VkDocument
  of_scheme path doc =
      if not (doc.scheme == scheme_ultra_honk)
      then err (
          malformed_artifact (display path)
            (codes "stored VK has scheme `" ++ (doc.scheme ++ codes "`")))
      else ok doc

  -- `VkStore::get`
  unfoldable pub get : VkStore → S → VerificationKeyId → Result UltraHonkError VkDocument
  get store s id =
      let path = path_for sha hex store id in
      if not (m.is_file s path) then err (missing_file (display path)) else do
        text ← map_err (io (display path)) (m.read_to_string s path)
        doc ← map_err (malformed_artifact (display path)) (json.from_str text)
        of_scheme path doc

  -- `VkStore::contains`
  unfoldable pub contains : VkStore → S → VerificationKeyId → Bool
  contains store s id = m.is_file s (path_for sha hex store id)
