-- ===== src/UltraHonk/Describe.antt =====
-- `Display` of the errors of crates/ultrahonk/src/errors.rs.
use crucible_prover.Base.{Text, codes, ◌++◌, show_u32}
use crucible_prover.UltraHonk.{
  UltraHonkError, encode, truncated, bad_verification_key_id, unsupported_version, binary_not_found,
  unsupported_bb_version, version_parse, missing_file, io, spawn, command_failed,
  malformed_artifact, inconsistent_artifacts,
}

unfoldable pub to_string : UltraHonkError → Text
to_string (encode name reason) =
    codes "public input `" ++ (name ++ (codes "` could not be encoded: " ++ reason))
to_string (truncated expected actual) =
    codes "calldata declares "
    ++ (show_u32 expected ++ (codes " public inputs but carries " ++ show_u32 actual))
to_string (bad_verification_key_id id) =
    codes "verification key id `" ++ (id ++ codes "` does not follow the expected scheme")
to_string (unsupported_version backend version supported) =
    codes "unsupported combination: backend `"
    ++ (backend
        ++ (codes "` version " ++ (version ++ (codes " (supported: " ++ (supported ++ codes ")")))))
to_string binary_not_found =
    codes "barretenberg binary not found on PATH; is bb installed? (see scripts/check-bb.sh)"
to_string (unsupported_bb_version found supported) =
    codes "unsupported bb version `"
    ++ (found ++ (codes "` (this adapter requires major " ++ (show_u32 supported ++ codes ")")))
to_string (version_parse text) = codes "could not parse bb version output: " ++ text
to_string (missing_file path) = codes "missing required file `" ++ (path ++ codes "`")
to_string (io path reason) = codes "file operation failed on `" ++ (path ++ (codes "`: " ++ reason))
to_string (spawn reason) = codes "could not run bb: " ++ reason
to_string (command_failed command reason) =
    codes "bb command `" ++ (command ++ (codes "` failed: " ++ reason))
to_string (malformed_artifact path reason) =
    codes "bb artifact `" ++ (path ++ (codes "` is malformed: " ++ reason))
to_string (inconsistent_artifacts reason) = codes "bb artifacts disagree: " ++ reason
