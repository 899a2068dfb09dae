-- ===== src/UltraHonk.antt =====
-- The UltraHonk adapter: the errors of crates/ultrahonk/src/errors.rs and the verification key ids
-- of crates/ultrahonk/src/vk.rs.
pub mod KeyId
pub mod Words
pub mod Calldata
pub mod Backend
pub mod Describe
pub mod Toolchain
pub mod Store
pub mod Exec
pub mod Verifier
pub mod Scratch
pub mod Provider
use crucible_prover.Base.{
  ℕ, Bool, not, List, [], ◌∷◌, ◌++◌, Option, none, some, Text, codes, Result, ok, err, ok_or,
  map_err, is_ok, ◌==◌, text_eq, if◌then◌else◌, ◌>>=◌, split,
}
use crucible_prover.Circuit.{CircuitId, circuit_id, Version, show_version, parse_version}
use crucible_prover.Response.{ArtifactChecksum, checksum_from_hex}

pub data UltraHonkError : Type 0 where
  encode : Text → Text → UltraHonkError
  truncated : ℕ → ℕ → UltraHonkError
  bad_verification_key_id : Text → UltraHonkError
  unsupported_version : Text → Text → Text → UltraHonkError
  binary_not_found : UltraHonkError
  unsupported_bb_version : Text → ℕ → UltraHonkError
  version_parse missing_file : Text → UltraHonkError
  io : Text → Text → UltraHonkError
  spawn : Text → UltraHonkError
  command_failed malformed_artifact : Text → Text → UltraHonkError
  inconsistent_artifacts : Text → UltraHonkError

abbrev pub vk_scheme : Text
vk_scheme = codes "uhk"

-- `VerificationKeyIdPolicy::id_for`.
unfoldable pub id_for : CircuitId → Version → ArtifactChecksum → Text
id_for circuit version artifact_hash =
    vk_scheme ++ b'/' ∷ (circuit.id ++ b'/' ∷ (show_version version ++ b'/' ∷ artifact_hash.hex))

abbrev pub four_parts : List Text → Option (Text × Text × Text × Text)
four_parts (a ∷ b ∷ c ∷ d ∷ []) = some (a, b, c, d)
four_parts _ = none

unfoldable pub parse_parts :
    Text
    → Text × Text × Text × Text
    → Result UltraHonkError (CircuitId × Version × ArtifactChecksum)
parse_parts id (scheme, b, c, d) =
    if not (scheme == vk_scheme) then err (bad_verification_key_id id) else do
      circuit ← map_err (λ _. bad_verification_key_id id) (circuit_id b)
      version ← map_err (λ _. bad_verification_key_id id) (parse_version c)
      hash ← map_err (λ _. bad_verification_key_id id) (checksum_from_hex d)
      ok (circuit, version, hash)

-- `VerificationKeyIdPolicy::parse`.
unfoldable pub parse : Text → Result UltraHonkError (CircuitId × Version × ArtifactChecksum)
parse id = do
  parts ← ok_or (bad_verification_key_id id) (four_parts (split b'/' id))
  parse_parts id parts

-- `VerificationKeyIdPolicy::is_valid`.
unfoldable pub is_valid : Text → Bool
is_valid id = is_ok (parse id)
