-- ===== src/Core/Catalog.antt =====
-- The catalog of the circuits and the places of their artifacts: crates/prover-core/src/circuit.rs
-- and crates/prover-core/src/artifact.rs.
use crucible_prover.Base.{Bool, List, [], ◌∷◌, ◌++◌, Text, codes, map, any, ◌==◌}
use crucible_prover.Circuit.{
  Operation, register, deposit, merge, transfer, withdraw, CircuitId, circuit_id_eq, Version,
  version_eq, show_version, for_operation,
}

unfoldable pub protocol_operations : List Operation
protocol_operations = register ∷ deposit ∷ merge ∷ transfer ∷ withdraw ∷ []

abbrev pub current_circuit_version : Version
current_circuit_version = record { major = 0; minor = 1; patch = 0 }

unfoldable pub protocol_circuit_ids : List CircuitId
protocol_circuit_ids = map for_operation protocol_operations

unfoldable pub is_protocol_circuit : CircuitId → Bool
is_protocol_circuit circuit = any (λ op. for_operation op == circuit) protocol_operations

unfoldable pub is_current_version : Version → Bool
is_current_version version = version == current_circuit_version

abbrev pub artifact_root : Text
artifact_root = codes "artifacts/circuits"

abbrev pub manifest_name : Text
manifest_name = codes "manifest.json"

unfoldable pub artifact_dir : CircuitId → Version → Text
artifact_dir circuit version = artifact_root ++ b'/' ∷ (circuit.id ++ b'/' ∷ show_version version)

unfoldable pub manifest_path : CircuitId → Version → Text
manifest_path circuit version = artifact_dir circuit version ++ b'/' ∷ manifest_name

abbrev pub acir_filename : Text
acir_filename = codes "acir.bin"

abbrev pub verification_key_filename : Text
verification_key_filename = codes "vk.bin"

unfoldable pub default_verification_key_id : CircuitId → Version → Text
default_verification_key_id circuit version =
    codes "vk-" ++ (circuit.id ++ b'-' ∷ show_version version)
