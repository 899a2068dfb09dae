-- ===== src/Examples/Adapter.antt =====
-- Examples for the UltraHonk adapter: call data, the key store, and runs of `bb`.
use crucible_prover.Base.{
  All, true, all, ◌++◌, ◌↔◌, List, [], ◌∷◌, Text, Bytes, codes, ok, ◌≡◌, ◌≢◌, refl, arith,
  replicate, length, is_ascii_alphanumeric, len, ℕ_discrete, List_ℕ-discrete,
}
use crucible_prover.Circuit.{CircuitId, circuit_id, is_id_char, v0_1}
use crucible_prover.Circuit.VersionText.{FitsU32}
use crucible_prover.External.{IsByte}
use crucible_prover.Field.{FieldError}
use crucible_prover.Examples.Crates.{sum_sha, plain_hex}
use crucible_prover.Examples.Data.{value_ab, value_ab-IsCanonical}
use crucible_prover.Examples.Machines.{
  memory, json_of, write_only, VkDocument-discrete, proof_document_eq, inputs_document_eq,
  vk_document_eq,
}
use crucible_prover.Machine.{FilePath, parent}
use crucible_prover.Response.{ArtifactChecksum, VerificationKeyId}
use crucible_prover.UltraHonk.{id_for, parse}
use crucible_prover.UltraHonk.KeyId.{IsSha256, parse-id_for}
use crucible_prover.UltraHonk.Calldata.{PublicInput, calldata_version, encode_inputs, decode_inputs}
use crucible_prover.UltraHonk.Calldata.RoundTrip.{positional, decode_inputs-encode_inputs}
use crucible_prover.UltraHonk.Store.{VkStore, path_for, create_parent, serialize, put_document, put}
use crucible_prover.UltraHonk.Store.Paths.{stays, path_for_injective, path_for-stays}
use crucible_prover.UltraHonk.Verifier.{proof_document}
use crucible_prover.UltraHonk.Verifier.Documents.{proof_bytes-proof_document}
use crucible_prover.UltraHonk.Words.{VkDocument, scheme_ultra_honk, proof_bytes}

abbrev plain_reason : FieldError → Text
plain_reason e = []

abbrev two_public : List PublicInput
two_public =
    record { name = codes "token"; value = value_ab }
    ∷ record { name = codes "amount"; value = value_ab }
    ∷ []

decode_inputs-encode_inputs_example :
    (b : Bytes) × (encode_inputs plain_hex two_public ≡ ok b)
    × (length b ≡ 69)
    × (decode_inputs plain_hex plain_reason b
        ≡ ok (record { version = calldata_version; inputs = positional 0 two_public }))
decode_inputs-encode_inputs_example =
    decode_inputs-encode_inputs plain_hex plain_reason two_public
      (value_ab-IsCanonical, (value_ab-IsCanonical, tt)) (omega arith)

abbrev pub transfer_circuit : CircuitId
transfer_circuit = record { id = codes "transfer" }

abbrev pub twos : ArtifactChecksum
twos = record { hex = replicate 64 b'2' }

twos-IsSha256 : IsSha256 twos
twos-IsSha256 = record { whole = refl; digits = refl }

transfer_valid : circuit_id transfer_circuit.id ≡ ok transfer_circuit
unfolding circuit_id is_id_char is_ascii_alphanumeric ℕ_discrete len
transfer_valid = refl

pub v0_1-FitsU32 : FitsU32 v0_1
v0_1-FitsU32 = record {
  major_fits = omega arith;
  minor_fits = omega arith;
  patch_fits = omega arith;
}

abbrev pub key_id : VerificationKeyId
key_id = record { id = id_for transfer_circuit v0_1 twos }

key_parsed : parse key_id.id ≡ ok (transfer_circuit, v0_1, twos)
key_parsed = parse-id_for transfer_circuit v0_1 twos transfer_valid v0_1-FitsU32 twos-IsSha256

abbrev pub store : VkStore
store = record { root = codes "keys" ∷ [] }

path_for_injective_example : (transfer_circuit ≡ transfer_circuit) × (v0_1 ≡ v0_1) × (twos ≡ twos)
path_for_injective_example =
    path_for_injective sum_sha plain_hex store key_id key_id key_parsed key_parsed v0_1-FitsU32
      v0_1-FitsU32 refl

path_for-stays_example :
    (parts : FilePath) × (path_for sum_sha plain_hex store key_id ≡ store.root ++ parts)
    × ((all stays parts ≡ true) ↔ (transfer_circuit.id ≢ codes ".."))
path_for-stays_example = path_for-stays sum_sha plain_hex store key_id key_parsed

abbrev pub key_document : VkDocument
key_document = record {
  vk = codes "0x0e" ∷ [];
  hash = replicate 64 b'3';
  bb_version = codes "6.0.0";
  scheme = scheme_ultra_honk;
}

stored_key :
    put sum_sha plain_hex memory (json_of key_document) store [] key_id key_document
    ≡ ok ((path_for sum_sha plain_hex store key_id, codes "{}") ∷ [])
unfolding put put_document create_parent serialize parent path_for write_only VkDocument-discrete
    ℕ_discrete List_ℕ-discrete
stored_key = rw (key_parsed, path_for) refl

abbrev pub one_word : Bytes
one_word = replicate 32 7

one_word-IsByte : All IsByte one_word
one_word-IsByte = ground arith

proof_bytes-proof_document_example :
    proof_bytes plain_hex (proof_document plain_hex one_word key_document) ≡ ok one_word
proof_bytes-proof_document_example =
    proof_bytes-proof_document plain_hex one_word key_document refl one_word-IsByte
