-- ===== src/Examples/Bb.antt =====
-- Examples for runs of `bb`: a proof that is made, and one that is verified.
use crucible_prover.Base.{
  split_onto, true, [], ◌∷◌, none, some, codes, ok, ◌≡◌, refl, replicate, is_ascii_alphanumeric,
  len, ℕ_discrete, List_ℕ-discrete, split, is_ascii_digit, show_u32, read_u32, is_ascii_hexdigit,
  to_ascii_lowercase, strip_prefix, trim_start_matches, split_at, as_bytes,
}
use crucible_prover.Bag
use crucible_prover.Bag.{OutputBag}
use crucible_prover.Circuit.{
  circuit_id, is_id_char, v0_1, show_version, parse_version, CircuitId-discrete, Version-discrete,
}
use crucible_prover.Field.{FieldValue, from_hex, strip_0x, canonical, FieldValue-discrete}
use crucible_prover.Examples.Crates.{sum_sha, plain_hex, encode}
use crucible_prover.Examples.Machines.{
  Disk, memory, find_text, on_disk, json_of, read_only, write_only, FilePath-discrete,
  ProofDocument-discrete, PublicInputsDocument-discrete, VkDocument-discrete, proof_document_eq,
  inputs_document_eq, vk_document_eq,
}
use crucible_prover.Machine.{display}
use crucible_prover.Request.{RootDigest, root_halves, BackendId-discrete}
use crucible_prover.Response.{
  VerificationRequest, ArtifactChecksum-discrete, checksum_from_hex, accepted, ultrahonk_format,
}
use crucible_prover.UltraHonk.{id_for, parse, parse_parts}
use crucible_prover.UltraHonk.Backend.{ultrahonk_backend}
use crucible_prover.UltraHonk.Exec
use crucible_prover.UltraHonk.Exec.{Documents}
use crucible_prover.UltraHonk.Store.{path_for, of_scheme, get}
use crucible_prover.UltraHonk.Toolchain.{
  locate, BbToolchain, version, parse_bb_version, check_version,
}
use crucible_prover.Tool.{which, after_equals, leading_number, major_of}
use crucible_prover.Witness.Toml.{trim, trim_end, trim_start, is_whitespace, lines}
use crucible_prover.UltraHonk.Verifier.{
  check_context, check_id, check_bytes, check_parts, check_state, decide, outcome_of, rebuild,
  state_failure, with_key, write_json, verify, proof_document, inputs_document,
}
use crucible_prover.UltraHonk.Verifier.Acceptance.{IsBound, verify-IsBound}
use crucible_prover.UltraHonk.Words.{
  ProofDocument, PublicInputsDocument, scheme_ultra_honk, blob_words, chunks_of, pad_64,
}
use crucible_prover.Examples.Adapter.{transfer_circuit, twos, key_id, store, key_document, one_word}

abbrev proof_of_key : ProofDocument
proof_of_key = record {
  proof = [];
  vk_hash = replicate 64 b'3';
  bb_version = codes "6.0.0";
  scheme = scheme_ultra_honk;
}

abbrev no_inputs : PublicInputsDocument
no_inputs = record { public_inputs = []; bb_version = codes "6.0.0"; scheme = scheme_ultra_honk }

abbrev serializers : Documents
serializers = record {
  proofs = json_of proof_of_key;
  inputs = json_of no_inputs;
  keys = json_of key_document;
}

abbrev proving : Exec.ProveOptions
proving = record {
  bytecode = codes "b" ∷ [];
  witness = codes "w" ∷ [];
  output_dir = codes "out" ∷ [];
  write_vk = true;
}

-- The inputs of `bb prove`, and what it writes.
abbrev proving_disk : Disk
proving_disk =
    (codes "b" ∷ [], [])
    ∷ (codes "w" ∷ [], [])
    ∷ (codes "out" ∷ codes "proof.json" ∷ [], codes "{}")
    ∷ (codes "out" ∷ codes "public_inputs.json" ∷ [], codes "{}")
    ∷ (codes "out" ∷ codes "vk.json" ∷ [], codes "{}")
    ∷ []

abbrev bb : BbToolchain
bb = record { binary = codes "bin" ∷ codes "bb" ∷ [] }

abbrev proven : Exec.ProvenArtifacts
proven = record {
  output_dir = codes "out" ∷ [];
  proof = proof_of_key;
  public_inputs = no_inputs;
  vk = some key_document;
}

abbrev some_root : RootDigest
some_root = record { hex = replicate 64 b'1' }

abbrev half : FieldValue
half = record { hex = replicate 32 b'1' }

abbrev bound_request : VerificationRequest
bound_request = record {
  request_id = record { id = codes "request" };
  proof = record { format = record { tag = ultrahonk_format }; bytes = one_word };
  circuit = transfer_circuit;
  circuit_version = v0_1;
  backend = ultrahonk_backend;
  verification_key_id = key_id;
  artifact_checksum = twos;
  public_outputs = record { entries = (codes "root_hi", half) ∷ (codes "root_lo", half) ∷ [] };
  state_reference = some (record { root = some_root; sequence = 1; label = none });
}

abbrev rebuilders : Documents
rebuilders = record {
  proofs = json_of (proof_document plain_hex one_word key_document);
  inputs = json_of (inputs_document bound_request);
  keys = json_of key_document;
}

-- The key in the store, and `bb` on the path.
abbrev key_disk : Disk
key_disk =
    (path_for sum_sha plain_hex store key_id, codes "{}") ∷ (codes "bin" ∷ codes "bb" ∷ [], []) ∷ []

bound_verified :
    verify sum_sha plain_hex memory rebuilders store key_disk bound_request ≡ ok accepted
unfolding verify check_context BackendId-discrete check_id parse split split_onto id_for
    show_version show_u32 parse_parts circuit_id is_id_char is_ascii_alphanumeric parse_version
    read_u32 Bag.get Bag.iter as_bytes is_ascii_digit is_ascii_hexdigit split_at strip_prefix
    to_ascii_lowercase trim_start_matches CircuitId-discrete Version-discrete FieldValue-discrete
    canonical from_hex strip_0x display root_halves ArtifactChecksum-discrete checksum_from_hex
    Exec.require_file Exec.verdict Exec.verify get of_scheme path_for after_equals check_version
    leading_number locate major_of parse_bb_version version which check_bytes check_parts
    check_state decide inputs_document outcome_of proof_document rebuild state_failure with_key
    write_json blob_words chunks_of pad_64 is_whitespace lines trim trim_end trim_start on_disk
    find_text FilePath-discrete encode write_only read_only ProofDocument-discrete
    PublicInputsDocument-discrete VkDocument-discrete len ℕ_discrete List_ℕ-discrete
bound_verified = refl

bound_hi : Bag.get bound_request.public_outputs (codes "root_hi") ≡ some half
unfolding Bag.get ℕ_discrete List_ℕ-discrete
bound_hi = refl

bound_lo : Bag.get bound_request.public_outputs (codes "root_lo") ≡ some half
unfolding Bag.get ℕ_discrete List_ℕ-discrete
bound_lo = refl

verify-IsBound_example : IsBound bound_request half half
verify-IsBound_example =
    verify-IsBound sum_sha plain_hex memory rebuilders store key_disk bound_request half half
      bound_verified bound_hi bound_lo
