-- ===== src/Examples/Proving.antt =====
-- Examples for the UltraHonk provider and for `nargo`: a machine on which a proof is made.
use crucible_prover.UltraHonk.Store
use crucible_prover.UltraHonk.Store.{put, put_document, path_for}
use crucible_prover.Expectations.{public_word_count, expectations, public_names}
use crucible_prover.Field.{strip_0x, into_hex, from_hex, validate_name, is_name_char, canonical}
use crucible_prover.UltraHonk.Exec.Prove.{
  prove, finish, collect, read_vk, check_artifacts, check_documents, check_vk, same_digest,
}
use crucible_prover.Noir.Compiler.{execute_captured, captured}
use crucible_prover.Witness.{from_request}
use crucible_prover.Witness.File.{write_prover_toml}
use crucible_prover.UltraHonk.{id_for, parse, parse_parts}
use crucible_prover.Artifacts.Tree.{
  read_file, find_node, walk_files, collect_node, rel_text, resolve_safe, below,
}
use crucible_prover.Witness.Toml.{
  lines, trim, trim_end, trim_start, is_whitespace, encode_toml, encode_line,
}
use crucible_prover.Noir.Toolchain
use crucible_prover.Tool.{which, major_of, leading_number, after_equals}
use crucible_prover.UltraHonk.Toolchain.{locate, check_version, version, parse_bb_version}
use crucible_prover.Bag
use crucible_prover.Bag.Private.{is_empty, names, get}
use crucible_prover.Base.{
  true, [], ◌∷◌, ◌++◌, ◌==◌, text_eq, if◌then◌else◌, none, some, Text, codes, ok, replicate, ◌≡◌,
  refl, ℕ_discrete, split, is_ascii_digit, read_u32, List_ℕ-discrete, len, show_u32, strip_prefix,
  is_ascii_hexdigit, trim_start_matches, is_ascii_alphanumeric, to_ascii_lowercase,
}
use crucible_prover.Artifacts.{
  ArtifactManifest, ManifestJson, parse_manifest, normalize, sort_manifest, check_paths,
  is_safe_relative_path, sort_files, insert_file,
}
use crucible_prover.Artifacts.Loader.{
  Loading, load, load_with_manifest, check_strict, new, check_entries, load_declared, verify_files,
  verify_file, check_digest, file_of,
}
use crucible_prover.Circuit.{
  v0_1, CircuitId-discrete, for_operation, as_str, Version-discrete, show_version, circuit_id,
  is_id_char, parse_version,
}
use crucible_prover.Examples.Adapter.{store, key_document}
use crucible_prover.Examples.Artifacts.{manifest_eq, digest_of_ab}
use crucible_prover.Examples.Crates.{sum_sha, plain_hex, encode, sum, decode}
use crucible_prover.Examples.Data.{register_request}
use crucible_prover.Examples.Machines.{
  Disk, memory, json_of, read_only, write_only, read_only-write_only, proof_document_eq,
  inputs_document_eq, vk_document_eq, on_disk, FilePath-discrete, without, find_text,
  VkDocument-discrete,
}
use crucible_prover.Machine.{
  FilePath, join, Node, file, folder, none_left, entry, pos, Machine, display, parent,
}
use crucible_prover.Request.{ProofRequest, validate, is_state_bound, check_root, BackendId-discrete}
use crucible_prover.Response.{
  ProofResponse, VerificationKeyId, ultrahonk_format, from_response, ArtifactChecksum-discrete,
  verification_key_id, checksum_from_hex,
}
use crucible_prover.UltraHonk.Verifier.{proof_document, inputs_document}
use crucible_prover.UltraHonk.Backend.{
  ultrahonk_backend, supports, is_protocol_circuit, backend_compat,
}
use crucible_prover.UltraHonk.Exec.{ProvenArtifacts, Documents, require_file, read_document}
use crucible_prover.UltraHonk.Provider.{
  Tools, check_request, find_tools, load_bytecode, key_id_of, solve_and_prove, generate, respond,
  name_outputs, name_words, field_from_word, word_digits, store_key, response_of,
}
use crucible_prover.Mock.{checksum_from_bytes}
use crucible_prover.UltraHonk.Provider.Composition.{
  generate-IsVerifiable, IsVerifiable, respond-rebuilt,
}
use crucible_prover.UltraHonk.Scratch.{
  UltraHonkConfig, solve_witness, copy_package_sources, check_required, copy_package, copy_tree,
  copy_node, copy_file, create_parent, create_dir, place_bytecode, solved_path,
}
use crucible_prover.UltraHonk.Words.{
  ProofDocument, PublicInputsDocument, scheme_ultra_honk, validate_provenance, vk_hash_bytes,
  digest_bytes, word_bytes, pad_64, hash_bytes, proof_bytes, concat_words,
}
use crucible_prover.UltraHonk.Words.Rebuilt.{IsFieldWord}

abbrev request : ProofRequest
request = record register_request { backend = ultrahonk_backend }

abbrev manifest : ArtifactManifest
manifest = record {
  manifest_version = 1;
  circuit = record { id = codes "register" };
  circuit_version = v0_1;
  artifact_version = v0_1;
  backend = ultrahonk_backend;
  verification_key_id = none;
  files = record { path = codes "register.json"; sha256 = digest_of_ab; kind = none } ∷ [];
  backend_metadata = [];
}

unfoldable manifest_json : ManifestJson
manifest_json = record {
  from_slice = read_only manifest;
  to_vec = write_only manifest;
  from_slice-to_vec = λ m s h. read_only-write_only manifest m h;
}

abbrev loading : Loading
loading = record {
  sha = sum_sha;
  hex = plain_hex;
  json = manifest_json;
  reason = λ path. codes "no such file";
}

-- The directory of the artifact, with `ab` for the bytecode.
abbrev directory : Node
directory = folder (
    entry (codes "manifest.json") (file (ok (codes "{}")))
      (entry (codes "register.json") (file (ok (codes "ab"))) none_left))

-- One file of sources; `nargo` writes the witness where it runs.
abbrev machine : Machine Disk
machine = record memory {
  exists = λ s p. true;
  snapshot = λ s p. elim p [
    | [] ↦ directory
    | part ∷ path ↦ if part == codes "artifacts" then directory else file (ok [])
  ];
  output_in = λ s dir p args. (
    (dir ++ codes "target" ∷ codes "witness.gz" ∷ [], []) ∷ s,
    ok (record { success = true; code = some (pos 0); stdout = []; stderr = [] }),
  );
}

abbrev word : Text
word = codes "0x" ++ replicate 64 b'a'

abbrev proof_json : ProofDocument
proof_json = record {
  proof = word ∷ [];
  vk_hash = replicate 64 b'3';
  bb_version = codes "6.0.0";
  scheme = scheme_ultra_honk;
}

abbrev inputs_json : PublicInputsDocument
inputs_json = record {
  public_inputs = word ∷ [];
  bb_version = codes "6.0.0";
  scheme = scheme_ultra_honk;
}

abbrev documents : Documents
documents = record {
  proofs = json_of proof_json;
  inputs = json_of inputs_json;
  keys = json_of key_document;
}

abbrev config : UltraHonkConfig
config = record {
  circuits_root = codes "circuits" ∷ [];
  artifact_root = codes "artifacts" ∷ [];
  vk_store = store;
}

-- The tools on the path, the bytecode, and what `bb` writes.
abbrev disk : Disk
disk =
    (codes "bin" ∷ codes "bb" ∷ [], [])
    ∷ (codes "bin" ∷ codes "nargo" ∷ [], [])
    ∷ (codes "artifacts" ∷ codes "register" ∷ codes "register.json" ∷ [], codes "ab")
    ∷ (codes "tmp" ∷ codes "proof.json" ∷ [], codes "{}")
    ∷ (codes "tmp" ∷ codes "public_inputs.json" ∷ [], codes "{}")
    ∷ (codes "tmp" ∷ codes "vk.json" ∷ [], codes "{}")
    ∷ []

abbrev id : VerificationKeyId
id = record { id = codes "uhk/register/0.1.0/" ++ digest_of_ab.hex }

abbrev scratch : Text → FilePath
scratch package_name = codes "tmp" ∷ package_name ∷ []

-- What the run left once the proof was made, the last write first.
abbrev disk_solved : Disk
disk_solved =
    (scratch (codes "register") ++ codes "target" ∷ codes "witness.gz" ∷ [], [])
    ∷ (
      join (scratch (codes "register")) (codes "Prover.toml"),
      codes "account_address = \"0xab\"\naccount_sk = \"0x7\"\n",
    )
    ∷ (scratch (codes "register") ++ codes "target" ∷ codes "register.json" ∷ [], [])
    ∷ (join (scratch (codes "lib")) (codes "src"), [])
    ∷ (join (scratch (codes "lib")) (codes "Nargo.toml"), [])
    ∷ (join (scratch (codes "register")) (codes "src"), [])
    ∷ (join (scratch (codes "register")) (codes "Nargo.toml"), [])
    ∷ disk

-- What it left in the end.
abbrev disk_after : Disk
disk_after =
    (
      codes "keys" ∷ codes "register" ∷ codes "0.1.0" ∷ (digest_of_ab.hex ++ codes ".json") ∷ [],
      codes "{}",
    )
    ∷ disk_solved

abbrev response : ProofResponse
response = record {
  request_id = request.request_id;
  circuit = request.circuit;
  circuit_version = v0_1;
  backend = ultrahonk_backend;
  proof = record { format = record { tag = ultrahonk_format }; bytes = replicate 32 0xaa };
  public_outputs = record {
    entries = (codes "account_address", record { hex = replicate 64 b'a' }) ∷ [];
  };
  verification_key_id = id;
  artifact_checksum = digest_of_ab;
  state_reference = none;
}

abbrev made : ProvenArtifacts
made = record {
  output_dir = codes "tmp" ∷ [];
  proof = proof_json;
  public_inputs = inputs_json;
  vk = some key_document;
}

request_checked : check_request request ≡ ok tt
unfolding check_request validate is_empty Bag.is_empty is_state_bound check_root BackendId-discrete
    ℕ_discrete supports is_protocol_circuit CircuitId-discrete for_operation as_str backend_compat
    Version-discrete
request_checked = refl

abbrev tools : Tools
tools = record {
  bb = record { binary = codes "bin" ∷ codes "bb" ∷ [] };
  nargo = record { binary = codes "bin" ∷ codes "nargo" ∷ [] };
}

tools_found : find_tools machine disk ≡ ok tools
unfolding find_tools locate which on_disk FilePath-discrete Toolchain.locate check_version version
    parse_bb_version lines trim trim_end trim_start is_whitespace major_of split leading_number
    after_equals is_ascii_digit read_u32 ℕ_discrete Toolchain.check_version Toolchain.version
    Toolchain.parse_nargo_version
tools_found = refl

bytecode_loaded : load_bytecode machine loading documents config disk request ≡ ok (codes "ab")
unfolding load_bytecode load read_file find_node List_ℕ-discrete load_with_manifest parse_manifest
    normalize sort_manifest check_paths is_safe_relative_path check_strict new walk_files
    collect_node check_entries rel_text display sort_files insert_file load_declared verify_files
    verify_file resolve_safe below check_digest ArtifactChecksum-discrete sum file_of ℕ_discrete
    manifest_json read_only split checksum_from_bytes encode
bytecode_loaded = refl

digest_computed : checksum_from_bytes sum_sha plain_hex (codes "ab") ≡ digest_of_ab
unfolding checksum_from_bytes sum
digest_computed = refl

key_id_formed : key_id_of request digest_of_ab ≡ ok id
unfolding key_id_of verification_key_id id_for len show_version show_u32 ℕ_discrete encode
key_id_formed = refl

proved :
    solve_and_prove machine loading documents config tools request disk ≡ ok (disk_solved, made)
unfolding solve_and_prove solve_witness copy_package_sources check_required copy_package copy_tree
    copy_node copy_file create_parent parent create_dir place_bytecode write_prover_toml encode_toml
    names from_request get execute_captured List_ℕ-discrete ℕ_discrete Bag.names Bag.get
    Toolchain.check_version Toolchain.version Toolchain.parse_nargo_version lines major_of split
    leading_number after_equals trim trim_end trim_start is_whitespace is_ascii_digit read_u32
    captured on_disk FilePath-discrete solved_path prove check_version version parse_bb_version
    require_file without finish collect read_document find_text read_only read_vk check_artifacts
    check_documents validate_provenance check_vk same_digest vk_hash_bytes digest_bytes len strip_0x
    strip_prefix is_ascii_hexdigit word_bytes decode pad_64 hash_bytes encode_line into_hex
proved = refl

responded :
    (d : Disk)
    → respond machine loading documents config request digest_of_ab id (d, made)
      ≡ ok (
        (
          codes "keys"
              ∷ codes "register"
              ∷ codes "0.1.0"
              ∷ (digest_of_ab.hex ++ codes ".json")
              ∷ [],
          codes "{}",
        )
            ∷ d,
        response,
      )
unfolding respond name_outputs ℕ_discrete public_word_count expectations name_words public_names
    field_from_word from_hex strip_0x strip_prefix word_digits trim_start_matches len
    is_ascii_hexdigit Bag.insert validate_name is_name_char Bag.new store_key put List_ℕ-discrete
    put_document Store.create_parent parent path_for parse split encode parse_parts circuit_id
    is_id_char is_ascii_alphanumeric parse_version read_u32 checksum_from_hex Store.serialize
    write_only VkDocument-discrete proof_bytes concat_words word_bytes decode pad_64 show_version
    to_ascii_lowercase response_of show_u32 canonical
responded d = refl

proof_made : generate machine loading documents config disk request ≡ ok (disk_after, response)
unfolding generate
proof_made =
    rw
      (
        request_checked,
        tools_found,
        bytecode_loaded,
        digest_computed,
        key_id_formed,
        proved,
        responded disk_solved,
      )
      refl

generate-IsVerifiable_example :
    IsVerifiable machine loading documents config disk_after request response
generate-IsVerifiable_example =
    generate-IsVerifiable machine loading documents config disk disk_after request response
      proof_made

word-IsFieldWord : IsFieldWord word
word-IsFieldWord = record {
  digits = replicate 64 b'a';
  prefixed = refl;
  whole = refl;
  lowercase = refl;
}

respond-rebuilt_example :
    ((proof_document plain_hex response.proof.bytes key_document).proof ≡ word ∷ [])
    × ((inputs_document (from_response response)).public_inputs ≡ word ∷ [])
respond-rebuilt_example =
    respond-rebuilt machine loading documents config request digest_of_ab id [] _ made key_document
      key_document response refl (word-IsFieldWord, tt) (word-IsFieldWord, tt) (responded [])
