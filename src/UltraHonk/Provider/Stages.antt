-- ===== src/UltraHonk/Provider/Stages.antt =====
-- What each stage of a proof that was made has established.
use crucible_prover.Base.{
  true, List, ◌++◌, some, Text, Bytes, codes, ok, map_err, bind-eq-ok, ◌≡◌, refl, sym, subst, arith,
  ℕ_discrete, is_ascii_alphanumeric, len, length, length-append,
}
use crucible_prover.Artifacts.Loader.{Loading}
use crucible_prover.Bag
use crucible_prover.Bag.{OutputBag, keys}
use crucible_prover.Circuit.{
  Operation, register, deposit, merge, transfer, withdraw, circuit_id, for_operation, as_str,
  is_id_char,
}
use crucible_prover.Circuit.VersionText.{FitsU32}
use crucible_prover.Expectations.{expectations, public_names, public_word_count}
use crucible_prover.External.{Sha256, Hex}
use crucible_prover.Machine.{Machine}
use crucible_prover.Mock.{checksum_from_bytes}
use crucible_prover.Provider.{invalid_request}
use crucible_prover.Request.{ProofRequest, backend_id_eq, validate}
use crucible_prover.Response.{ArtifactChecksum, VerificationKeyId, verification_key_id}
use crucible_prover.UltraHonk.{id_for, parse}
use crucible_prover.UltraHonk.Backend.{supports, supports_iff}
use crucible_prover.UltraHonk.Exec.{ProvenArtifacts, Documents}
use crucible_prover.UltraHonk.Exec.Consistency.{prove-IsConsistent, IsConsistent}
use crucible_prover.UltraHonk.KeyId.{IsSha256, parse-id_for}
use crucible_prover.UltraHonk.Provider.{
  Tools, check_request, key_id_of, name_outputs, name_words, solve_and_prove,
}
use crucible_prover.UltraHonk.Scratch.{UltraHonkConfig, generation, solve_witness}
use crucible_prover.UltraHonk.Store.Keys.{map_err-ok}
use crucible_prover.UltraHonk.Words.{VkDocument}

pub checksum-IsSha256 :
    (sha : Sha256) (hex : Hex) (b : Bytes) → IsSha256 (checksum_from_bytes sha hex b)
unfolding checksum_from_bytes
checksum-IsSha256 sha hex b = record {
  whole = omega (arith, hex.length-encode (sha.digest b), sha.length-digest b);
  digits = hex.encode_digits (sha.digest b);
}

pub check_request-supports :
    (r : ProofRequest)
    → check_request r ≡ ok tt
    → (validate r ≡ ok tt) × (supports r.circuit r.circuit_version ≡ true)
unfolding check_request
check_request-supports r h =
    let (_, e, h1) = bind-eq-ok (map_err invalid_request (validate r)) _ h in
    (map_err-ok _ _ e, ground arith)

operation_id : (op : Operation) → circuit_id (for_operation op).id ≡ ok (for_operation op)
unfolding circuit_id for_operation as_str is_id_char is_ascii_alphanumeric len ℕ_discrete
operation_id register = refl
operation_id deposit = refl
operation_id merge = refl
operation_id transfer = refl
operation_id withdraw = refl

-- The key id of a supported circuit is read back.
pub supported_id :
    (r : ProofRequest) (h : ArtifactChecksum)
    → supports r.circuit r.circuit_version ≡ true
    → IsSha256 h
    → parse (id_for r.circuit r.circuit_version h) ≡ ok (r.circuit, r.circuit_version, h)
supported_id r h s i =
    let p = ((supports_iff r.circuit r.circuit_version).0).0 s in
    parse-id_for r.circuit r.circuit_version h
      (subst (λ c. circuit_id c.id ≡ ok c) (sym p.names) (operation_id p.operation))
      (subst FitsU32 (sym p.version_is) (omega arith)) i

pub key_id_of-id :
    (r : ProofRequest) (c : ArtifactChecksum) {id : VerificationKeyId}
    → key_id_of r c ≡ ok id
    → id.id ≡ id_for r.circuit r.circuit_version c
unfolding key_id_of verification_key_id
key_id_of-id r c {id} h = ground arith

-- The words are named only if there is one for every name.
pub name_outputs-words :
    (r : ProofRequest) (words : List Text) {b : OutputBag}
    → name_outputs r words ≡ ok b
    → (length words ≡ length (public_names (expectations r.operation)))
      × (name_words Bag.new (public_names (expectations r.operation)) words ≡ ok b)
unfolding name_outputs public_names public_word_count
name_outputs-words r words h = ground (
  arith,
  length-append (expectations r.operation).public_params (expectations r.operation).returns,
)

module _ {S : Type 0} (m : Machine S) (l : Loading) (docs : Documents)
    (config : UltraHonkConfig) where
  -- The proof was made with its key.
  pub solve_and_prove-key :
      (tools : Tools) (r : ProofRequest) (s : S) {made : S × ProvenArtifacts}
      → solve_and_prove m l docs config tools r s ≡ ok made
      → (vk : VkDocument) × (made.1.vk ≡ some vk) × IsConsistent l.hex made.1 vk
  unfolding solve_and_prove
  solve_and_prove-key tools r s {made} h =
      let (scratch, _, h1) =
        bind-eq-ok
          (map_err (λ e. generation (codes "cannot create scratch dir: " ++ e)) (m.tempdir s)) _
          h in
      let (witness, _, h2) =
        bind-eq-ok (solve_witness m config tools.nargo r scratch.1 scratch.0) _ h1 in
      let (out, _, h3) =
        bind-eq-ok
          (map_err (λ e. generation (codes "cannot create proof scratch dir: " ++ e))
            (m.tempdir witness.0))
          _ h2 in
      let (_, vk, e, c) =
        prove-IsConsistent l.hex m docs tools.bb out.0 _ {r = made} refl (map_err-ok _ _ h3) in
      (vk, e, c)
