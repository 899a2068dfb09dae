-- ===== src/UltraHonk/Provider/Composition.antt =====
-- A proof that the provider made, in the hands of the verifier.
use crucible_prover.Base.{
  ◌%◌, none, some, Bytes, Result, ok, map_err, ==_refl, nat_eq, text_eq, bind-eq-ok, ◌≡◌, refl, sym,
  ap, subst, ◌∙◌, arith, length, All,
}
use crucible_prover.Artifacts.Loader.{Loading}
use crucible_prover.Bag
use crucible_prover.Expectations.{expectations, public_names}
use crucible_prover.Machine.{Machine}
use crucible_prover.Mock.{checksum_from_bytes}
use crucible_prover.Provider.{ProviderError}
use crucible_prover.Request.{ProofRequest, backend_id_eq}
use crucible_prover.Circuit.{circuit_id_eq, version_eq}
use crucible_prover.Response.{
  ArtifactChecksum, artifact_checksum_eq, VerificationKeyId, ProofResponse, VerificationRequest,
  from_response, ultrahonk_format,
}
use crucible_prover.UltraHonk.{parse}
use crucible_prover.UltraHonk.Backend.{ultrahonk_backend}
use crucible_prover.UltraHonk.Exec.{ProvenArtifacts, Documents}
use crucible_prover.UltraHonk.Provider.{
  check_request, response_of, find_tools, load_bytecode, key_id_of, name_outputs, solve_and_prove,
  store_key, respond, generate,
}
use crucible_prover.UltraHonk.Provider.Outputs.{name_words-names, name_words-rebuilt}
use crucible_prover.UltraHonk.Provider.Stages.{
  checksum-IsSha256, check_request-supports, supported_id, key_id_of-id, name_outputs-words,
  solve_and_prove-key,
}
use crucible_prover.UltraHonk.Scratch.{UltraHonkConfig, generation}
use crucible_prover.UltraHonk.Store
use crucible_prover.UltraHonk.Store.{put}
use crucible_prover.UltraHonk.Store.Keys.{map_err-ok, get-put}
use crucible_prover.UltraHonk.Verifier.{
  stop, check_context, check_id, check_parts, with_key, verify, proof_document, inputs_document,
}
use crucible_prover.UltraHonk.Words.{VkDocument, proof_bytes}
use crucible_prover.UltraHonk.Words.Rebuilt.{
  IsFieldWord, concat_words-length, blob_words-concat_words,
}

context_none :
    (q : VerificationRequest)
    → q.proof.format.tag ≡ ultrahonk_format
    → q.backend ≡ ultrahonk_backend
    → parse q.verification_key_id.id ≡ ok (q.circuit, q.circuit_version, q.artifact_checksum)
    → check_context q ≡ none
unfolding check_context check_id check_parts
context_none q f b p =
    rw
      (
        f,
        b,
        p,
        ==_refl ultrahonk_format,
        ==_refl ultrahonk_backend,
        ==_refl q.circuit,
        ==_refl q.circuit_version,
        ==_refl q.artifact_checksum,
      )
      refl

module _ {S : Type 0} (m : Machine S) (l : Loading) (docs : Documents)
    (config : UltraHonkConfig) where
  -- What a response carries over from its request, and what was stored for it.
  pub record IsResponse (s' : S) (r : ProofRequest) (checksum : ArtifactChecksum)
      (id : VerificationKeyId) (vk : VkDocument) (made : ProvenArtifacts) (response : ProofResponse)
      : Type 0 where
    pub request_id : response.request_id ≡ r.request_id
    pub circuit : response.circuit ≡ r.circuit
    pub circuit_version : response.circuit_version ≡ r.circuit_version
    pub backend : response.backend ≡ ultrahonk_backend
    pub format : response.proof.format.tag ≡ ultrahonk_format
    pub key_id : response.verification_key_id ≡ id
    pub artifact : response.artifact_checksum ≡ checksum
    pub state : response.state_reference ≡ r.state_reference
    pub outputs : name_outputs r made.public_inputs.public_inputs ≡ ok response.public_outputs
    pub proof : proof_bytes l.hex made.proof ≡ ok response.proof.bytes
    pub stored : Store.get l.sha l.hex m docs.keys config.vk_store s' id ≡ ok vk

  ok_pair :
      {a a' : S} {c c' : ProofResponse}
      → ◌≡◌ {A = Result ProviderError (S × ProofResponse)} (ok (a, c)) (ok (a', c'))
      → (a ≡ a') × (c ≡ c')
  ok_pair h = ground arith

  stored-IsResponse :
      (r : ProofRequest) (checksum : ArtifactChecksum) (id : VerificationKeyId) (s s' : S)
      (made : ProvenArtifacts) (vk : VkDocument) (outputs : Bag.OutputBag) (bytes : Bytes)
      → made.vk ≡ some vk
      → name_outputs r made.public_inputs.public_inputs ≡ ok outputs
      → store_key m l docs config s id made.vk ≡ ok s'
      → proof_bytes l.hex made.proof ≡ ok bytes
      → IsResponse s' r checksum id vk made (response_of r checksum id outputs bytes)
  unfolding response_of store_key
  stored-IsResponse r checksum id s s' made vk outputs bytes k o p b =
      let put_key : put l.sha l.hex m docs.keys config.vk_store s id vk ≡ ok s' =
        map_err-ok _ _ (subst (λ v. store_key m l docs config s id v ≡ ok s') k p) in
      record {
        request_id = refl;
        circuit = refl;
        circuit_version = refl;
        backend = refl;
        format = refl;
        key_id = refl;
        artifact = refl;
        state = refl;
        outputs = o;
        proof = b;
        stored = (get-put l.sha l.hex m docs.keys config.vk_store s s' id vk put_key).1;
      }

  pub respond-IsResponse :
      (r : ProofRequest) (checksum : ArtifactChecksum) (id : VerificationKeyId) (s s' : S)
      (made : ProvenArtifacts) (vk : VkDocument) (response : ProofResponse)
      → made.vk ≡ some vk
      → respond m l docs config r checksum id (s, made) ≡ ok (s', response)
      → IsResponse s' r checksum id vk made response
  unfolding respond
  respond-IsResponse r checksum id s s' made vk response k h =
      let (outputs, o, h1) = bind-eq-ok (name_outputs r made.public_inputs.public_inputs) _ h in
      let (s1, p, h2) = bind-eq-ok (store_key m l docs config s id made.vk) _ h1 in
      let (bytes, b, h3) =
        bind-eq-ok (map_err (λ e. generation _) (proof_bytes l.hex made.proof)) _ h2 in
      let (same_state, same) = ok_pair h3 in
      subst (λ t. IsResponse t r checksum id vk made response) same_state
        (subst (IsResponse s1 r checksum id vk made) same
          (stored-IsResponse r checksum id s s1 made vk outputs bytes k o p (map_err-ok _ _ b)))

  -- Where the words of the proof and of the public inputs that `bb` wrote are `0x` and 64 lowercase
  -- digits each, a response that is made of them is rebuilt, by the verifier, into the same words:
  -- those of `proof.json`, whatever the key is, and those of `public_inputs.json`.
  pub respond-rebuilt :
      (r : ProofRequest) (checksum : ArtifactChecksum) (id : VerificationKeyId) (s s' : S)
      (made : ProvenArtifacts) (vk key : VkDocument) (response : ProofResponse)
      → made.vk ≡ some vk
      → All IsFieldWord made.proof.proof
      → All IsFieldWord made.public_inputs.public_inputs
      → respond m l docs config r checksum id (s, made) ≡ ok (s', response)
      → ((proof_document l.hex response.proof.bytes key).proof ≡ made.proof.proof)
        × ((inputs_document (from_response response)).public_inputs
            ≡ made.public_inputs.public_inputs)
  unfolding proof_document inputs_document from_response proof_bytes Bag.iter Bag.new
  respond-rebuilt r checksum id s s' made vk key response k w v h =
      let i = respond-IsResponse r checksum id s s' made vk response k h in
      let (count, named) = name_outputs-words r made.public_inputs.public_inputs i.outputs in
      (
        blob_words-concat_words l.hex made.proof.proof w i.proof,
        name_words-rebuilt Bag.new (public_names (expectations r.operation))
            made.public_inputs.public_inputs count v named,
      )

  -- What the verifier makes of a response: with the names of the operation and whole words, it gets
  -- past the routing, the key id and the key.
  pub record IsVerifiable (s' : S) (r : ProofRequest) (response : ProofResponse) : Type 0 where
    pub key : VkDocument
    pub names : Bag.names response.public_outputs ≡ public_names (expectations r.operation)
    pub words : length response.proof.bytes % 32 ≡ 0
    pub goes_on :
        verify l.sha l.hex m docs config.vk_store s' (from_response response)
        ≡ with_key l.sha l.hex m docs s' (from_response response) (ok key)

  response-IsVerifiable :
      (r : ProofRequest) (checksum : ArtifactChecksum) (id : VerificationKeyId) (s' : S)
      (made : ProvenArtifacts) (vk : VkDocument) (response : ProofResponse)
      → parse id.id ≡ ok (r.circuit, r.circuit_version, checksum)
      → IsResponse s' r checksum id vk made response
      → IsVerifiable s' r response
  unfolding verify proof_bytes Bag.names Bag.new from_response
  response-IsVerifiable r checksum id s' made vk response p i =
      let (count, named) = name_outputs-words r made.public_inputs.public_inputs i.outputs in
      let same_id : parse response.verification_key_id.id
          ≡ ok (response.circuit, response.circuit_version, response.artifact_checksum) =
        rw (i.key_id, i.circuit, i.circuit_version, i.artifact) p in
      let q = from_response response in
      let find = Store.get l.sha l.hex m docs.keys config.vk_store s' in
      let found : find response.verification_key_id ≡ ok vk =
        subst (λ v. find v ≡ ok vk) (sym i.key_id) i.stored in
      let context = context_none q i.format i.backend same_id in
      record {
        key = vk;
        names =
            name_words-names Bag.new (public_names (expectations r.operation))
              made.public_inputs.public_inputs count named;
        words = omega (arith, concat_words-length l.hex made.proof.proof i.proof);
        goes_on =
            ap (λ f. stop f (with_key l.sha l.hex m docs s' q (find response.verification_key_id)))
              context
            ∙ ap (with_key l.sha l.hex m docs s' q) found;
      }

  -- Whatever the machine does: where `generate` returns a proof, its outputs have the names that are
  -- pinned for the operation, its bytes are whole words, and the verifier on the same machine and
  -- store, given that proof, passes its context, finds the key that the provider stored, and goes on
  -- to the bytes, the state and the run of `bb`.
  pub generate-IsVerifiable :
      (s s' : S) (r : ProofRequest) (response : ProofResponse)
      → generate m l docs config s r ≡ ok (s', response)
      → IsVerifiable s' r response
  unfolding generate
  generate-IsVerifiable s s' r response h =
      let (_, e1, h1) = bind-eq-ok (check_request r) _ h in
      let (tools, _, h2) = bind-eq-ok (find_tools m s) _ h1 in
      let (bytes, _, h3) = bind-eq-ok (load_bytecode m l docs config s r) _ h2 in
      let checksum = checksum_from_bytes l.sha l.hex bytes in
      let (id, e4, h4) = bind-eq-ok (key_id_of r checksum) _ h3 in
      let (made, e5, h5) = bind-eq-ok (solve_and_prove m l docs config tools r s) _ h4 in
      let (vk, k, _) = solve_and_prove-key m l docs config tools r s {made = made} e5 in
      let (_, supported) = check_request-supports r e1 in
      response-IsVerifiable r checksum id s' made.1 vk response
        (ap parse (key_id_of-id r checksum {id = id} e4)
          ∙ supported_id r checksum supported (checksum-IsSha256 l.sha l.hex bytes))
        (respond-IsResponse r checksum id made.0 s' made.1 vk response k h5)
