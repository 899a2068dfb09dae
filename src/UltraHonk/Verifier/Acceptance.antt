-- ===== src/UltraHonk/Verifier/Acceptance.antt =====
-- What holds of a proof that the UltraHonk verifier accepts.
use crucible_prover.Base.{
  ◌%◌, true, false, Option, none, some, Bytes, codes, Result, ok, err, panicked, map_err, nat_eq,
  text_eq, ◌≡◌, ◌≢◌, refl, sym, ap, ◌∙◌, arith, ==_iff, bind-eq-ok, is_empty, length,
}
use crucible_prover.Bag
use crucible_prover.Circuit.{CircuitId, circuit_id_eq, Version, version_eq}
use crucible_prover.External.{Sha256, Hex}
use crucible_prover.Field.{FieldValue, field_value_eq}
use crucible_prover.Machine.{Machine}
use crucible_prover.Provider.{VerifierError}
use crucible_prover.Request.{backend_id_eq, StateReference, root_halves}
use crucible_prover.Response.{
  ultrahonk_format, ArtifactChecksum, artifact_checksum_eq, VerificationRequest,
  VerificationFailure, VerificationOutcome, accepted,
}
use crucible_prover.UltraHonk.{UltraHonkError, parse}
use crucible_prover.UltraHonk.Backend.{ultrahonk_backend}
use crucible_prover.UltraHonk.Exec
use crucible_prover.UltraHonk.Exec.{VerifyOptions, VerifyOutcome}
use crucible_prover.UltraHonk.Store.{VkStore, get}
use crucible_prover.UltraHonk.Store.Keys.{map_err-ok}
use crucible_prover.UltraHonk.Toolchain.{BbToolchain, locate, check_version}
use crucible_prover.UltraHonk.Verifier.{
  stop, check_parts, check_id, check_context, check_bytes, check_state, state_failure, key_error,
  rebuild, outcome_of, decide, with_key, verify,
}
use crucible_prover.UltraHonk.Words.{VkDocument}

-- What the verifier compares before it looks for the key.
pub record InContext (q : VerificationRequest) : Type 0 where
  pub format : q.proof.format.tag ≡ ultrahonk_format
  pub backend : q.backend ≡ ultrahonk_backend
  pub key_id :
      parse q.verification_key_id.id ≡ ok (q.circuit, q.circuit_version, q.artifact_checksum)

check_parts-none :
    (q : VerificationRequest) (c : CircuitId) (v : Version) (a : ArtifactChecksum)
    → check_parts q (c, v, a) ≡ none
    → (c ≡ q.circuit) × (v ≡ q.circuit_version) × (a ≡ q.artifact_checksum)
unfolding check_parts
check_parts-none q c v a h = (
  (==_iff c q.circuit).0 (ground arith),
  (==_iff v q.circuit_version).0 (ground arith),
  (==_iff a q.artifact_checksum).0 (ground arith),
)

check_id-none :
    (q : VerificationRequest) (r : Result UltraHonkError (CircuitId × Version × ArtifactChecksum))
    → check_id q r ≡ none
    → r ≡ ok (q.circuit, q.circuit_version, q.artifact_checksum)
unfolding check_id
check_id-none q (ok (c, v, a)) h = let (e, f, g) = check_parts-none q c v a h in rw (e, f, g) refl
check_id-none q (err e) h = cc
check_id-none q panicked h = cc

check_context-none : (q : VerificationRequest) → check_context q ≡ none → InContext q
unfolding check_context
check_context-none q h = record {
  format = (==_iff q.proof.format.tag ultrahonk_format).0 (ground arith);
  backend = (==_iff q.backend ultrahonk_backend).0 (ground arith);
  key_id = check_id-none q (parse q.verification_key_id.id) (ground arith);
}

stop-accepted :
    (o : Option VerificationFailure) {r : Result VerifierError VerificationOutcome}
    → stop o r ≡ ok accepted
    → (o ≡ none) × (r ≡ ok accepted)
stop-accepted none h = (refl, h)
stop-accepted (some f) h = ground arith

check_bytes-none : (b : Bytes) → check_bytes b ≡ none → (is_empty b ≡ false) × (length b % 32 ≡ 0)
unfolding check_bytes
check_bytes-none b h = ground arith

-- The root words that the proof committed to are the halves of the submitted root.
pub record IsBound (q : VerificationRequest) (hi lo : FieldValue) : Type 0 where
  pub state : StateReference
  pub submitted : q.state_reference ≡ some state
  pub halves : root_halves {E = VerifierError} state ≡ ok (hi, lo)

check_state-none :
    (o : Option StateReference) (hi lo : FieldValue)
    → check_state (some hi) (some lo) o ≡ ok none
    → (s : StateReference) × (o ≡ some s) × (root_halves {E = VerifierError} s ≡ ok (hi, lo))
unfolding check_state
check_state-none none hi lo h = ground arith
check_state-none (some s) hi lo h =
    let (halves, e, k) = bind-eq-ok (root_halves s) _ h in
    let high : hi ≡ halves.0 = (==_iff hi halves.0).0 (ground arith) in
    let low : lo ≡ halves.1 = (==_iff lo halves.1).0 (ground arith) in (s, refl, rw (high, low) e)

state_failure-none :
    (q : VerificationRequest) (hi lo : FieldValue)
    → state_failure q ≡ ok none
    → Bag.get q.public_outputs (codes "root_hi") ≡ some hi
    → Bag.get q.public_outputs (codes "root_lo") ≡ some lo
    → IsBound q hi lo
unfolding state_failure
state_failure-none q hi lo h high low =
    let (s, e, k) = check_state-none q.state_reference hi lo (sym (rw (high, low) refl) ∙ h) in
    record { state = s; submitted = e; halves = k }

key_error-rejects : (e : UltraHonkError) → key_error e ≢ ok accepted
unfolding key_error
key_error-rejects e h = ground arith

outcome_of-accepted :
    (o : VerifyOutcome)
    → Path (Result VerifierError VerificationOutcome) (ok (outcome_of o)) (ok accepted)
    → o.verified ≡ true
unfolding outcome_of
outcome_of-accepted o h = ground arith

module _ {S : Type 0} (sha : Sha256) (x : Hex) (m : Machine S) (docs : Exec.Documents) where
  -- A run of `bb verify` that exited with success, on the files that were rebuilt.
  pub record IsVerified (s : S) (q : VerificationRequest) (vk : VkDocument) : Type 0 where
    pub bb : BbToolchain
    pub located : locate m s ≡ ok bb
    pub supported : check_version m bb s ≡ ok tt
    pub scratch : S × VerifyOptions
    pub rebuilt : rebuild sha x m docs s q vk ≡ ok scratch
    pub outcome : VerifyOutcome
    pub ran : Exec.verify m bb scratch.0 scratch.1 ≡ ok outcome
    pub verified : outcome.verified ≡ true

  decide-IsVerified :
      (s : S) (q : VerificationRequest) (vk : VkDocument)
      → decide sha x m docs s q vk ≡ ok accepted
      → IsVerified s q vk
  unfolding decide
  decide-IsVerified s q vk h =
      let (bb, l, h1) = bind-eq-ok (map_err _ (locate m s)) _ h in
      let (_, v, h2) = bind-eq-ok (map_err _ (check_version m bb s)) _ h1 in
      let (files, r, h3) = bind-eq-ok (rebuild sha x m docs s q vk) _ h2 in
      let (outcome, o, h4) = bind-eq-ok (map_err _ (Exec.verify m bb files.0 files.1)) _ h3 in
      record {
        bb = bb;
        located = map_err-ok _ _ l;
        supported = map_err-ok _ _ v;
        scratch = files;
        rebuilt = r;
        outcome = outcome;
        ran = map_err-ok _ _ o;
        verified = outcome_of-accepted outcome h4;
      }

  -- What an accepted request has: it is in its context, its key is in the store, its proof is one
  -- or more whole words, it is bound to its state where it carries both root words, and `bb`
  -- verified it.
  pub record IsAccepted (store : VkStore) (s : S) (q : VerificationRequest) : Type 0 where
    pub context : InContext q
    pub key : VkDocument
    pub stored : get sha x m docs.keys store s q.verification_key_id ≡ ok key
    pub nonempty : is_empty q.proof.bytes ≡ false
    pub whole_words : length q.proof.bytes % 32 ≡ 0
    pub unbound : state_failure q ≡ ok none
    pub backend : IsVerified s q key

  with_key-accepted :
      (s : S) (q : VerificationRequest) (r : Result UltraHonkError VkDocument)
      → with_key sha x m docs s q r ≡ ok accepted
      → (vk : VkDocument) × (r ≡ ok vk)
        × (check_bytes q.proof.bytes ≡ none)
        × (state_failure q ≡ ok none)
        × IsVerified s q vk
  unfolding with_key
  with_key-accepted s q (ok vk) h =
      let (b, h1) = stop-accepted (check_bytes q.proof.bytes) h in
      let (f, e, h2) = bind-eq-ok (state_failure q) _ h1 in
      let (n, h3) = stop-accepted f h2 in (vk, refl, b, e ∙ ap ok n, decide-IsVerified s q vk h3)
  with_key-accepted s q (err e) h = absurd (key_error-rejects e h)
  with_key-accepted s q panicked h = cc

  pub verify-IsAccepted :
      (store : VkStore) (s : S) (q : VerificationRequest)
      → verify sha x m docs store s q ≡ ok accepted
      → IsAccepted store s q
  unfolding verify
  verify-IsAccepted store s q h =
      let (c, h1) = stop-accepted (check_context q) h in
      let (vk, g, b, f, v) =
        with_key-accepted s q (get sha x m docs.keys store s q.verification_key_id) h1 in
      let (n, w) = check_bytes-none q.proof.bytes b in
      record {
        context = check_context-none q c;
        key = vk;
        stored = g;
        nonempty = n;
        whole_words = w;
        unbound = f;
        backend = v;
      }

  -- An accepted request that carries both root words has a state whose root has these two halves.
  pub verify-IsBound :
      (store : VkStore) (s : S) (q : VerificationRequest) (hi lo : FieldValue)
      → verify sha x m docs store s q ≡ ok accepted
      → Bag.get q.public_outputs (codes "root_hi") ≡ some hi
      → Bag.get q.public_outputs (codes "root_lo") ≡ some lo
      → IsBound q hi lo
  verify-IsBound store s q hi lo h =
      state_failure-none q hi lo (verify-IsAccepted store s q h).unbound
