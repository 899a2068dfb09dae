-- ===== src/UltraHonk/Exec/Consistency.antt =====
-- What the artifacts of a proof that was made agree on.
use crucible_prover.Base.{
  Bool, true, false, Option, some, Text, Bytes, codes, Result, ok, err, map_err, text_eq,
  bind-eq-ok, ◌≡◌, sym, ap, subst, ◌∙◌, arith, ==_iff, is_empty,
}
use crucible_prover.External.{Hex}
use crucible_prover.Machine.{FilePath, join, display, Machine}
use crucible_prover.UltraHonk.{UltraHonkError, io}
use crucible_prover.UltraHonk.Toolchain.{BbToolchain, check_version}
use crucible_prover.UltraHonk.Words.{
  ProofDocument, VkDocument, scheme_ultra_honk, validate_provenance, vk_hash_bytes, hash_bytes,
}
use crucible_prover.UltraHonk.Exec.{
  ProveOptions, ProvenArtifacts, Documents, require_file, read_document, run_bb, excerpt,
}
use crucible_prover.Witness.Toml.{trim}
use crucible_prover.UltraHonk.Exec.Prove.{
  prove_args, same_digest, check_vk, check_documents, read_vk, check_artifacts, collect, finish,
  prove,
}

validate_provenance-ok :
    (what scheme bb_version : Text)
    → validate_provenance what scheme bb_version ≡ ok tt
    → (scheme ≡ scheme_ultra_honk) × (is_empty (trim bb_version) ≡ false)
unfolding validate_provenance
validate_provenance-ok what scheme bb_version h =
    ((==_iff scheme scheme_ultra_honk).0 (ground arith), ground arith)

-- What the artifacts of a proof that was made agree on.
pub record IsConsistent (x : Hex) (a : ProvenArtifacts) (vk : VkDocument) : Type 0 where
  pub proof_scheme : a.proof.scheme ≡ scheme_ultra_honk
  pub inputs_scheme : a.public_inputs.scheme ≡ scheme_ultra_honk
  pub key_scheme : vk.scheme ≡ scheme_ultra_honk
  pub digest : Bytes
  pub proof_digest : vk_hash_bytes x a.proof ≡ ok digest
  pub vk_digest : hash_bytes x vk ≡ ok digest

same_digest-ok :
    (x : Hex) (proof : ProofDocument) (vk : VkDocument)
    → same_digest x proof vk ≡ ok tt
    → (b : Bytes) × (vk_hash_bytes x proof ≡ ok b) × (hash_bytes x vk ≡ ok b)
unfolding same_digest
same_digest-ok x proof vk h =
    let (b, e, h1) = bind-eq-ok (vk_hash_bytes x proof) _ h in
    let (c, k, h2) = bind-eq-ok (hash_bytes x vk) _ h1 in
    let same : c ≡ b = (==_iff c b).0 (ground arith) in (b, e, k ∙ ap ok same)

checked :
    (x : Hex) (a : ProvenArtifacts) (vk : VkDocument)
    → check_documents x a.proof a.public_inputs (some vk) ≡ ok tt
    → IsConsistent x a vk
unfolding check_documents check_vk
checked x a vk h =
    let (_, p, h1) =
      bind-eq-ok (validate_provenance (codes "proof") a.proof.scheme a.proof.bb_version) _ h in
    let (_, i, h2) =
      bind-eq-ok
        (validate_provenance (codes "public inputs") a.public_inputs.scheme
          a.public_inputs.bb_version)
        _ h1 in
    let (_, v, h3) =
      bind-eq-ok (validate_provenance (codes "verification key") vk.scheme vk.bb_version) _ h2 in
    let (b, d, e) = same_digest-ok x a.proof vk h3 in
    record {
      proof_scheme = (validate_provenance-ok _ a.proof.scheme a.proof.bb_version p).0;
      inputs_scheme =
          (validate_provenance-ok _ a.public_inputs.scheme a.public_inputs.bb_version i).0;
      key_scheme = (validate_provenance-ok _ vk.scheme vk.bb_version v).0;
      digest = b;
      proof_digest = d;
      vk_digest = e;
    }

-- Both are results of the code.
abbrev SameOk : {A : Type 0} → A → A → Type 0
SameOk {A} a b = ◌≡◌ {A = Result UltraHonkError A} (ok a) (ok b)

-- The key that was read, with what it agrees on.
abbrev HasKey : (x : Hex) → ProvenArtifacts → Type 0
HasKey x a = (vk : VkDocument) × (a.vk ≡ some vk) × IsConsistent x a vk

module _ {S : Type 0} (x : Hex) (m : Machine S) (docs : Documents) where
  ok_second : (s : S) (a : ProvenArtifacts) {r : S × ProvenArtifacts} → SameOk (s, a) r → a ≡ r.1
  ok_second s a h = cc

  check_artifacts-HasKey :
      (s : S) (a : ProvenArtifacts) (vk : VkDocument) {r : S × ProvenArtifacts}
      → a.vk ≡ some vk
      → check_artifacts x m docs s a ≡ ok r
      → HasKey x r.1
  unfolding check_artifacts
  check_artifacts-HasKey s a vk {r} v h =
      let (_, c, e) = bind-eq-ok (check_documents x a.proof a.public_inputs a.vk) _ h in
      subst (HasKey x) (ok_second s a {r = r} e)
        (vk, v, checked x a vk (ap (check_documents x a.proof a.public_inputs) (sym v) ∙ c))

  read_vk-some :
      (write : Bool) (s : S) (dir : FilePath) {o : Option VkDocument}
      → write ≡ true
      → read_vk x m docs write s dir ≡ ok o
      → (vk : VkDocument) × (o ≡ some vk)
  unfolding read_vk
  read_vk-some false s dir w h = cc
  read_vk-some true s dir {o} w h =
      let (vk, _, e) = bind-eq-ok (read_document m docs.keys s (join dir (codes "vk.json"))) _ h in
      (vk, some_ok e)
    where
      some_ok : {vk : VkDocument} {o : Option VkDocument} → SameOk (some vk) o → o ≡ some vk
      some_ok e = cc

  collect-HasKey :
      (options : ProveOptions) (s : S) {r : S × ProvenArtifacts}
      → options.write_vk ≡ true
      → collect x m docs options s ≡ ok r
      → HasKey x r.1
  unfolding collect
  collect-HasKey options s {r} w h =
      let (proof, _, h1) =
        bind-eq-ok (read_document m docs.proofs s (join options.output_dir (codes "proof.json"))) _
          h in
      let (inputs, _, h2) =
        bind-eq-ok
          (read_document m docs.inputs s (join options.output_dir (codes "public_inputs.json"))) _
          h1 in
      let (o, v, h3) = bind-eq-ok (read_vk x m docs options.write_vk s options.output_dir) _ h2 in
      let (vk, e) = read_vk-some options.write_vk s options.output_dir {o = o} w v in
      check_artifacts-HasKey s
        (record { output_dir = options.output_dir; proof = proof; public_inputs = inputs; vk = o })
        vk {r = r} e h3

  finish-HasKey :
      (options : ProveOptions) (s : S) (success : Bool) (stderr : Text) {r : S × ProvenArtifacts}
      → options.write_vk ≡ true
      → finish x m docs options s success stderr ≡ ok r
      → HasKey x r.1
  unfolding finish
  finish-HasKey options s true stderr {r} w h = collect-HasKey options s {r = r} w h
  finish-HasKey options s false stderr {r} w h =
      let (reason, _, e) = bind-eq-ok (excerpt {E = UltraHonkError} stderr) _ h in absurd (err_ok e)
    where
      err_ok : {e : UltraHonkError} {r : S × ProvenArtifacts} → err e ≡ ok r → ⊥
      err_ok h = cc

  pub prove-IsConsistent :
      (bb : BbToolchain) (s : S) (options : ProveOptions) {r : S × ProvenArtifacts}
      → options.write_vk ≡ true
      → prove x m docs bb s options ≡ ok r
      → (check_version m bb s ≡ ok tt)
        × (vk : VkDocument) × (r.1.vk ≡ some vk)
        × IsConsistent x r.1 vk
  unfolding prove
  prove-IsConsistent bb s options {r} w h =
      let (_, v, h1) = bind-eq-ok (check_version m bb s) _ h in
      let (_, _, h2) = bind-eq-ok (require_file m s options.bytecode) _ h1 in
      let (_, _, h3) = bind-eq-ok (require_file m s options.witness) _ h2 in
      let (s1, _, h4) =
        bind-eq-ok
          (map_err (io (display options.output_dir)) (m.create_dir_all s options.output_dir)) _
          h3 in
      let (out, _, h5) = bind-eq-ok ((run_bb m bb s1 (prove_args options)).1) _ h4 in
      let s2 = (run_bb m bb s1 (prove_args options)).0 in
      let (vk, k, c) = finish-HasKey options s2 out.success out.stderr {r = r} w h5 in (v, vk, k, c)
