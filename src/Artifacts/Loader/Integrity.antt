-- ===== src/Artifacts/Loader/Integrity.antt =====
-- What an artifact that was loaded guarantees.
use crucible_prover.Base.{
  true, List, [], ◌∷◌, ◌++◌, Option, none, some, Text, Bytes, Result, ok, map_err, ◌==◌, nat_eq,
  text_eq, split, ◌≡◌, ◌↔◌, refl, sym, ap, subst, ◌∙◌, arith, ==_iff, bind-eq-ok, Bool-cases, inl,
  inr,
}
use crucible_prover.Artifacts.{
  ArtifactError, ManifestFile, ArtifactManifest, parse_manifest, is_safe_relative_path,
  find_checksum, file_checksum, read_failure,
}
use crucible_prover.Artifacts.Tree.{read_file, resolve_safe, below}
use crucible_prover.Machine.{Node}
use crucible_prover.Artifacts.Loader.{
  LoadedArtifact, ArtifactLoader, find_file, file_of, check_strict, Loading, check_digest,
  verify_file, verify_files, load_declared, load_with_manifest,
}
use crucible_prover.Machine.{FilePath}
use crucible_prover.Mock.{checksum_from_bytes}
use crucible_prover.Response.{ArtifactChecksum, artifact_checksum_eq}
use crucible_prover.UltraHonk.Store.Keys.{map_err-ok}

below_append : (root path : FilePath) → below root (root ++ path) ≡ true
unfolding below
below_append [] path = refl
below_append (r ∷ root) path = ground (arith, ==_iff r r, below_append root path)

-- A path is resolved exactly where it is safe, and then to its parts below the root.
pub resolve_safe_iff :
    (root : FilePath) (path : Text) (parts : FilePath)
    → (resolve_safe root path ≡ ok parts)
      ↔ ((is_safe_relative_path path ≡ true) × (split b'/' path ≡ parts))
unfolding resolve_safe
resolve_safe_iff root path parts = ground (arith, below_append root (split b'/' path))

-- A declared file as it was read: from its own path, with the declared digest.
pub record IsIntact (l : Loading) (node : Node) (f : ManifestFile) (loaded : Text × Bytes)
    : Type 0 where
  pub name : loaded.0 ≡ f.path
  pub safe : is_safe_relative_path f.path ≡ true
  pub content : read_file l.reason node (split b'/' f.path) ≡ ok loaded.1
  pub digest : checksum_from_bytes l.sha l.hex loaded.1 ≡ f.sha256

-- The loaded files are the declared ones, in their order.
abbrev pub AllIntact : Loading → Node → List ManifestFile → List (Text × Bytes) → Type 0
AllIntact l node [] [] = Unit
AllIntact l node (f ∷ fs) (e ∷ es) = IsIntact l node f e × AllIntact l node fs es
AllIntact l node _ _ = ⊥

check_digest-ok :
    (l : Loading) (f : ManifestFile) (b : Bytes) (e : Text × Bytes)
    → check_digest l f b ≡ ok e
    → (checksum_from_bytes l.sha l.hex b ≡ f.sha256) × ((f.path, b) ≡ e)
unfolding check_digest
check_digest-ok l f b e h = elim (Bool-cases (checksum_from_bytes l.sha l.hex b == f.sha256)) [
  | inl k ↦ (
    (==_iff (checksum_from_bytes l.sha l.hex b) f.sha256).0 k,
    ok_pair (f.path, b) e (ground arith),
  )
  | inr k ↦ ground arith
]
  where
    ok_pair :
        (a b : Text × Bytes) → (◌≡◌ {A = Result ArtifactError (Text × Bytes)} (ok a) (ok b)) → a ≡ b
    ok_pair a b h = cc

digest_checked :
    (l : Loading) (f : ManifestFile) (b : Bytes)
    → checksum_from_bytes l.sha l.hex b ≡ f.sha256
    → check_digest l f b ≡ ok (f.path, b)
unfolding check_digest
digest_checked l f b h = ground (arith, (==_iff (checksum_from_bytes l.sha l.hex b) f.sha256).1 h)

IsIntact-of :
    (l : Loading) (node : Node) (f : ManifestFile) (p : FilePath) (b : Bytes) {e : Text × Bytes}
    → (is_safe_relative_path f.path ≡ true) × (split b'/' f.path ≡ p)
    → read_file l.reason node p ≡ ok b
    → (checksum_from_bytes l.sha l.hex b ≡ f.sha256)
    → (f.path, b) ≡ e
    → IsIntact l node f e
IsIntact-of l node f p b (s, q) r d k =
    subst (IsIntact l node f) k
      (record { name = refl; safe = s; content = ap (read_file l.reason node) q ∙ r; digest = d })

verify_file-ok :
    (l : Loading) (root : FilePath) (node : Node) (f : ManifestFile) (e : Text × Bytes)
    → verify_file l root node f ≡ ok e
    → IsIntact l node f e
unfolding verify_file
verify_file-ok l root node f e h =
    let (p, s, h1) = bind-eq-ok (resolve_safe root f.path) _ h in
    let (b, r, h2) = bind-eq-ok (map_err (read_failure f.path) (read_file l.reason node p)) _ h1 in
    let (d, k) = check_digest-ok l f b e h2 in
    IsIntact-of l node f p b {e = e} ((resolve_safe_iff root f.path p).0 s) (map_err-ok _ _ r) d k

intact-verify_file :
    (l : Loading) (root : FilePath) (node : Node) (f : ManifestFile) (e : Text × Bytes)
    → IsIntact l node f e
    → verify_file l root node f ≡ ok e
unfolding verify_file
intact-verify_file l root node f e i =
    rw ((resolve_safe_iff root f.path (split b'/' f.path)).1 (i.safe, refl), i.content)
      (digest_checked l f e.1 i.digest)
    ∙ ap (λ n. ok (n, e.1)) (sym i.name)

abbrev pub digest_of : Loading → Option Bytes → Option ArtifactChecksum
digest_of l none = none
digest_of l (some b) = some (checksum_from_bytes l.sha l.hex b)

module _ (l : Loading) (root : FilePath) (node : Node) where
  verify_files-ok :
      (fs : List ManifestFile) (es : List (Text × Bytes))
      → verify_files l root node fs ≡ ok es
      → AllIntact l node fs es
  unfolding verify_files
  verify_files-ok [] [] h = tt
  verify_files-ok [] (e ∷ es) h = absurd (not_nil h)
    where
      not_nil :
          {e : Text × Bytes} {es : List (Text × Bytes)}
          → ◌≡◌ {A = Result ArtifactError (List (Text × Bytes))} (ok []) (ok (e ∷ es))
          → ⊥
      not_nil h = cc
  verify_files-ok (f ∷ fs) es h =
      let (e, v, h1) = bind-eq-ok (verify_file l root node f) _ h in
      let (rest, w, h2) = bind-eq-ok (verify_files l root node fs) _ h1 in
      subst (AllIntact l node (f ∷ fs)) (same_files h2)
        (verify_file-ok l root node f e v, verify_files-ok fs rest w)
    where
      same_files :
          {a b : List (Text × Bytes)}
          → ◌≡◌ {A = Result ArtifactError (List (Text × Bytes))} (ok a) (ok b)
          → a ≡ b
      same_files h = cc

  intact-verify_files :
      (fs : List ManifestFile) (es : List (Text × Bytes))
      → AllIntact l node fs es
      → verify_files l root node fs ≡ ok es
  unfolding verify_files
  intact-verify_files [] [] h = refl
  intact-verify_files [] (e ∷ es) h = absurd h
  intact-verify_files (f ∷ fs) [] h = absurd h
  intact-verify_files (f ∷ fs) (e ∷ es) (i, h) =
      rw (intact-verify_file l root node f e i, intact-verify_files fs es h) refl

  load_declared-ok :
      (m : ArtifactManifest) (a : LoadedArtifact)
      → load_declared l root node m ≡ ok a
      → (m ≡ a.manifest) × AllIntact l node m.files a.files
  unfolding load_declared
  load_declared-ok m a h =
      let (es, v, k) = bind-eq-ok (verify_files l root node m.files) _ h in
      let e = same_artifact k in
      (
        ap (λ b. b.manifest) e,
        subst (AllIntact l node m.files) (ap (λ b. b.files) e) (verify_files-ok m.files es v),
      )
    where
      same_artifact :
          {a b : LoadedArtifact}
          → ◌≡◌ {A = Result ArtifactError LoadedArtifact} (ok a) (ok b)
          → a ≡ b
      same_artifact h = cc

  -- What makes a load succeed with an artifact.
  pub record IsLoaded (loader : ArtifactLoader) (json : Bytes) (a : LoadedArtifact) : Type 0 where
    pub parsed : parse_manifest l.json json ≡ ok a.manifest
    pub complete : check_strict loader.is_strict root node a.manifest.files ≡ ok tt
    pub intact : AllIntact l node a.manifest.files a.files

  IsLoaded-of :
      (loader : ArtifactLoader) (json : Bytes) (m : ArtifactManifest) (a : LoadedArtifact)
      → m ≡ a.manifest
      → parse_manifest l.json json ≡ ok m
      → check_strict loader.is_strict root node m.files ≡ ok tt
      → AllIntact l node m.files a.files
      → IsLoaded loader json a
  IsLoaded-of loader json m a e p c i = record {
    parsed = p ∙ ap ok e;
    complete = ap (λ b. check_strict loader.is_strict root node b.files) (sym e) ∙ c;
    intact = subst (λ b. AllIntact l node b.files a.files) e i;
  }

  pub load_with_manifest_iff :
      (loader : ArtifactLoader) (json : Bytes) (a : LoadedArtifact)
      → (load_with_manifest l loader root node json ≡ ok a) ↔ IsLoaded loader json a
  unfolding load_with_manifest load_declared
  load_with_manifest_iff loader json a = (
    λ h.
        let (m, p, h1) = bind-eq-ok (parse_manifest l.json json) _ h in
        let (_, c, h2) = bind-eq-ok (check_strict loader.is_strict root node m.files) _ h1 in
        let (e, i) = load_declared-ok m a h2 in IsLoaded-of loader json m a e p c i,
    λ i. rw (i.parsed, i.complete, intact-verify_files a.manifest.files a.files i.intact) refl,
  )

found_digest :
    (l : Loading) (node : Node) (path : Text) (fs : List ManifestFile) (es : List (Text × Bytes))
    → AllIntact l node fs es
    → digest_of l (find_file path es) ≡ find_checksum path fs
found_digest l node path [] [] i = refl
found_digest l node path [] (e ∷ es) i = absurd i
found_digest l node path (f ∷ fs) [] i = absurd i
found_digest l node path (f ∷ fs) (e ∷ es) (i, h) =
    rw (i.name, sym i.digest)
      (elim (Bool-cases (f.path == path)) [
        | inl k ↦ rw k refl
        | inr k ↦ rw k (found_digest l node path fs es h)
      ])

-- The digest of the content that a loaded artifact has under a path, if any, is the digest that its
-- manifest declares for the path, if any.
pub file_of-file_checksum :
    (l : Loading) (loader : ArtifactLoader) (root : FilePath) (node : Node) (json : Bytes)
    (a : LoadedArtifact) (path : Text)
    → load_with_manifest l loader root node json ≡ ok a
    → digest_of l (file_of a path) ≡ file_checksum a.manifest path
unfolding file_of file_checksum
file_of-file_checksum l loader root node json a path h =
    found_digest l node path a.manifest.files a.files
      ((load_with_manifest_iff l root node loader json a).0 h).intact
