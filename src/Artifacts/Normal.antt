-- ===== src/Artifacts/Normal.antt =====
-- What `normalize` does to a manifest.
use crucible_prover.Base.{
  Bool, true, List, [], ◌∷◌, Result, ok, ◌==◌, nat_eq, all, ◌≡◌, ◌↔◌, refl, sym, ap, subst, ◌∙◌,
  arith, bind-eq-ok, ==_iff,
}
use crucible_prover.Artifacts.{
  ArtifactError, ManifestFile, ArtifactManifest, manifest_schema_version, insert_file, sort_files,
  check_paths, sort_manifest, normalize, is_safe_relative_path,
}
use crucible_prover.Artifacts.Sorting.{
  IsSorted, sort_files-IsSorted, sort_files_sorted, sort_files-Perm,
}
use mathlib.Core.List.{Perm}

abbrev pub all_safe : List ManifestFile → Bool
all_safe files = all (λ f. is_safe_relative_path f.path) files

check_paths_iff : (fs : List ManifestFile) → (check_paths fs ≡ ok tt) ↔ (all_safe fs ≡ true)
unfolding check_paths
check_paths_iff [] = ground arith
check_paths_iff (f ∷ fs) = ground (arith, check_paths_iff fs)

insert_file_safe :
    (f : ManifestFile) (fs : List ManifestFile)
    → all_safe (f ∷ fs) ≡ true
    → all_safe (insert_file f fs) ≡ true
unfolding insert_file
insert_file_safe f [] h = h
insert_file_safe f (g ∷ gs) h = ground (arith, insert_file_safe f gs)

sort_files_safe : (fs : List ManifestFile) → all_safe fs ≡ true → all_safe (sort_files fs) ≡ true
unfolding sort_files
sort_files_safe [] h = refl
sort_files_safe (f ∷ fs) h = insert_file_safe f (sort_files fs) (ground (arith, sort_files_safe fs))

-- A manifest in its normal form.
pub record IsNormal (m : ArtifactManifest) : Type 0 where
  pub version : m.manifest_version ≡ manifest_schema_version
  pub safe : all_safe m.files ≡ true
  pub sorted : IsSorted m.files

normal_self : (m : ArtifactManifest) → IsNormal m → normalize m ≡ ok m
unfolding normalize sort_manifest
normal_self m n =
    rw
      (
        (==_iff m.manifest_version manifest_schema_version).1 n.version,
        (check_paths_iff m.files).1 n.safe,
      )
      (ap (λ fs. ok (record m { files = fs })) (sort_files_sorted m.files n.sorted))

normalized :
    (m n : ArtifactManifest)
    → normalize m ≡ ok n
    → (m.manifest_version ≡ manifest_schema_version)
      × (check_paths m.files ≡ ok tt)
      × (record m { files = sort_files m.files } ≡ n)
unfolding normalize sort_manifest
normalized m n h =
    let version : (m.manifest_version == manifest_schema_version) ≡ true = ground arith in
    let rest : sort_manifest m ≡ ok n = ground arith in
    let (_, c, e) = bind-eq-ok (check_paths m.files) _ rest in
    ((==_iff m.manifest_version manifest_schema_version).0 version, c, same_manifest e)
  where
    same_manifest :
        {a b : ArtifactManifest}
        → ◌≡◌ {A = Result ArtifactError ArtifactManifest} (ok a) (ok b)
        → a ≡ b
    same_manifest h = cc

-- A manifest that `normalize` accepts is returned with the same fields but for the order of its
-- files: they are the same files, sorted by path, all of safe paths, and the version is 1. What is
-- returned is accepted again as it is.
pub normalize-IsNormal :
    (m n : ArtifactManifest)
    → normalize m ≡ ok n
    → IsNormal n × Perm n.files m.files × (record m { files = n.files } ≡ n) × (normalize n ≡ ok n)
normalize-IsNormal m n h =
    let (v, c, e) = normalized m n h in
    let sorted = ap (λ k. k.files) e in
    let i : IsNormal n = subst IsNormal e (record {
      version = v;
      safe = sort_files_safe m.files ((check_paths_iff m.files).0 c);
      sorted = sort_files-IsSorted m.files;
    }) in
    (
      i,
      subst (λ fs. Perm fs m.files) sorted (sort_files-Perm m.files),
      ap (λ k. record m { files = k.files }) (sym e) ∙ e,
      normal_self n i,
    )
