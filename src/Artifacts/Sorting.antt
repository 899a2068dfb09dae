-- ===== src/Artifacts/Sorting.antt =====
-- The order of the files of a manifest.
use crucible_prover.Base.{
  true, false, List, [], ◌∷◌, Text, nat_eq, ◌≡◌, refl, arith, Bool-cases, inl, inr,
}
use crucible_prover.Artifacts.{ManifestFile, before, insert_file, sort_files}
use mathlib.Core.List.{Perm}
use mathlib.Core.List.Perm

-- No file stands after one whose path comes before its own.
abbrev pub IsSorted : List ManifestFile → Type 0
IsSorted [] = Unit
IsSorted (f ∷ []) = Unit
IsSorted (f ∷ g ∷ gs) = (before g.path f.path ≡ false) × IsSorted (g ∷ gs)

before_asymmetric : (s t : Text) → before s t ≡ true → before t s ≡ false
unfolding before
before_asymmetric [] [] h = cc
before_asymmetric [] (d ∷ t) h = refl
before_asymmetric (c ∷ s) [] h = cc
before_asymmetric (c ∷ s) (d ∷ t) h = ground (arith, before_asymmetric s t)

-- The first file, if any, does not come before this one.
abbrev HeadAfter : ManifestFile → List ManifestFile → Type 0
HeadAfter g [] = Unit
HeadAfter g (f ∷ fs) = before f.path g.path ≡ false

cons-IsSorted :
    (g : ManifestFile) (fs : List ManifestFile) → HeadAfter g fs → IsSorted fs → IsSorted (g ∷ fs)
cons-IsSorted g [] h k = tt
cons-IsSorted g (f ∷ fs) h k = (h, k)

IsSorted-cons :
    (g : ManifestFile) (fs : List ManifestFile) → IsSorted (g ∷ fs) → HeadAfter g fs × IsSorted fs
IsSorted-cons g [] h = (tt, tt)
IsSorted-cons g (f ∷ fs) h = h

insert_file-HeadAfter :
    (g f : ManifestFile) (fs : List ManifestFile)
    → HeadAfter g fs
    → before f.path g.path ≡ false
    → HeadAfter g (insert_file f fs)
unfolding insert_file
insert_file-HeadAfter g f [] h k = k
insert_file-HeadAfter g f (j ∷ fs) h k = elim (Bool-cases (before j.path f.path)) [
  | inl e ↦ rw e h
  | inr e ↦ rw e k
]

insert_file-IsSorted :
    (f : ManifestFile) (fs : List ManifestFile) → IsSorted fs → IsSorted (insert_file f fs)
unfolding insert_file
insert_file-IsSorted f [] h = tt
insert_file-IsSorted f (g ∷ gs) h =
    let (k, t) = IsSorted-cons g gs h in
    elim (Bool-cases (before g.path f.path)) [
      | inl e ↦ rw e (
          cons-IsSorted g (insert_file f gs)
            (insert_file-HeadAfter g f gs k (before_asymmetric g.path f.path e))
            (insert_file-IsSorted f gs t))
      | inr e ↦ rw e (cons-IsSorted f (g ∷ gs) e h)
    ]

pub sort_files-IsSorted : (fs : List ManifestFile) → IsSorted (sort_files fs)
unfolding sort_files
sort_files-IsSorted [] = tt
sort_files-IsSorted (f ∷ fs) = insert_file-IsSorted f (sort_files fs) (sort_files-IsSorted fs)

insert_file_least :
    (f : ManifestFile) (fs : List ManifestFile) → IsSorted (f ∷ fs) → insert_file f fs ≡ f ∷ fs
unfolding insert_file
insert_file_least f [] h = refl
insert_file_least f (g ∷ gs) (h, k) = rw h refl

pub sort_files_sorted : (fs : List ManifestFile) → IsSorted fs → sort_files fs ≡ fs
unfolding sort_files
sort_files_sorted [] h = refl
sort_files_sorted (f ∷ []) h = unfold insert_file in refl
sort_files_sorted (f ∷ g ∷ gs) (h, k) =
    rw (sort_files_sorted (g ∷ gs) k) (insert_file_least f (g ∷ gs) (h, k))

insert_file-Perm : (f : ManifestFile) (fs : List ManifestFile) → Perm (insert_file f fs) (f ∷ fs)
unfolding insert_file
insert_file-Perm f [] = Perm.refl (f ∷ [])
insert_file-Perm f (g ∷ gs) = elim (Bool-cases (before g.path f.path)) [
  | inl e ↦ rw e (Perm.trans (Perm.cons g (insert_file-Perm f gs)) (Perm.swap f g gs))
  | inr e ↦ rw e (Perm.refl (f ∷ g ∷ gs))
]

pub sort_files-Perm : (fs : List ManifestFile) → Perm (sort_files fs) fs
unfolding sort_files
sort_files-Perm [] = Perm.refl []
sort_files-Perm (f ∷ fs) =
    Perm.trans (insert_file-Perm f (sort_files fs)) (Perm.cons f (sort_files-Perm fs))
