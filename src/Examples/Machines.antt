-- ===== src/Examples/Machines.antt =====
-- A small machine, with its files in memory, and serializers of one document each. They show that
-- what is asked of the machine can be had.
use crucible_prover.Base.{
  Bool, true, false, ◌||◌, List, [], ◌∷◌, ◌++◌, Option, none, some, Text, codes, Result, ok, err,
  ◌==◌, Eq, text_eq, ==_refl, ==_iff, if◌then◌else◌, ◌≡◌, refl, sym, ap, ◌∙◌, Bool-cases, inl, inr,
  arith, ℕ_discrete,
}
use crucible_prover.Machine.{pos, special, FilePath, Machine, Json}
use crucible_prover.UltraHonk.Words.{ProofDocument, PublicInputsDocument, VkDocument}

unfoldable pub FilePath-discrete : Discrete FilePath
FilePath-discrete = hlevel ℕ_discrete

instance abbrev pub path_eq : Eq FilePath
path_eq = record { discrete = FilePath-discrete }

-- The files that were written, the last one first.
abbrev pub Disk : Type 0
Disk = List (FilePath × Text)

unfoldable pub find_text : FilePath → Disk → Option Text
find_text path [] = none
find_text path (f ∷ fs) = if f.0 == path then some f.1 else find_text path fs

unfoldable pub on_disk : Disk → FilePath → Bool
on_disk [] path = false
on_disk (f ∷ fs) path = f.0 == path || on_disk fs path

abbrev pub read_text : Option Text → Result Text Text
read_text none = err (codes "no such file")
read_text (some t) = ok t

pub same_disk : {a b : Disk} → ◌≡◌ {A = Result Text Disk} (ok a) (ok b) → a ≡ b
same_disk h = cc

pub written_on_disk : (s : Disk) (p : FilePath) (t : Text) → on_disk ((p, t) ∷ s) p ≡ true
unfolding on_disk
written_on_disk s p t = rw (==_refl p) refl

pub written_found :
    (s : Disk) (p : FilePath) (t : Text) → read_text (find_text p ((p, t) ∷ s)) ≡ ok t
unfolding find_text
written_found s p t = rw (==_refl p) refl

abbrev pub last_text : Option Text → Text
last_text none = []
last_text (some t) = t

-- The disk without a file.
unfoldable pub without : FilePath → Disk → Disk
without path [] = []
without path (f ∷ fs) = if f.0 == path then without path fs else f ∷ without path fs

pub removed_from_disk : (s : Disk) (p : FilePath) → on_disk (without p s) p ≡ false
unfolding without on_disk
removed_from_disk [] p = refl
removed_from_disk (f ∷ fs) p = ground (arith, removed_from_disk fs p)

-- `bb` is in `/bin`, answers with a version, and succeeds at everything.
abbrev pub memory : Machine Disk
memory = record {
  create_dir_all = λ s p. ok s;
  write = λ s p t. ok ((p, t) ∷ s);
  is_file = on_disk;
  read_to_string = λ s p. read_text (find_text p s);
  read = λ s p. read_text (find_text p s);
  tempdir = λ s. ok (s, codes "tmp" ∷ []);
  output = λ s p args.
      (s, ok (record { success = true; code = some (pos 0); stdout = codes "6.0.0"; stderr = [] }));
  var_path = some ((codes "bin" ∷ []) ∷ []);
  var_bb_bin = none;
  var_nargo_bin = none;
  open_append = λ s p. ok (if on_disk s p then s else (p, []) ∷ s);
  append = λ s p t. ok ((p, last_text (find_text p s) ++ t) ∷ s);
  exists = on_disk;
  snapshot = λ s p. special;
  copy = λ s p q. ok ((q, []) ∷ s);
  remove_file = λ s p. ok (without p s);
  output_in = λ s dir p args.
      (s, ok (record { success = true; code = some (pos 0); stdout = []; stderr = [] }));
  is_file-remove_file =
      λ s p {s'} h. ap (λ d. on_disk d p) (sym (same_disk {b = s'} h)) ∙ removed_from_disk s p;
  is_file-write =
      λ s p t {s'} h. ap (λ d. on_disk d p) (sym (same_disk {b = s'} h)) ∙ written_on_disk s p t;
  read-write = λ s p t {s'} h.
      ap (λ d. read_text (find_text p d)) (sym (same_disk {b = s'} h)) ∙ written_found s p t;
}

-- A serializer of one document.
module _ {D : Type 0} ⦃e : Eq D⦄ (only : D) where
  unfoldable pub write_only : D → Result Text Text
  write_only d = if d == only then ok (codes "{}") else err (codes "another document")

  unfoldable pub read_only : Text → Result Text D
  read_only t = if t == codes "{}" then ok only else err (codes "not a document")

  write_only-ok : (d : D) {t : Text} → write_only d ≡ ok t → (only ≡ d) × (codes "{}" ≡ t)
  unfolding write_only
  write_only-ok d {t} h = elim (Bool-cases (d == only)) [
    | inl k ↦ (sym ((==_iff d only).0 k), same_text (ground arith))
    | inr k ↦ ground arith
  ]
    where
      same_text : {a b : Text} → ◌≡◌ {A = Result Text Text} (ok a) (ok b) → a ≡ b
      same_text h = cc

  pub read_only-write_only : (d : D) {t : Text} → write_only d ≡ ok t → read_only t ≡ ok d
  unfolding read_only
  read_only-write_only d {t} h =
      let (same, text) = write_only-ok d {t = t} h in
      rw⁻¹ text (rw (==_refl (codes "{}")) (ap ok same))

  abbrev pub json_of : Json D
  json_of = record {
    to_string = write_only;
    from_str = read_only;
    from_str-to_string = read_only-write_only;
  }

unfoldable pub ProofDocument-discrete : Discrete ProofDocument
ProofDocument-discrete = hlevel ℕ_discrete

instance abbrev pub proof_document_eq : Eq ProofDocument
proof_document_eq = record { discrete = ProofDocument-discrete }

unfoldable pub PublicInputsDocument-discrete : Discrete PublicInputsDocument
PublicInputsDocument-discrete = hlevel ℕ_discrete

instance abbrev pub inputs_document_eq : Eq PublicInputsDocument
inputs_document_eq = record { discrete = PublicInputsDocument-discrete }

unfoldable pub VkDocument-discrete : Discrete VkDocument
VkDocument-discrete = hlevel ℕ_discrete

instance abbrev pub vk_document_eq : Eq VkDocument
vk_document_eq = record { discrete = VkDocument-discrete }
