-- ===== src/Vectors/Catalog.antt =====
-- The files of the test vectors: `discover`, `load_catalog` and the two roots of
-- crates/vectors/src/lib.rs.
use crucible_prover.Base.{
  ℕ, zero, suc, Bool, true, false, ◌&&◌, ◌||◌, List, [], ◌∷◌, ◌++◌, Text, codes, Result, ok, err,
  expect, ◌==◌, nat_eq, text_eq, if◌then◌else◌, ◌>>=◌,
}
use crucible_prover.Artifacts.{before}
use crucible_prover.Field.{FieldError}
use crucible_prover.Machine.{
  FilePath, join, display, Node, file, folder, locked, special, Entries, none_left, entry, Machine,
}
use crucible_prover.Request.{StateReference, state_reference, root_from_hex}
use crucible_prover.Vectors.{TestVector}
use crucible_prover.Vectors.Load.{RawVector, load_vector}

-- The extension of a file name is `json`: a name in front of the dot is needed.
unfoldable pub ends_in_json : Text → Bool
ends_in_json [] = false
ends_in_json (c ∷ s) = s == codes ".json" || ends_in_json s

-- The order of paths: by their components, each by its bytes.
unfoldable pub path_before : FilePath → FilePath → Bool
path_before [] [] = false
path_before [] (q ∷ qs) = true
path_before (p ∷ ps) [] = false
path_before (p ∷ ps) (q ∷ qs) = before p q || p == q && path_before ps qs

unfoldable pub insert_path : FilePath → List FilePath → List FilePath
insert_path p [] = p ∷ []
insert_path p (q ∷ qs) = if path_before q p then q ∷ insert_path p qs else p ∷ q ∷ qs

unfoldable pub sort_paths : List FilePath → List FilePath
sort_paths [] = []
sort_paths (p ∷ ps) = insert_path p (sort_paths ps)

abbrev pub unreadable : FilePath → Text → Text
unreadable dir e =
    codes "cannot read test-vector directory `" ++ (display dir ++ (codes "`: " ++ e))

unfoldable mutual
  -- What an entry of a directory adds.
  pub collect_entry : FilePath → Node → Text → Result Text (List FilePath)
  collect_entry path (folder entries) name = collect_entries path entries
  collect_entry path (locked reason) name = err (unreadable path reason)
  collect_entry path (file content) name = ok (if ends_in_json name then path ∷ [] else [])
  collect_entry path special name = ok (if ends_in_json name then path ∷ [] else [])

  pub collect_entries : FilePath → Entries → Result Text (List FilePath)
  collect_entries dir none_left = ok []
  collect_entries dir (entry name node rest) = do
    found ← collect_entry (join dir name) node name
    more ← collect_entries dir rest
    ok (found ++ more)

-- `collect_json`; `reason` is why what is no directory cannot be listed.
unfoldable pub collect_json : Text → FilePath → Node → Result Text (List FilePath)
collect_json reason dir (folder entries) = collect_entries dir entries
collect_json reason dir (locked e) = err (unreadable dir e)
collect_json reason dir other = err (unreadable dir reason)

module _ {S : Type 0} (m : Machine S) (not_a_directory : FilePath → Text) where
  unfoldable pub discover : S → FilePath → Result Text (List FilePath)
  discover s root = do
    out ← collect_json (not_a_directory root) root (m.snapshot s root)
    ok (sort_paths out)

module _ {S : Type 0} (m : Machine S) (from_str : Text → Result Text RawVector)
    (reason : FieldError → Text) where
  unfoldable pub load_all : S → List FilePath → Result Text (List TestVector)
  load_all s [] = ok []
  load_all s (path ∷ paths) = do
    vector ← load_vector m from_str reason s path
    vectors ← load_all s paths
    ok (vector ∷ vectors)

  unfoldable pub load_catalog : (FilePath → Text) → S → FilePath → Result Text (List TestVector)
  load_catalog not_a_directory s root = do
    paths ← discover m not_a_directory s root
    load_all s paths

-- `"ab".repeat(32)`
unfoldable pub repeat : ℕ → Text → Text
repeat zero s = []
repeat (suc n) s = s ++ repeat n s

unfoldable pub root_a : {E : Type 0} → Result E StateReference
root_a = do root ← expect (root_from_hex (repeat 32 (codes "ab"))); ok (state_reference root 1)

unfoldable pub root_b : {E : Type 0} → Result E StateReference
root_b = do root ← expect (root_from_hex (repeat 32 (codes "cd"))); ok (state_reference root 2)
