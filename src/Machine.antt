-- ===== src/Machine.antt =====
-- The machine that the code runs on: paths, files and processes (`std::path`, `std::fs`,
-- `std::process`, `tempfile`), as an interface with the laws that the code relies on.
use crucible_prover.Base.{
  ℕ, false, Bytes, Bool, true, List, [], ◌∷◌, ◌++◌, Option, none, some, Text, Result, ok, ◌≡◌,
}

-- A path as its components.
abbrev pub FilePath : Type 0
FilePath = List Text

-- `FilePath::join` of one component.
abbrev pub join : FilePath → Text → FilePath
join path part = path ++ part ∷ []

-- `FilePath::display`
unfoldable pub display : FilePath → Text
display [] = []
display (part ∷ []) = part
display (part ∷ next ∷ path) = part ++ b'/' ∷ display (next ∷ path)

-- `FilePath::parent`
unfoldable pub parent : FilePath → Option FilePath
parent [] = none
parent (part ∷ []) = some []
parent (part ∷ next ∷ path) = elim (parent (next ∷ path)) [
  | none ↦ none
  | some up ↦ some (part ∷ up)
]

-- What stands in a directory: a file, with what a read of it gives; a directory, or one that
-- cannot be listed; or neither, as nothing at all or a socket is.
mutual
  pub data Node : Type 0 where
    file : Result Text Bytes → Node
    folder : Entries → Node
    locked : Text → Node
    special : Node

  pub data Entries : Type 0 where
    none_left : Entries
    entry : Text → Node → Entries → Entries

pub data ℤ : Type 0 where
  pos negsuc : ℕ → ℤ

-- `std::process::Output`, its bytes read as text, with the exit code if there is one.
pub record Output : Type 0 where
  pub success : Bool
  pub code : Option ℤ
  pub stdout : Text
  pub stderr : Text

-- The operations on the machine in a state `S`; an error is its text. `open_append` makes a file
-- where there is none, and `append` writes at the end of one. `output` runs a program with
-- arguments, and `output_in` does so in a directory; `snapshot` is what stands at a path.
pub record Machine (S : Type 0) : Type 0 where
  pub create_dir_all : S → FilePath → Result Text S
  pub write : S → FilePath → Text → Result Text S
  pub is_file : S → FilePath → Bool
  pub read_to_string : S → FilePath → Result Text Text
  pub read : S → FilePath → Result Text Bytes
  pub tempdir : S → Result Text (S × FilePath)
  pub output : S → FilePath → List Text → S × Result Text Output
  pub var_path : Option (List FilePath)
  pub var_bb_bin : Option Text
  pub var_nargo_bin : Option Text
  pub open_append : S → FilePath → Result Text S
  pub append : S → FilePath → Text → Result Text S
  pub exists : S → FilePath → Bool
  pub snapshot : S → FilePath → Node
  pub copy : S → FilePath → FilePath → Result Text S
  pub remove_file : S → FilePath → Result Text S
  pub output_in : S → FilePath → FilePath → List Text → S × Result Text Output
  pub is_file-remove_file :
      (s : S) (p : FilePath) {s' : S} → remove_file s p ≡ ok s' → is_file s' p ≡ false
  pub is_file-write :
      (s : S) (p : FilePath) (t : Text) {s' : S} → write s p t ≡ ok s' → is_file s' p ≡ true
  pub read-write :
      (s : S) (p : FilePath) (t : Text) {s' : S} → write s p t ≡ ok s' → read_to_string s' p ≡ ok t

-- `serde_json` for the documents of one type.
pub record Json (D : Type 0) : Type 0 where
  pub to_string : D → Result Text Text
  pub from_str : Text → Result Text D
  pub from_str-to_string : (d : D) {t : Text} → to_string d ≡ ok t → from_str t ≡ ok d
