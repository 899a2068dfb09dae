-- ===== src/Artifacts/Tree.antt =====
-- Directories as the loader walks and reads them: `walk_files`, `collect_files` and `resolve_safe` of
-- crates/artifacts/src/loader.rs.
use crucible_prover.Base.{
  Bool, true, false, not, ◌&&◌, List, [], ◌∷◌, ◌++◌, map, Option, none, some, Text, Bytes, Result,
  ok, err, ◌==◌, nat_eq, text_eq, if◌then◌else◌, ◌>>=◌, split,
}
use crucible_prover.Artifacts.{ArtifactError, unsafe_path, read_failure, is_safe_relative_path}
use crucible_prover.Machine.{
  Node, file, folder, locked, special, Entries, none_left, entry, FilePath, join, display,
}

-- `to_string_lossy().replace('\\', "/")`
unfoldable pub rel_text : FilePath → Text
rel_text rel = map (λ c. if c == 0x5C then b'/' else c) (display rel)

unfoldable mutual
  -- `collect_files`, at a node of the path `rel` below the root.
  pub collect_node : FilePath → FilePath → Node → Result ArtifactError (List Text)
  collect_node root rel (file content) = ok (rel_text rel ∷ [])
  collect_node root rel (folder entries) = collect_entries root rel entries
  collect_node root rel (locked reason) = err (read_failure (display (root ++ rel)) reason)
  collect_node root rel special = ok []

  pub collect_entries : FilePath → FilePath → Entries → Result ArtifactError (List Text)
  collect_entries root rel none_left = ok []
  collect_entries root rel (entry name node rest) = do
    found ← collect_node root (join rel name) node
    more ← collect_entries root rel rest
    ok (found ++ more)

unfoldable pub walk_files : FilePath → Node → Result ArtifactError (List Text)
walk_files root node = collect_node root [] node

-- The node at a path.
unfoldable mutual
  pub find_node : Node → FilePath → Option Node
  find_node node [] = some node
  find_node (folder entries) (part ∷ path) = find_entry entries part path
  find_node node (part ∷ path) = none

  pub find_entry : Entries → Text → FilePath → Option Node
  find_entry none_left part path = none
  find_entry (entry name node rest) part path =
      if name == part then find_node node path else find_entry rest part path

-- `std::fs::read`; `reason` is the text for a path that has no file.
abbrev pub content_of : Text → Option Node → Result Text Bytes
content_of reason (some (file content)) = content
content_of reason _ = err reason

unfoldable pub read_file : (FilePath → Text) → Node → FilePath → Result Text Bytes
read_file reason node path = content_of (reason path) (find_node node path)

-- `FilePath::starts_with`
unfoldable pub below : FilePath → FilePath → Bool
below [] path = true
below (r ∷ root) [] = false
below (r ∷ root) (part ∷ path) = r == part && below root path

-- The path below the root that `resolve_safe` accepts.
unfoldable pub resolve_safe : FilePath → Text → Result ArtifactError FilePath
resolve_safe root path =
    if not (is_safe_relative_path path)
    then err (unsafe_path path)
    else if not (below root (root ++ split b'/' path))
    then err (unsafe_path path)
    else ok (split b'/' path)
