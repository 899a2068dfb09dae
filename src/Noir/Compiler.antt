-- ===== src/Noir/Compiler.antt =====
-- `nargo compile` and `nargo execute`, and the values that a run reports:
-- crates/noir/src/compiler.rs.
pub mod Reported
pub mod Runs
use crucible_prover.Base.{
  ℕ, ◌+◌, Bool, true, false, not, ◌&&◌, ◌||◌, List, [], ◌∷◌, ◌++◌, Option, none, some, Text, codes,
  Result, ok, err, panicked, map_err, ◌==◌, nat_eq, if◌then◌else◌, ◌>>=◌, find?, retain, map,
  strip_prefix, split_at, to_ascii_lowercase, utf8_len,
}
use crucible_prover.Machine.{ℤ, negsuc, FilePath, join, display, Output, Machine}
use crucible_prover.Noir.{NoirError, command_failed, expected_output, io}
use crucible_prover.Noir.Toolchain.{NoirToolchain, check_version}
use crucible_prover.Tool.{unwrap_or}
use crucible_prover.Witness.Toml.{lines}

pub record CompileOutput : Type 0 where
  pub artifact_path : FilePath

pub record ExecuteOutput : Type 0 where
  pub witness_path : FilePath

pub record CapturedExecute : Type 0 where
  pub solved : Bool
  pub exit_code : Option ℤ
  pub witness_path : Option FilePath
  pub stdout : Text

pub record ReportedOutputs : Type 0 where
  pub values : List Text

-- `str::find` and `str::rfind` of a character, in bytes.
abbrev add : ℕ → Option ℕ → Option ℕ
add n none = none
add n (some i) = some (n + i)

unfoldable pub find_byte : ℕ → Text → Option ℕ
find_byte c [] = none
find_byte c (d ∷ s) = let rest = find_byte c s in if d == c then some 0 else add (utf8_len d) rest

abbrev later : ℕ → Bool → Option ℕ → Option ℕ
later n here (some i) = some (n + i)
later n here none = if here then some 0 else none

unfoldable pub rfind_byte : ℕ → Text → Option ℕ
rfind_byte c [] = none
rfind_byte c (d ∷ s) = later (utf8_len d) (d == c) (rfind_byte c s)

-- `&s[..n]` and `&s[n..]`, which panic past the end and within a character.
abbrev pub before : {E : Type 0} → ℕ → Text → Result E Text
before n s = elim (split_at n s) [ none ↦ panicked | some (a, b) ↦ ok a ]

abbrev pub from : {E : Type 0} → ℕ → Text → Result E Text
from n s = elim (split_at n s) [ none ↦ panicked | some (a, b) ↦ ok b ]

-- The text between the parentheses.
abbrev pub body : {E : Type 0} → ℕ → Option ℕ → Text → Result E Text
body open' (some end) line = do upto ← before end line; from (open' + 1) upto
body open' none line = from open' line

abbrev pub is_separator : ℕ → Bool
is_separator c = c == b',' || (c == b' ' || c == b'\t')

-- `split([',', ' ', '\t'])`
unfoldable pub tokens_onto : Text → Text → List Text
tokens_onto [] part = part ∷ []
tokens_onto (c ∷ s) part = elim (is_separator c) [
  | true ↦ part ∷ tokens_onto s []
  | false ↦ tokens_onto s (part ++ c ∷ [])
]

abbrev pub is_hex_token : Text → Bool
is_hex_token (z ∷ x ∷ t) = z == b'0' && (x == b'x' || x == b'X')
is_hex_token _ = false

unfoldable pub hex_tokens : Text → List Text
hex_tokens s = map (λ t. map to_ascii_lowercase t) (retain is_hex_token (tokens_onto s []))

unfoldable pub extract_parenthesized_hex : {E : Type 0} → Text → Result E (List Text)
extract_parenthesized_hex line = do
  text ← body (unwrap_or (find_byte b'(' line) 0) (rfind_byte b')' line) line
  ok (hex_tokens text)

-- `str::contains`
unfoldable pub contains : Text → Text → Bool
contains part [] = elim (strip_prefix part []) [ none ↦ false | some _ ↦ true ]
contains part (c ∷ s) =
    let rest = contains part s in elim (strip_prefix part (c ∷ s)) [ none ↦ rest | some _ ↦ true ]

-- The values of the line that reports them, if there is one.
unfoldable pub reported : {E : Type 0} → Option Text → Result E ReportedOutputs
reported none = ok (record { values = [] })
reported (some line) = do values ← extract_parenthesized_hex line; ok (record { values = values })

-- `ReportedOutputs::parse_stdout`
unfoldable pub parse_stdout : {E : Type 0} → Text → Result E ReportedOutputs
parse_stdout stdout = reported (find? (contains (codes "Circuit output:")) (lines stdout))

-- The directory `target` of a project, and the files of `nargo` in it.
abbrev pub witness_file : FilePath → Text → FilePath
witness_file dir name = join (join dir (codes "target")) (name ++ codes ".gz")

abbrev pub artifact_file : FilePath → Text → FilePath
artifact_file dir package_name = join (join dir (codes "target")) (package_name ++ codes ".json")

module _ {S : Type 0} (m : Machine S) where
  -- A run of `nargo` in a directory.
  abbrev pub run_nargo : NoirToolchain → S → FilePath → List Text → S × Result NoirError Output
  run_nargo nargo s dir args =
      let out = m.output_in s dir nargo.binary args in (out.0, map_err (io (display dir)) out.1)

  -- The file that the command had to write.
  unfoldable pub written : Text → S → FilePath → Output → Result NoirError FilePath
  written command s path out =
      if not out.success
      then err (command_failed command (unwrap_or out.code (negsuc 0)))
      else if not (m.is_file s path)
      then err (expected_output (display path) command)
      else ok path

  -- `NoirToolchain::compile`
  unfoldable pub compile :
      NoirToolchain → S → FilePath → Text → Result NoirError (S × CompileOutput)
  compile nargo s dir package_name = do
    _ ← check_version m nargo s
    let run =
        run_nargo nargo s dir
          (codes "compile" ∷ codes "--silence-warnings" ∷ codes "--package" ∷ package_name ∷ [])
    out ← run.1
    path ← written (codes "compile") run.0 (artifact_file dir package_name) out
    ok (run.0, record { artifact_path = path })

  abbrev pub execute_args : Text → Text → List Text
  execute_args prover_toml name = codes "execute" ∷ codes "-p" ∷ prover_toml ∷ name ∷ []

  -- `NoirToolchain::execute`
  unfoldable pub execute :
      NoirToolchain → S → FilePath → Text → Text → Result NoirError (S × ExecuteOutput)
  execute nargo s dir prover_toml name = do
    _ ← check_version m nargo s
    let run = run_nargo nargo s dir (execute_args prover_toml name)
    out ← run.1
    path ← written (codes "execute") run.0 (witness_file dir name) out
    ok (run.0, record { witness_path = path })

  -- `let _ = std::fs::remove_file(…)`
  abbrev pub removed : S → FilePath → S
  removed s path = elim (m.remove_file s path) [ ok s' ↦ s' | err _ ↦ s | panicked ↦ s ]

  -- What a captured run comes to.
  unfoldable pub captured : S → FilePath → Output → Result NoirError CapturedExecute
  captured s path out =
      if out.success && not (m.is_file s path)
      then err (expected_output (display path) (codes "execute"))
      else ok (record {
        solved = out.success;
        exit_code = out.code;
        witness_path = if out.success then some path else none;
        stdout = out.stdout;
      })

  -- `NoirToolchain::execute_captured`
  unfoldable pub execute_captured :
      NoirToolchain → S → FilePath → Text → Text → Result NoirError (S × CapturedExecute)
  execute_captured nargo s dir prover_toml name = do
    _ ← check_version m nargo s
    let run =
        run_nargo nargo (removed s (witness_file dir name)) dir (execute_args prover_toml name)
    out ← run.1
    c ← captured run.0 (witness_file dir name) out
    ok (run.0, c)
