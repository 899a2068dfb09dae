-- ===== src/UltraHonk/Exec.antt =====
-- `bb prove` and `bb verify`: crates/ultrahonk/src/exec.rs.
pub mod Prove
pub mod Consistency
use crucible_prover.Base.{
  ℕ, Bool, true, false, not, List, [], ◌∷◌, ◌++◌, Option, none, some, Text, codes, len, Result, ok,
  err, panicked, map_err, ltb, ◌==◌, text_eq, nat_eq, if◌then◌else◌, ◌>>=◌, is_empty, find?,
  split_at,
}
use crucible_prover.External.{Hex}
use crucible_prover.Machine.{FilePath, join, display, Output, Machine, Json}
use crucible_prover.UltraHonk.{
  UltraHonkError, missing_file, io, spawn, command_failed, malformed_artifact,
  inconsistent_artifacts,
}
use crucible_prover.UltraHonk.Toolchain.{BbToolchain, check_version}
use crucible_prover.Tool.{unwrap_or}
use crucible_prover.UltraHonk.Words.{
  ProofDocument, PublicInputsDocument, VkDocument, validate_provenance, vk_hash_bytes, hash_bytes,
}
use crucible_prover.Witness.Toml.{trim, trim_end, lines}

pub record ProveOptions : Type 0 where
  pub bytecode : FilePath
  pub witness : FilePath
  pub output_dir : FilePath
  pub write_vk : Bool

pub record ProvenArtifacts : Type 0 where
  pub output_dir : FilePath
  pub proof : ProofDocument
  pub public_inputs : PublicInputsDocument
  pub vk : Option VkDocument

pub record ArtifactFiles : Type 0 where
  pub proof : FilePath
  pub vk : Option FilePath
  pub public_inputs : FilePath

pub record VerifyOptions : Type 0 where
  pub proof : FilePath
  pub vk : FilePath
  pub public_inputs : FilePath

pub record VerifyOutcome : Type 0 where
  pub verified : Bool
  pub diagnostic : Option Text

-- `ProvenArtifacts::files`
unfoldable pub files : ProvenArtifacts → ArtifactFiles
files a = record {
  proof = join a.output_dir (codes "proof.json");
  vk = elim a.vk [ none ↦ none | some doc ↦ some (join a.output_dir (codes "vk.json")) ];
  public_inputs = join a.output_dir (codes "public_inputs.json");
}

-- The last line that is not blank.
abbrev pub last_line : List Text → Option Text → Option Text
last_line [] found = found
last_line (l ∷ ls) found = last_line ls (if is_empty (trim l) then found else some l)

-- `line.split(" (mem:").next()`
unfoldable pub before_mem : Text → Text
before_mem [] = []
before_mem (c ∷ s) = let rest = before_mem s in if starts_with_mem (c ∷ s) then [] else c ∷ rest
  where
    starts_with_mem : Text → Bool
    starts_with_mem (a ∷ b ∷ c ∷ d ∷ e ∷ f ∷ s) = (a ∷ b ∷ c ∷ d ∷ e ∷ f ∷ []) == codes " (mem:"
    starts_with_mem _ = false

-- `truncate(200)`, which panics within a character, and the ellipsis.
abbrev pub cut : {E : Type 0} → Option (Text × Text) → Result E Text
cut none = panicked
cut (some (head, rest)) = ok (head ++ 0x2026 ∷ [])

unfoldable pub excerpt : {E : Type 0} → Text → Result E Text
excerpt stderr =
    let line = unwrap_or (last_line (lines stderr) none) (codes "bb failed (no diagnostic)") in
    let stripped = trim_end (before_mem (trim line)) in
    if ltb 200 (len stripped) then cut (split_at 200 stripped) else ok stripped

-- The serializers of the documents.
pub record Documents : Type 0 where
  pub proofs : Json ProofDocument
  pub inputs : Json PublicInputsDocument
  pub keys : Json VkDocument

module _ {S : Type 0} (m : Machine S) where
  unfoldable pub require_file : S → FilePath → Result UltraHonkError (Unit {0})
  require_file s path = if m.is_file s path then ok tt else err (missing_file (display path))

  unfoldable pub read_document : {D : Type 0} → Json D → S → FilePath → Result UltraHonkError D
  read_document json s path = do
    text ← map_err (io (display path)) (m.read_to_string s path)
    map_err (malformed_artifact (display path)) (json.from_str text)

  abbrev pub run_bb : BbToolchain → S → List Text → S × Result UltraHonkError Output
  run_bb bb s args =
      let out = m.output s bb.binary args in
      (
        out.0,
        map_err (λ e. spawn (codes "cannot spawn `" ++ (display bb.binary ++ (codes "`: " ++ e))))
            out.1,
      )

  -- The verdict of a process that ended.
  unfoldable pub verdict : Output → Result UltraHonkError VerifyOutcome
  verdict out = elim out.success [
    | true ↦ ok (record { verified = true; diagnostic = none })
    | false ↦ do line ← excerpt out.stderr; ok (record { verified = false; diagnostic = some line })
  ]

  -- `verify`
  unfoldable pub verify : BbToolchain → S → VerifyOptions → Result UltraHonkError VerifyOutcome
  verify bb s options = do
    _ ← check_version m bb s
    _ ← require_file s options.proof
    _ ← require_file s options.vk
    _ ← require_file s options.public_inputs
    out ←
        (run_bb bb s (
          codes "verify"
          ∷ codes "-p"
          ∷ display options.proof
          ∷ codes "-k"
          ∷ display options.vk
          ∷ codes "-i"
          ∷ display options.public_inputs
          ∷ [])).1
    verdict out
