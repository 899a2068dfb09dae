-- ===== src/UltraHonk/Toolchain.antt =====
-- Finding `bb` and its version: crates/ultrahonk/src/toolchain.rs.
use crucible_prover.Base.{
  ℕ, [], ◌∷◌, ◌++◌, Text, codes, Result, ok, err, ok_or, map_err, ltb, nat_eq, if◌then◌else◌,
  is_empty, ◌>>=◌,
}
use crucible_prover.Machine.{FilePath, display, Machine}
use crucible_prover.Tool.{head?, unwrap_or, raw_version, major_of, which}
use crucible_prover.UltraHonk.{
  UltraHonkError, binary_not_found, unsupported_bb_version, version_parse, spawn,
}
use crucible_prover.Witness.Toml.{trim, lines}

abbrev pub bb_bin : Text
bb_bin = codes "bb"

abbrev pub min_bb_major : ℕ
min_bb_major = 4

pub record BbVersion : Type 0 where
  pub raw : Text
  pub major : ℕ

pub record BbToolchain : Type 0 where
  pub binary : FilePath

-- `parse_version`
unfoldable pub parse_bb_version : Text → Result UltraHonkError BbVersion
parse_bb_version stdout = do
  first ← ok_or (version_parse (codes "empty output")) (head? (lines stdout))
  major ← ok_or (version_parse (raw_version first)) (major_of (raw_version first))
  ok (record { raw = raw_version first; major = major })

module _ {S : Type 0} (m : Machine S) where
  -- `BbToolchain::locate`
  unfoldable pub locate : S → Result UltraHonkError BbToolchain
  locate s = do
    path ← ok_or binary_not_found (which m s (unwrap_or m.var_bb_bin bb_bin))
    ok (record { binary = path })

  -- `BbToolchain::version`
  unfoldable pub version : BbToolchain → S → Result UltraHonkError BbVersion
  version bb s = do
    out ←
        map_err (λ e. spawn (codes "cannot run `" ++ (display bb.binary ++ (codes "`: " ++ e))))
          ((m.output s bb.binary (codes "--version" ∷ [])).1)
    parse_bb_version (if is_empty (trim out.stdout) then out.stderr else out.stdout)

  -- `BbToolchain::check_version`
  unfoldable pub check_version : BbToolchain → S → Result UltraHonkError (Unit {0})
  check_version bb s = do
    v ← version bb s
    if ltb v.major min_bb_major then err (unsupported_bb_version v.raw min_bb_major) else ok tt
