-- ===== src/Noir/Toolchain.antt =====
-- Finding `nargo` and its version: crates/noir/src/toolchain.rs and the constants of
-- crates/noir/src/lib.rs.
use crucible_prover.Base.{
  ℕ, Bool, [], ◌∷◌, Text, codes, Result, ok, err, ok_or, map_err, is_ok, ltb, if◌then◌else◌, ◌>>=◌,
}
use crucible_prover.Machine.{FilePath, display, Machine}
use crucible_prover.Noir.{NoirError, binary_not_found, unsupported_version, version_parse, io}
use crucible_prover.Tool.{head?, unwrap_or, raw_version, major_of, which}
use crucible_prover.Witness.Toml.{lines}

abbrev pub nargo_bin : Text
nargo_bin = codes "nargo"

abbrev pub min_nargo_major : ℕ
min_nargo_major = 1

pub record NargoVersion : Type 0 where
  pub raw : Text
  pub major : ℕ

pub record NoirToolchain : Type 0 where
  pub binary : FilePath

-- `parse_version`
unfoldable pub parse_nargo_version : Text → Result NoirError NargoVersion
parse_nargo_version stdout = do
  first ← ok_or (version_parse (codes "empty output")) (head? (lines stdout))
  major ← ok_or (version_parse (raw_version first)) (major_of (raw_version first))
  ok (record { raw = raw_version first; major = major })

module _ {S : Type 0} (m : Machine S) where
  -- `NoirToolchain::locate`
  unfoldable pub locate : S → Result NoirError NoirToolchain
  locate s = do
    path ← ok_or binary_not_found (which m s (unwrap_or m.var_nargo_bin nargo_bin))
    ok (record { binary = path })

  -- `NoirToolchain::is_available`
  unfoldable pub is_available : S → Bool
  is_available s = is_ok (locate s)

  -- `NoirToolchain::version`
  unfoldable pub version : NoirToolchain → S → Result NoirError NargoVersion
  version nargo s = do
    out ← map_err (io (display nargo.binary)) ((m.output s nargo.binary (codes "--version" ∷ [])).1)
    parse_nargo_version out.stdout

  -- `NoirToolchain::check_version`
  unfoldable pub check_version : NoirToolchain → S → Result NoirError (Unit {0})
  check_version nargo s = do
    v ← version nargo s
    if ltb v.major min_nargo_major then err (unsupported_version v.raw min_nargo_major) else ok tt
