-- ===== src/Witness/File.antt =====
-- The file of a witness: `write_prover_toml` of crates/witness/src/encoder.rs, and the errors of
-- crates/witness/src/errors.rs as text. The permissions of the file are not modelled.
use crucible_prover.Base.{Text, codes, ◌++◌, Result, map_err, ◌>>=◌}
use crucible_prover.Circuit.{as_str}
use crucible_prover.Field.Describe
use crucible_prover.Machine.{FilePath, Machine}
use crucible_prover.Witness.{
  WitnessSide, public, private, WitnessError, missing_required, overlap, operation_mismatch,
  invalid_value, io, encoding, WitnessData,
}
use crucible_prover.Witness.Toml.{encode_toml}

-- `Debug`
unfoldable pub show_side : WitnessSide → Text
show_side public = codes "Public"
show_side private = codes "Private"

unfoldable pub to_string : WitnessError → Text
to_string (missing_required operation side name) =
    codes "operation "
    ++ (as_str operation
        ++ (codes " requires " ++ (show_side side ++ (codes " witness `" ++ (name ++ codes "`")))))
to_string (overlap name) =
    codes "witness name `" ++ (name ++ codes "` appears on both the public and private side")
to_string (operation_mismatch expected actual) =
    codes "operation mismatch: assembler expects "
    ++ (as_str expected ++ (codes ", request is " ++ as_str actual))
to_string (invalid_value e) = Describe.to_string e
to_string (io text) = codes "witness I/O error: " ++ text
to_string (encoding text) = codes "witness encoding error: " ++ text

-- `write_prover_toml`
unfoldable pub write_prover_toml :
    {S : Type 0} → Machine S → S → WitnessData → FilePath → Result WitnessError S
write_prover_toml m s d path = do text ← encode_toml d; map_err io (m.write s path text)
