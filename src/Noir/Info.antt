-- ===== src/Noir/Info.antt =====
-- The table of `nargo info`: crates/noir/src/info.rs.
pub mod Rows
use crucible_prover.Base.{
  ℕ, ◌^◌, ◌&&◌, ◌||◌, List, [], ◌∷◌, Option, none, some, Text, codes, Result, ok, err, ◌==◌,
  text_eq, nat_eq, if◌then◌else◌, is_empty, split, find?, map, trim_start_matches, read_below,
}
use crucible_prover.Noir.{NoirError, version_parse}
use crucible_prover.Witness.Toml.{trim, lines}

pub record CircuitMetrics : Type 0 where
  pub package_name : Text
  pub function : Text
  pub acir_opcodes : ℕ
  pub brillig_opcodes : ℕ

pub record InfoOutput : Type 0 where
  pub circuits : List CircuitMetrics

-- `InfoOutput::for_package`
unfoldable pub for_package : InfoOutput → Text → Option CircuitMetrics
for_package info package_name = find? (λ c. c.package_name == package_name) info.circuits

abbrev pub u64_modulus : ℕ
u64_modulus = 2 ^ 64

unfoldable pub read_u64 : Text → Option ℕ
read_u64 s = read_below u64_modulus s

unfoldable pub trim_end_matches : ℕ → Text → Text
trim_end_matches c [] = []
trim_end_matches c (d ∷ s) =
    let rest = trim_end_matches c s in if is_empty rest && d == c then [] else d ∷ rest

-- The cells of a line.
unfoldable pub cells : Text → List Text
cells line = map trim (split b'|' (trim_end_matches b'|' (trim_start_matches b'|' (trim line))))

-- The row of the cells, if they are one; the first line of the table is none.
abbrev pub counted : Text → Text → Option ℕ → Option ℕ → Option CircuitMetrics
counted package_name function (some acir) (some brillig) =
    if package_name == codes "Package"
    then none
    else some (record {
      package_name = package_name;
      function = function;
      acir_opcodes = acir;
      brillig_opcodes = brillig;
    })
counted package_name function _ _ = none

unfoldable pub row : List Text → Option CircuitMetrics
row (package_name ∷ function ∷ acir ∷ brillig ∷ others) =
    if is_empty package_name || is_empty function
    then none
    else counted package_name function (read_u64 acir) (read_u64 brillig)
row _ = none

abbrev pub add_row : Option CircuitMetrics → List CircuitMetrics → List CircuitMetrics
add_row none circuits = circuits
add_row (some c) circuits = c ∷ circuits

unfoldable pub rows : List Text → List CircuitMetrics
rows [] = []
rows (line ∷ ls) = add_row (row (cells line)) (rows ls)

-- `parse_info_output`
unfoldable pub parse_info_output : Text → Result NoirError InfoOutput
parse_info_output stdout =
    let circuits = rows (lines stdout) in
    if is_empty circuits
    then err (version_parse (codes "nargo info produced no parseable circuit rows"))
    else ok (record { circuits = circuits })
