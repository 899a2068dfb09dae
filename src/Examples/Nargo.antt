-- ===== src/Examples/Nargo.antt =====
-- Examples for `nargo`: the values of a run, and a captured run.
use crucible_prover.Base.{
  true, [], ◌∷◌, ◌++◌, some, Text, codes, ok, panicked, ◌≡◌, refl, to_ascii_lowercase, ℕ_discrete,
  strip_prefix,
}
use crucible_prover.Examples.Machines.{Disk, memory}
use crucible_prover.Machine.{FilePath, Machine, pos}
use crucible_prover.Noir.{NoirError}
use crucible_prover.Noir.Compiler.{CapturedExecute, witness_file, parse_stdout, contains}
use crucible_prover.Noir.Compiler.Reported.{IsReported, parse_stdout-printed, parse_stdout_swapped}
use crucible_prover.Noir.Toolchain.{NoirToolchain}
use crucible_prover.Base.{find?}
use crucible_prover.Noir.Info.{InfoOutput}
use crucible_prover.Witness.Toml.{lines}

abbrev solved : Text
solved = codes "[demo] Circuit output: (0x2a, 0x1b98)\n"

solved_line :
    find? (contains (codes "Circuit output:")) (lines solved)
    ≡ some (codes "[demo] Circuit output: " ++ b'(' ∷ (codes "0x2a, 0x1b98" ++ b')' ∷ []))
unfolding contains lines ℕ_discrete strip_prefix
solved_line = refl

first_value : IsReported (codes "0x2a")
unfolding to_ascii_lowercase ℕ_discrete
first_value = record { prefixed = refl; whole = refl; lowercase = refl }

second_value : IsReported (codes "0x1b98")
unfolding to_ascii_lowercase ℕ_discrete
second_value = record { prefixed = refl; whole = refl; lowercase = refl }

parse_stdout-printed_example :
    parse_stdout {E = NoirError} solved
    ≡ ok (record { values = codes "0x2a" ∷ codes "0x1b98" ∷ [] })
unfolding ℕ_discrete
parse_stdout-printed_example =
    parse_stdout-printed {E = NoirError} solved (codes "[demo] Circuit output: ") []
      (codes "0x2a" ∷ codes "0x1b98" ∷ []) solved_line refl refl (first_value, (second_value, tt))

abbrev swapped : Text
swapped = codes "Circuit output: :) (0x2a\n"

swapped_line :
    find? (contains (codes "Circuit output:")) (lines swapped)
    ≡ some (codes "Circuit output: :" ++ b')' ∷ (codes " " ++ b'(' ∷ codes "0x2a"))
unfolding contains lines ℕ_discrete strip_prefix
swapped_line = refl

parse_stdout_swapped_example : parse_stdout {E = NoirError} swapped ≡ panicked
unfolding ℕ_discrete
parse_stdout_swapped_example =
    parse_stdout_swapped {E = NoirError} swapped (codes "Circuit output: :") (codes " ")
      (codes "0x2a") swapped_line refl refl refl refl

abbrev nargo : NoirToolchain
nargo = record { binary = codes "bin" ∷ codes "nargo" ∷ [] }

abbrev disk : Disk
disk = (nargo.binary, []) ∷ []

-- The witness is written where `nargo` runs.
abbrev fresh : Machine Disk
fresh = record memory {
  output_in = λ s dir p args. (
    (witness_file dir (codes "w"), []) ∷ s,
    ok (record { success = true; code = some (pos 0); stdout = []; stderr = [] }),
  );
}

abbrev package_dir : FilePath
package_dir = codes "demo" ∷ []

abbrev after : Disk
after = (witness_file package_dir (codes "w"), []) ∷ disk

abbrev solved_run : CapturedExecute
solved_run = record {
  solved = true;
  exit_code = some (pos 0);
  witness_path = some (witness_file package_dir (codes "w"));
  stdout = [];
}

abbrev table : Text
table =
    codes "| Package | Function | ACIR Opcodes | Brillig Opcodes |\n"
    ++ codes "| demo    | main     | 1            | 0               |\n"

abbrev demo_row : InfoOutput
demo_row = record {
  circuits =
      record {
        package_name = codes "demo";
        function = codes "main";
        acir_opcodes = 1;
        brillig_opcodes = 0;
      }
      ∷ [];
}
