-- ===== src/Noir/Info/Rows.antt =====
-- What the rows of the table of `nargo info` are.
use crucible_prover.Base.{◌<◌, false, codes, ◌==◌, text_eq, is_empty, ◌≡◌}
use crucible_prover.Noir.Info.{CircuitMetrics, u64_modulus}

-- A row with its names, which is not the first line of the table, and counts of 64 bits.
pub record IsRow (c : CircuitMetrics) : Type 0 where
  pub has_package : is_empty c.package_name ≡ false
  pub has_function : is_empty c.function ≡ false
  pub not_head : (c.package_name == codes "Package") ≡ false
  pub acir_fits : c.acir_opcodes < u64_modulus
  pub brillig_fits : c.brillig_opcodes < u64_modulus
