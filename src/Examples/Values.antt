-- ===== src/Examples/Values.antt =====
-- Examples for field values, bags, circuits and versions.
use crucible_prover.Base.{text_eq, nat_eq, ◌≡◌, ◌↔◌, refl}
use crucible_prover.Field.{strip_0x}
use crucible_prover.Field.Number.{number, from_hex-eq_iff}
use crucible_prover.Bag.Encoding.{canonical_bytes_injective}
use crucible_prover.Examples.Data.{
  value_ab, padded_ab, plain_ab, read_padded, read_plain, value_ab-IsCanonical,
  two_inputs-IsWellFormed, two_inputs,
}

from_hex-eq_iff_example :
    (value_ab ≡ value_ab) ↔ (number (strip_0x padded_ab) ≡ number (strip_0x plain_ab))
from_hex-eq_iff_example =
    from_hex-eq_iff padded_ab plain_ab {v = value_ab} {w = value_ab} read_padded read_plain

canonical_bytes_injective_example : two_inputs ≡ two_inputs
canonical_bytes_injective_example =
    canonical_bytes_injective two_inputs two_inputs two_inputs-IsWellFormed two_inputs-IsWellFormed
      (value_ab-IsCanonical, (value_ab-IsCanonical, tt))
      (value_ab-IsCanonical, (value_ab-IsCanonical, tt)) refl
