-- ===== src/Examples/Requests.antt =====
-- Examples for state roots and requests.
use crucible_prover.Base.{
  ◌++◌, some, codes, ok, panicked, ◌≡◌, ◌≢◌, ◌↔◌, refl, take, is_ascii_hexdigit, to_ascii_lowercase,
  trim_start_matches, strip_prefix, replicate, len, ℕ_discrete, List_ℕ-discrete, sym, ◌∙◌,
}
use crucible_prover.Bag
use crucible_prover.Bag.Private
use crucible_prover.Core.Service.{preflight}
use crucible_prover.Core.Service.Guarantees.{HasParameters, preflight_iff}
use crucible_prover.Field.{strip_0x, canonical}
use crucible_prover.Request.{root_from_hex, root_halves, WitnessError, validate}
use crucible_prover.Request.Redacted.{redacted, with_witness, redacted-eq_iff}
use crucible_prover.Request.Root.{root_halves_iff, root_halves-IsDigest, half_value}
use crucible_prover.Request.Validation.{IsComplete}
use crucible_prover.Examples.Data.{
  value_ab, root_of_ones, root_of_ones-IsDigest, state_of_ones, register_request, merge_request,
}

read_ones : root_from_hex (codes "0x" ++ replicate 64 b'1') ≡ ok root_of_ones
unfolding root_from_hex strip_0x strip_prefix is_ascii_hexdigit to_ascii_lowercase len ℕ_discrete
    List_ℕ-discrete
read_ones = refl

root_halves_iff_example :
    ((root_halves {E = WitnessError} state_of_ones ≡ root_halves {E = WitnessError} state_of_ones)
      ↔ (root_of_ones ≡ root_of_ones))
    × (root_halves {E = WitnessError} state_of_ones ≢ panicked)
root_halves_iff_example =
    root_halves_iff {E = WitnessError} state_of_ones state_of_ones root_of_ones-IsDigest
      root_of_ones-IsDigest

merge_request-IsComplete : IsComplete merge_request
merge_request-IsComplete = record {
  has_witness = unfold Private.is_empty Bag.is_empty in refl;
  has_inputs = unfold Bag.is_empty in refl;
  has_state = λ _. refl;
}

get_hi : Bag.get merge_request.public_inputs (codes "root_hi") ≡ some value_ab
unfolding Bag.get List_ℕ-discrete ℕ_discrete
get_hi = refl

get_lo : Bag.get merge_request.public_inputs (codes "root_lo") ≡ some value_ab
unfolding Bag.get List_ℕ-discrete ℕ_discrete
get_lo = refl

high_half : half_value (take 32 root_of_ones.hex) ≡ record { hex = replicate 32 b'1' }
unfolding half_value canonical trim_start_matches to_ascii_lowercase ℕ_discrete List_ℕ-discrete
high_half = refl

other_halves : root_halves {E = WitnessError} state_of_ones ≢ ok (value_ab, value_ab)
other_halves h = cc (
  sym (root_halves-IsDigest {E = WitnessError} state_of_ones root_of_ones-IsDigest) ∙ h,
  high_half,
)

preflight_iff_example :
    (preflight register_request ≡ ok tt)
    ↔ ((validate register_request ≡ ok tt) × HasParameters register_request)
preflight_iff_example = preflight_iff register_request

redacted-eq_iff_example :
    (redacted (with_witness register_request merge_request.witness) ≡ redacted register_request)
    ↔ (Private.names merge_request.witness ≡ Private.names register_request.witness)
redacted-eq_iff_example = redacted-eq_iff register_request merge_request.witness
