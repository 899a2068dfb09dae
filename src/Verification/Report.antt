-- ===== src/Verification/Report.antt =====
-- Reports of several verifiers on one proof: crates/verifier/src/report.rs.
pub mod Counting
use crucible_prover.Base.{
  Bool, not, ◌&&◌, List, Option, Text, is_empty, all, any, retain, map, length, ltb,
}
use crucible_prover.Response.{VerificationOutcome, VerificationFailure, rejected_with}

pub record VerifierResult : Type 0 where
  pub label : Text
  pub outcome : VerificationOutcome

-- `VerifierResult::verified`.
abbrev pub is_verified : VerifierResult → Bool
is_verified r = r.outcome.verified

pub record VerificationReport : Type 0 where
  pub results : List VerifierResult

unfoldable pub all_verified : VerificationReport → Bool
all_verified report = not (is_empty report.results) && all is_verified report.results

unfoldable pub all_rejected_with : VerificationReport → VerificationFailure → Bool
all_rejected_with report failure =
    not (is_empty report.results) && all (λ r. rejected_with r.outcome failure) report.results

unfoldable pub any_verified : VerificationReport → Bool
any_verified report = any is_verified report.results

abbrev result_label : VerifierResult → Text
result_label r = r.label

unfoldable pub verified_by : VerificationReport → List Text
verified_by report = map result_label (retain is_verified report.results)

unfoldable pub disagrees : VerificationReport → Bool
disagrees report =
    ltb 1 (length report.results) && (any_verified report && not (all_verified report))

unfoldable pub rejections : VerificationReport → List (Text × Option VerificationFailure)
rejections report =
    map (λ r. (VerifierResult.label r, VerificationOutcome.failure (VerifierResult.outcome r)))
      (retain (λ r. not (is_verified r)) report.results)
