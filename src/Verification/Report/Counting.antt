-- ===== src/Verification/Report/Counting.antt =====
-- How the results of a report are counted.
use crucible_prover.Base.{
  ◌+◌, true, not, ◌&&◌, List, [], ◌∷◌, ◌≡◌, refl, ap, ◌∙◌, arith, all, any, length, length-map,
  retain, ltb,
}
use crucible_prover.Request.{backend_id_eq}
use crucible_prover.Verification.Report.{
  VerifierResult, VerificationReport, is_verified, all_verified, any_verified, disagrees,
  rejections, verified_by,
}

any_split :
    (rs : List VerifierResult) → all is_verified rs ≡ not (any (λ r. not (is_verified r)) rs)
any_split [] = refl
any_split (r ∷ rs) = ground (arith, any_split rs)

two_results :
    (rs : List VerifierResult)
    → any is_verified rs ≡ true
    → any (λ r. not (is_verified r)) rs ≡ true
    → ltb 1 (length rs) ≡ true
two_results [] h k = cc
two_results (r ∷ []) h k = ground arith
two_results (r ∷ r' ∷ rs) h k = ground arith

partition :
    (rs : List VerifierResult)
    → length (retain is_verified rs) + length (retain (λ r. not (is_verified r)) rs) ≡ length rs
partition [] = omega arith
partition (r ∷ rs) = ground (arith, partition rs)

-- A report disagrees exactly when one of its verifiers has accepted the proof and one has
-- rejected it, and every result is counted once, as an acceptance or as a rejection.
pub disagrees_lem :
    (report : VerificationReport)
    → (disagrees report
        ≡ (any is_verified report.results && any (λ r. not (is_verified r)) report.results))
      × (length (verified_by report) + length (rejections report) ≡ length report.results)
unfolding disagrees any_verified all_verified verified_by rejections
disagrees_lem report = (
  ground (arith, any_split report.results, two_results report.results),
  (ap (λ n. n + length (rejections report)) (length-map _ (retain is_verified report.results))
      ∙ ap (λ n. length (retain is_verified report.results) + n)
          (length-map _ (retain (λ r. not (is_verified r)) report.results))
      ∙ partition report.results),
)
