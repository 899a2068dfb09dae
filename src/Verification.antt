-- ===== src/Verification.antt =====
-- The verification service: crates/verifier/src/service.rs, with the reports of
-- crates/verifier/src/report.rs in the child Report.
pub mod Report
pub mod Agreement
use crucible_prover.Base.{
  Bool, true, false, not, List, [], ◌∷◌, ◌++◌, Option, none, some, Text, Result, ok, err, map_err,
  ◌==◌, if◌then◌else◌, is_empty, ◌>>=◌,
}
use crucible_prover.Provider.{Verifier, VerifierError}
use crucible_prover.Request.{BackendId, backend_id_eq}
use crucible_prover.Response.{
  VerificationRequest, VerificationOutcome, VerificationFailure, accepted, rejected, invalid_proof,
}
use Report.{VerifierResult, VerificationReport, all_verified, rejections}

pub record VerifierRegistration : Type 0 where
  pub label : Text
  pub verifier : Verifier

-- Where the source keeps the text of a verifier's error, the error itself stands here.
pub data VerifierServiceError : Type 0 where
  unknown_backend : Text → VerifierServiceError
  verifier_failed : Text → VerifierError → VerifierServiceError
  internal : Text → VerifierServiceError

pub record VerificationService : Type 0 where
  pub by_backend : List (BackendId × VerifierRegistration)

unfoldable pub new : VerificationService
new = record { by_backend = [] }

unfoldable pub register :
    VerificationService → VerifierRegistration → Result VerifierServiceError VerificationService
register service registration = ok (record {
  by_backend = service.by_backend ++ (registration.verifier.backend, registration) ∷ [];
})

unfoldable pub register_verifier :
    VerificationService → Text → Verifier → Result VerifierServiceError VerificationService
register_verifier service label verifier =
    register service (record { label = label; verifier = verifier })

-- The registrations of a backend, in order.
abbrev pub registered_for :
    BackendId → List (BackendId × VerifierRegistration) → List VerifierRegistration
registered_for b [] = []
registered_for b ((c, g) ∷ gs) = if c == b then g ∷ registered_for b gs else registered_for b gs

abbrev labels : List VerifierRegistration → List Text
labels [] = []
labels (g ∷ gs) = g.label ∷ labels gs

unfoldable pub verifiers_for : VerificationService → BackendId → List Text
verifiers_for service b = labels (registered_for b service.by_backend)

unfoldable pub run :
    VerificationRequest → VerifierRegistration → Result VerifierServiceError VerifierResult
run q g = do
  outcome ← map_err (verifier_failed g.label) (g.verifier.verify q)
  ok (record { label = g.label; outcome = outcome })

-- The loop of `verify`: the state is `results` and `ran_any`.
unfoldable pub verify_loop :
    VerificationRequest
    → List (BackendId × VerifierRegistration)
    → List VerifierResult
    → Bool
    → Result VerifierServiceError (List VerifierResult × Bool)
verify_loop q [] results ran_any = ok (results, ran_any)
verify_loop q ((b, g) ∷ gs) results ran_any = elim (b == q.backend) [
  | false ↦ verify_loop q gs results ran_any
  | true ↦ do result ← run q g; verify_loop q gs (results ++ result ∷ []) true
]

unfoldable pub verify :
    VerificationService → VerificationRequest → Result VerifierServiceError VerificationReport
verify service q = do
  done ← verify_loop q service.by_backend [] false
  if not done.1 then err (unknown_backend q.backend.id) else ok (record { results = done.0 })

-- `first().and_then(|(_, f)| *f).unwrap_or(InvalidProof)`.
unfoldable pub first_reason : List (Text × Option VerificationFailure) → VerificationFailure
first_reason [] = invalid_proof
first_reason ((l, none) ∷ rs) = invalid_proof
first_reason ((l, some f) ∷ rs) = f

unfoldable pub verify_all :
    VerificationService → VerificationRequest → Result VerifierServiceError VerificationOutcome
verify_all service q = do
  report ← verify service q
  if all_verified report then ok accepted else ok (rejected (first_reason (rejections report)))
