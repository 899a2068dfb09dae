-- ===== src/Verification/Agreement.antt =====
-- What the service reports of the verifiers that it runs.
use crucible_prover.Base.{
  Bool, true, false, not, ◌||◌, List, [], ◌∷◌, ◌++◌, append-nil, append_assoc, ok, ◌==◌, is_empty,
  ◌>>=◌, ◌≡◌, ◌↔◌, refl, sym, ◌∙◌, arith, Bool-cases, inl, inr, bind-eq-ok, All, all,
}
use crucible_prover.Request.{BackendId, backend_id_eq}
use crucible_prover.Response.{VerificationRequest, VerificationOutcome, accepted}
use crucible_prover.Verification.{
  VerifierRegistration, VerificationService, registered_for, run, verify_loop, verify, verify_all,
}
use crucible_prover.Verification.Report.{
  VerifierResult, VerificationReport, is_verified, all_verified,
}

-- One result for each registration, in order: its label and the outcome that it returned.
abbrev pub Ran : VerificationRequest → List VerifierRegistration → List VerifierResult → Type 0
Ran q [] [] = Unit
Ran q [] (r ∷ rs) = ⊥
Ran q (g ∷ gs) [] = ⊥
Ran q (g ∷ gs) (r ∷ rs) = (r.label ≡ g.label) × (g.verifier.verify q ≡ ok r.outcome) × Ran q gs rs

run_ok :
    (q : VerificationRequest) (g : VerifierRegistration) (r : VerifierResult)
    → (run q g ≡ ok r) ↔ ((r.label ≡ g.label) × (g.verifier.verify q ≡ ok r.outcome))
unfolding run
run_ok q g r = (λ h. (ground arith, ground arith), λ h. ground arith)

-- One round: a registration of another backend is passed over.
loop_other :
    (q : VerificationRequest) (d : BackendId) (g : VerifierRegistration)
    (gs : List (BackendId × VerifierRegistration)) (acc : List VerifierResult) (b : Bool)
    → (d == q.backend) ≡ false
    → verify_loop q ((d, g) ∷ gs) acc b ≡ verify_loop q gs acc b
unfolding verify_loop
loop_other q d g gs acc b h = ground arith

loop_own :
    (q : VerificationRequest) (d : BackendId) (g : VerifierRegistration)
    (gs : List (BackendId × VerifierRegistration)) (acc : List VerifierResult) (b : Bool)
    → (d == q.backend) ≡ true
    → verify_loop q ((d, g) ∷ gs) acc b ≡ (run q g >>= λ r. verify_loop q gs (acc ++ r ∷ []) true)
unfolding verify_loop
loop_own q d g gs acc b h = ground arith

loop_nil :
    (q : VerificationRequest) (acc : List VerifierResult) (b : Bool)
    → verify_loop q [] acc b ≡ ok (acc, b)
unfolding verify_loop
loop_nil q acc b = refl

abbrev Loops :
    VerificationRequest
    → List (BackendId × VerifierRegistration)
    → List VerifierResult
    → Bool
    → List VerifierResult
    → Bool
    → Type 0
Loops q gs acc b rs c =
    (new : List VerifierResult) × Ran q (registered_for q.backend gs) new
    × (rs ≡ acc ++ new)
    × (c ≡ (b || not (is_empty (registered_for q.backend gs))))

loop_sound :
    (q : VerificationRequest) (gs : List (BackendId × VerifierRegistration))
    (acc : List VerifierResult) (b : Bool) (rs : List VerifierResult) (c : Bool)
    → verify_loop q gs acc b ≡ ok (rs, c)
    → Loops q gs acc b rs c
loop_sound q [] acc b rs c h =
    let e = sym (loop_nil q acc b) ∙ h in
    ([], tt, ground (arith, append-nil acc, e), ground (arith, e))
loop_sound q ((d, g) ∷ gs) acc b rs c h = elim (Bool-cases (d == q.backend)) [
  | inr other ↦
      let (new, ran, e, f) =
        loop_sound q gs acc b rs c (sym (loop_other q d g gs acc b other) ∙ h) in
      (new, rw other ran, e, rw other f)
  | inl own ↦
      let (r, one, rest) =
        bind-eq-ok (run q g) (λ r. verify_loop q gs (acc ++ r ∷ []) true)
          (sym (loop_own q d g gs acc b own) ∙ h) in
      let (new, ran, e, f) = loop_sound q gs (acc ++ r ∷ []) true rs c rest in
      let (label, outcome) = (run_ok q g r).0 one in
      (
        r ∷ new,
        rw own (label, outcome, ran),
        e ∙ append_assoc acc (r ∷ []) new,
        rw own (ground arith),
      )
]

loop_complete :
    (q : VerificationRequest) (gs : List (BackendId × VerifierRegistration))
    (acc : List VerifierResult) (b : Bool) (new : List VerifierResult)
    → Ran q (registered_for q.backend gs) new
    → verify_loop q gs acc b ≡ ok (acc ++ new, (b || not (is_empty (registered_for q.backend gs))))
loop_complete q [] acc b [] h = ground (arith, append-nil acc, loop_nil q acc b)
loop_complete q [] acc b (r ∷ new) h = absurd h
loop_complete q ((d, g) ∷ gs) acc b new h = elim (Bool-cases (d == q.backend)) [
  | inr other ↦
      loop_other q d g gs acc b other ∙ rw other (loop_complete q gs acc b new (rw other at h))
  | inl own ↦
      loop_own q d g gs acc b own
      ∙ rw own (step new (rw own at h) (λ r rs. loop_complete q gs (acc ++ r ∷ []) true rs))
]
  where
    step :
        (new : List VerifierResult)
        → Ran q (g ∷ registered_for q.backend gs) new
        → ((r : VerifierResult) (rs : List VerifierResult)
            → Ran q (registered_for q.backend gs) rs
            → verify_loop q gs (acc ++ r ∷ []) true ≡ ok ((acc ++ r ∷ []) ++ rs, true))
        → (run q g >>= λ r. verify_loop q gs (acc ++ r ∷ []) true) ≡ ok (acc ++ new, (b || true))
    step [] h rest = absurd h
    step (r ∷ rs) h rest =
        rw ((run_ok q g r).1 (h.0, h.1))
          (rest r rs h.2 ∙ ground (arith, append_assoc acc (r ∷ []) rs))

verify_loop_ok :
    (s : VerificationService) (q : VerificationRequest) (report : VerificationReport)
    → (verify s q ≡ ok report) ↔ (verify_loop q s.by_backend [] false ≡ ok (report.results, true))
unfolding verify
verify_loop_ok s q report = (λ h. ground arith, λ h. ground arith)

-- A report is returned exactly when some verifier is registered for the backend of the request
-- and each such verifier runs; it has one result for each, in the order of registration, with its
-- label and its outcome. Verifiers of other backends do not run.
pub verify_iff :
    (s : VerificationService) (q : VerificationRequest) (report : VerificationReport)
    → (verify s q ≡ ok report) ↔ (
        (is_empty (registered_for q.backend s.by_backend) ≡ false)
        × Ran q (registered_for q.backend s.by_backend) report.results)
verify_iff s q report = (
  (λ h.
      let (new, ran, e, f) =
        loop_sound q s.by_backend [] false report.results true ((verify_loop_ok s q report).0 h) in
      (ground (arith, f), rw e ran)),
  λ h.
      (verify_loop_ok s q report).1
        (loop_complete q s.by_backend [] false report.results h.1 ∙ rw h.0),
)

-- The verifier runs on the request and accepts.
abbrev pub Accepts : VerificationRequest → VerifierRegistration → Type 0
Accepts q g = (out : VerificationOutcome) × (g.verifier.verify q ≡ ok out) × (out.verified ≡ true)

all_accept :
    (q : VerificationRequest) (gs : List VerifierRegistration) (rs : List VerifierResult)
    → Ran q gs rs
    → all is_verified rs ≡ true
    → All (Accepts q) gs
all_accept q [] [] ran h = tt
all_accept q [] (r ∷ rs) ran h = absurd ran
all_accept q (g ∷ gs) [] ran h = absurd ran
all_accept q (g ∷ gs) (r ∷ rs) ran h =
    ((r.outcome, ran.1, ground arith), all_accept q gs rs ran.2 (ground arith))

-- The results of registrations that all accept.
results_of :
    (q : VerificationRequest) (gs : List VerifierRegistration)
    → All (Accepts q) gs
    → (rs : List VerifierResult) × Ran q gs rs × (all is_verified rs ≡ true)
results_of q [] a = ([], tt, refl)
results_of q (g ∷ gs) a =
    let (rs, ran, h) = results_of q gs a.1 in
    (record { label = g.label; outcome = a.0.0 } ∷ rs, (refl, a.0.1, ran), ground (arith, h, a.0.2))

Ran-nonempty :
    (q : VerificationRequest) (gs : List VerifierRegistration) (rs : List VerifierResult)
    → Ran q gs rs
    → is_empty rs ≡ is_empty gs
Ran-nonempty q [] [] ran = refl
Ran-nonempty q [] (r ∷ rs) ran = absurd ran
Ran-nonempty q (g ∷ gs) [] ran = absurd ran
Ran-nonempty q (g ∷ gs) (r ∷ rs) ran = refl

verify_all_ok :
    (s : VerificationService) (q : VerificationRequest)
    → verify_all s q ≡ ok accepted
    → (report : VerificationReport) × (verify s q ≡ ok report) × (all_verified report ≡ true)
unfolding verify_all
verify_all_ok s q h = let (report, e, f) = bind-eq-ok (verify s q) _ h in (report, e, ground arith)

verify_all_report :
    (s : VerificationService) (q : VerificationRequest) (report : VerificationReport)
    → verify s q ≡ ok report
    → all_verified report ≡ true
    → verify_all s q ≡ ok accepted
unfolding verify_all
verify_all_report s q report h k = ground arith

-- `verify_all` accepts a proof exactly when some verifier is registered for the backend of the
-- request and every such verifier runs and accepts it.
pub verify_all_iff :
    (s : VerificationService) (q : VerificationRequest)
    → (verify_all s q ≡ ok accepted) ↔ (
        (is_empty (registered_for q.backend s.by_backend) ≡ false)
        × All (Accepts q) (registered_for q.backend s.by_backend))
unfolding all_verified
verify_all_iff s q = (
  (λ h.
      let (report, e, f) = verify_all_ok s q h in
      let (some_one, ran) = (verify_iff s q report).0 e in
      (some_one, all_accept q _ report.results ran (ground arith))),
  λ h.
      let (rs, ran, k) = results_of q (registered_for q.backend s.by_backend) h.1 in
      verify_all_report s q (record { results = rs })
        ((verify_iff s q (record { results = rs })).1 (h.0, ran))
        (ground (arith, Ran-nonempty q (registered_for q.backend s.by_backend) rs ran)),
)
