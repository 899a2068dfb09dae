-- ===== src/Core/Registry/Dispatch.antt =====
-- Which provider a request is dispatched to, and the errors of the dispatch.
use crucible_prover.Base.{
  true, false, List, [], ◌∷◌, none, some, ok, err, find?, ◌≡◌, ◌≢◌, ◌↔◌, arith, Option-cases, inl,
  inr, ◌∙◌, sym,
}
use crucible_prover.Core.Error.{unknown_backend, unsupported_circuit}
use crucible_prover.Core.Registry.{ProviderRegistry, serves, provider, dispatch, provide}
use crucible_prover.Provider.{ProofProvider}
use crucible_prover.Request.{BackendId, backend_id_eq, ProofRequest}
use crucible_prover.Response.{ProofResponse}

found_serves :
    (b : BackendId) (ps : List ProofProvider) (p : ProofProvider)
    → find? (serves b) ps ≡ some p
    → p.backend ≡ b
found_serves b [] p h = cc
found_serves b (q ∷ ps) p h = ground (arith, found_serves b ps p)

dispatch_ok :
    (p : ProofProvider) (r : ProofRequest) (resp : ProofResponse)
    → (dispatch p r ≡ ok resp)
      ↔ ((p.supports r.circuit r.circuit_version ≡ true) × (p.generate r ≡ ok resp))
unfolding dispatch
dispatch_ok p r resp = ground arith

dispatch_unsupported :
    (p : ProofProvider) (r : ProofRequest)
    → (dispatch p r ≡ err (unsupported_circuit r.backend r.circuit r.circuit_version))
      ↔ (p.supports r.circuit r.circuit_version ≡ false)
unfolding dispatch
dispatch_unsupported p r = ground arith

dispatch_known :
    (p : ProofProvider) (r : ProofRequest) (b : BackendId) → dispatch p r ≢ err (unknown_backend b)
unfolding dispatch
dispatch_known p r b = ground arith

provide-some :
    (registry : ProviderRegistry) (r : ProofRequest) (p : ProofProvider)
    → provider registry r.backend ≡ some p
    → provide registry r ≡ dispatch p r
unfolding provide
provide-some registry r p e = ground arith

provide-none :
    (registry : ProviderRegistry) (r : ProofRequest)
    → provider registry r.backend ≡ none
    → provide registry r ≡ err (unknown_backend r.backend)
unfolding provide
provide-none registry r e = ground arith

-- The provider that a request is dispatched to.
pub record Dispatched (registry : ProviderRegistry) (r : ProofRequest) (p : ProofProvider)
    : Type 0 where
  pub registered : provider registry r.backend ≡ some p
  pub own_backend : p.backend ≡ r.backend

registered_Dispatched :
    (registry : ProviderRegistry) (r : ProofRequest) (p : ProofProvider)
    → provider registry r.backend ≡ some p
    → Dispatched registry r p
unfolding provider
registered_Dispatched registry r p e = record {
  registered = e;
  own_backend = found_serves r.backend registry.providers p e;
}

-- A response is provided exactly when a provider of the request's own backend is registered,
-- supports the circuit at its version, and generates that response.
pub provide_iff :
    (registry : ProviderRegistry) (r : ProofRequest) (resp : ProofResponse)
    → (provide registry r ≡ ok resp) ↔ (
        (p : ProofProvider) × Dispatched registry r p
        × (p.supports r.circuit r.circuit_version ≡ true)
        × (p.generate r ≡ ok resp))
provide_iff registry r resp = (
  forward,
  λ h. provide-some registry r h.0 h.1.registered ∙ (dispatch_ok h.0 r resp).1 (h.2, h.3),
)
  where
    forward :
        provide registry r ≡ ok resp
        → (p : ProofProvider) × Dispatched registry r p
          × (p.supports r.circuit r.circuit_version ≡ true)
          × (p.generate r ≡ ok resp)
    forward h = elim (Option-cases (provider registry r.backend)) [
      | inl e ↦ cc (provide-none registry r e)
      | inr (p, e) ↦
          let (s, g) = (dispatch_ok p r resp).0 (sym (provide-some registry r p e) ∙ h) in
          (p, registered_Dispatched registry r p e, s, g)
    ]

-- The error names the backend alone exactly when no provider of it is registered, and the circuit
-- too exactly when the provider of it does not support the circuit at its version.
pub provide_error_iff :
    (registry : ProviderRegistry) (r : ProofRequest)
    → ((provide registry r ≡ err (unknown_backend r.backend))
        ↔ (provider registry r.backend ≡ none))
      × ((provide registry r ≡ err (unsupported_circuit r.backend r.circuit r.circuit_version)) ↔ (
          (p : ProofProvider) × Dispatched registry r p
          × (p.supports r.circuit r.circuit_version ≡ false)))
provide_error_iff registry r = (
  (unknown, provide-none registry r),
  (
    unsupported,
    λ h. provide-some registry r h.0 h.1.registered ∙ (dispatch_unsupported h.0 r).1 h.2,
  ),
)
  where
    unknown :
        provide registry r ≡ err (unknown_backend r.backend) → provider registry r.backend ≡ none
    unknown h = elim (Option-cases (provider registry r.backend)) [
      | inl e ↦ e
      | inr (p, e) ↦ absurd (dispatch_known p r r.backend (sym (provide-some registry r p e) ∙ h))
    ]

    unsupported :
        provide registry r ≡ err (unsupported_circuit r.backend r.circuit r.circuit_version)
        → (p : ProofProvider) × Dispatched registry r p
          × (p.supports r.circuit r.circuit_version ≡ false)
    unsupported h = elim (Option-cases (provider registry r.backend)) [
      | inl e ↦ cc (provide-none registry r e)
      | inr (p, e) ↦ (
        p,
        registered_Dispatched registry r p e,
        (dispatch_unsupported p r).0 (sym (provide-some registry r p e) ∙ h),
      )
    ]
