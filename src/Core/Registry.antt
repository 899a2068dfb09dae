-- ===== src/Core/Registry.antt =====
-- Registration and dispatch of providers: crates/prover-core/src/backend.rs.
pub mod Registration
pub mod Dispatch
use crucible_prover.Base.{
  Bool, not, List, [], ◌∷◌, ◌++◌, Option, Result, err, ok_or, ◌==◌, if◌then◌else◌, find?, retain,
  map_err, ◌>>=◌,
}
use crucible_prover.Core.Error.{CoreError, unknown_backend, unsupported_circuit, generation}
use crucible_prover.Provider.{ProofProvider}
use crucible_prover.Request.{BackendId, backend_id_eq, ProofRequest, is_none}
use crucible_prover.Response.{ProofResponse}

pub record ProviderRegistry : Type 0 where
  pub providers : List ProofProvider

unfoldable pub new : ProviderRegistry
new = record { providers = [] }

abbrev pub serves : BackendId → ProofProvider → Bool
serves b p = p.backend == b

abbrev pub serves_other : BackendId → ProofProvider → Bool
serves_other b p = not (serves b p)

unfoldable pub register : ProviderRegistry → ProofProvider → ProviderRegistry
register registry p = record {
  providers = retain (serves_other p.backend) registry.providers ++ p ∷ [];
}

unfoldable pub provider : ProviderRegistry → BackendId → Option ProofProvider
provider registry b = find? (serves b) registry.providers

unfoldable pub is_registered : ProviderRegistry → BackendId → Bool
is_registered registry b = not (is_none (provider registry b))

-- A request goes to the provider of its backend, if that supports the circuit.
unfoldable pub dispatch : ProofProvider → ProofRequest → Result CoreError ProofResponse
dispatch p r =
    if not (p.supports r.circuit r.circuit_version)
    then err (unsupported_circuit r.backend r.circuit r.circuit_version)
    else map_err generation (p.generate r)

unfoldable pub provide : ProviderRegistry → ProofRequest → Result CoreError ProofResponse
provide registry r = do
  p ← ok_or (unknown_backend r.backend) (provider registry r.backend)
  dispatch p r
