-- ===== src/Core/Registry/Registration.antt =====
-- Which provider serves a backend after a registration.
use crucible_prover.Base.{
  true, List, [], ◌∷◌, ◌++◌, some, ◌==◌, if◌then◌else◌, find?, retain, ◌≡◌, ◌≢◌, refl, arith,
}
use crucible_prover.Core.Registry.{ProviderRegistry, serves, serves_other, register, provider}
use crucible_prover.Provider.{ProofProvider}
use crucible_prover.Request.{BackendId, backend_id_eq, is_none}

find-register :
    (b c : BackendId) (p : ProofProvider) (ps : List ProofProvider)
    → p.backend ≡ c
    → find? (serves b) (retain (serves_other c) ps ++ p ∷ [])
      ≡ (if c == b then some p else find? (serves b) ps)
find-register b c p [] h = ground arith
find-register b c p (q ∷ ps) h = ground (arith, find-register b c p ps h)

-- After a registration the backend of the new provider is served by it, whatever was registered
-- before, and every other backend as before.
pub provider-register :
    (registry : ProviderRegistry) (p : ProofProvider) (b : BackendId)
    → provider (register registry p) b ≡ (if p.backend == b then some p else provider registry b)
unfolding provider register
provider-register registry p b = find-register b p.backend p registry.providers refl

-- No two providers serve one backend.
abbrev pub Exclusive : List ProofProvider → Type 0
Exclusive [] = Unit
Exclusive (p ∷ ps) = (is_none (find? (serves p.backend) ps) ≡ true) × Exclusive ps

find-retain :
    (b c : BackendId) (ps : List ProofProvider)
    → is_none (find? (serves b) ps) ≡ true
    → is_none (find? (serves b) (retain (serves_other c) ps)) ≡ true
find-retain b c [] h = refl
find-retain b c (q ∷ ps) h = ground (arith, find-retain b c ps)

find-concat :
    (b : BackendId) (p : ProofProvider) (ps : List ProofProvider)
    → is_none (find? (serves b) ps) ≡ true
    → p.backend ≢ b
    → is_none (find? (serves b) (ps ++ p ∷ [])) ≡ true
find-concat b p [] h n = ground arith
find-concat b p (q ∷ ps) h n = ground (arith, find-concat b p ps)

Exclusive-register :
    (p : ProofProvider) (ps : List ProofProvider)
    → Exclusive ps
    → Exclusive (retain (serves_other p.backend) ps ++ p ∷ [])
Exclusive-register p [] e = (refl, tt)
Exclusive-register p (q ∷ ps) e = ground (
  arith,
  Exclusive-register p ps e.1,
  find-retain q.backend p.backend ps e.0,
  find-concat q.backend p (retain (serves_other p.backend) ps),
)

-- A registration keeps it so that no two providers serve one backend.
pub register-Exclusive :
    (registry : ProviderRegistry) (p : ProofProvider)
    → Exclusive registry.providers
    → Exclusive (register registry p).providers
unfolding register
register-Exclusive registry p e = Exclusive-register p registry.providers e
