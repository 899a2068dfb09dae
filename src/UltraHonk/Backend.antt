-- ===== src/UltraHonk/Backend.antt =====
-- What the backend supports: crates/ultrahonk/src/backend.rs and the constants of lib.rs.
use crucible_prover.Base.{
  Bool, true, false, not, List, [], ◌∷◌, ◌++◌, map, Text, codes, Result, ok, err, ◌==◌,
  if◌then◌else◌, any, ◌≡◌, ◌↔◌, inl, inr, arith, Bool-cases, ==_iff, ℕ_discrete, List_ℕ-discrete,
  refl, sym,
}
use crucible_prover.Circuit.{
  Operation, register, deposit, merge, transfer, withdraw, CircuitId, Version, show_version,
  for_operation, as_str, CircuitId-discrete, Version-discrete, circuit_id_eq, version_eq,
}
use crucible_prover.Request.{BackendId, ultrahonk_id}
use crucible_prover.UltraHonk.{UltraHonkError, unsupported_version}

-- `TESTED_BB_VERSION`
abbrev pub tested_bb_version : Text
tested_bb_version = codes "6.0.0-nightly.20260903"

pub record CompatEntry : Type 0 where
  pub nargo : Text
  pub bb : Text
  pub circuits : Version

unfoldable pub backend_compat : List CompatEntry
backend_compat =
    record {
      nargo = codes "1.0.0-beta.26";
      bb = tested_bb_version;
      circuits = record { major = 0; minor = 1; patch = 0 };
    }
    ∷ []

-- `UltraHonkBackend::id`
abbrev pub ultrahonk_backend : BackendId
ultrahonk_backend = record { id = ultrahonk_id }

unfoldable pub is_protocol_circuit : CircuitId → Bool
is_protocol_circuit circuit =
    any (λ op. for_operation op == circuit) (register ∷ deposit ∷ merge ∷ transfer ∷ withdraw ∷ [])

-- `UltraHonkBackend::supports`
unfoldable pub supports : CircuitId → Version → Bool
supports circuit version =
    if not (is_protocol_circuit circuit)
    then false
    else any (λ entry. entry.circuits == version) backend_compat

-- `.join(", ")`
unfoldable pub join_commas : List Text → Text
join_commas [] = []
join_commas (s ∷ []) = s
join_commas (s ∷ t ∷ rest) = s ++ (codes ", " ++ join_commas (t ∷ rest))

-- `UltraHonkBackend::check_supported`
unfoldable pub check_supported : CircuitId → Version → Result UltraHonkError (Unit {0})
check_supported circuit version =
    if supports circuit version
    then ok tt
    else err (
        unsupported_version ultrahonk_id (show_version version)
          (join_commas (map (λ e. show_version e.circuits) backend_compat)))

-- The circuit of one of the operations, at the version 0.1.0.
pub record IsProtocolCircuit (circuit : CircuitId) (version : Version) : Type 0 where
  pub operation : Operation
  pub names : circuit ≡ for_operation operation
  pub version_is : version ≡ record { major = 0; minor = 1; patch = 0 }

all_supported :
    (op : Operation)
    → supports (for_operation op) (record { major = 0; minor = 1; patch = 0 }) ≡ true
unfolding supports is_protocol_circuit backend_compat for_operation as_str CircuitId-discrete
    Version-discrete ℕ_discrete List_ℕ-discrete
all_supported register = refl
all_supported deposit = refl
all_supported merge = refl
all_supported transfer = refl
all_supported withdraw = refl

any_found : {A : Type 0} (p : A → Bool) (xs : List A) → any p xs ≡ true → (x : A) × (p x ≡ true)
any_found p [] h = cc
any_found p (x ∷ xs) h = elim (Bool-cases (p x)) [
  | inl e ↦ (x, e)
  | inr e ↦ any_found p xs (ground arith)
]

-- One of the five.
protocol_circuit :
    (c : CircuitId) → is_protocol_circuit c ≡ true → (op : Operation) × (c ≡ for_operation op)
unfolding is_protocol_circuit
protocol_circuit c h =
    let (op, e) =
      any_found (λ op. for_operation op == c)
        (register ∷ deposit ∷ merge ∷ transfer ∷ withdraw ∷ []) h in
    (op, sym ((==_iff (for_operation op) c).0 e))

one_version :
    (v : Version)
    → any (λ entry. entry.circuits == v) backend_compat ≡ true
    → v ≡ record { major = 0; minor = 1; patch = 0 }
unfolding backend_compat
one_version v h = sym ((==_iff (record { major = 0; minor = 1; patch = 0 }) v).0 (ground arith))

-- A circuit and version are supported exactly when the circuit is that of one of the five
-- operations and the version is 0.1.0; exactly then `check_supported` has no error.
pub supports_iff :
    (c : CircuitId) (v : Version)
    → ((supports c v ≡ true) ↔ IsProtocolCircuit c v)
      × ((check_supported c v ≡ ok tt) ↔ (supports c v ≡ true))
unfolding check_supported
supports_iff c v = ((to c v, from c v), ground arith)
  where
    from : (c : CircuitId) (v : Version) → IsProtocolCircuit c v → supports c v ≡ true
    from c v p = rw (p.names, p.version_is) (all_supported p.operation)

    to : (c : CircuitId) (v : Version) → supports c v ≡ true → IsProtocolCircuit c v
    to c v h =
        let (op, e) = protocol_circuit c (unfold supports in ground arith) in
        record {
          operation = op;
          names = e;
          version_is = one_version v (unfold supports in ground arith);
        }
