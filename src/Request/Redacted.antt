-- ===== src/Request/Redacted.antt =====
-- The view of a request without its private values: `ProofRequest::redacted` and `Debug` of
-- interfaces/src/proof_provider/request.rs. What is written of it as JSON or text is left to serde
-- and to the standard library.
use crucible_prover.Base.{ℕ, suc, List, [], ◌∷◌, Option, Text, ◌≡◌, ◌↔◌, refl, ap, ◌∙◌, sym, length}
use crucible_prover.Bag
use crucible_prover.Bag.{Bag, PublicInputBag, keys}
use crucible_prover.Bag.Private
use crucible_prover.Circuit.{Operation, CircuitId, Version}
use crucible_prover.Field.{SecretValue}
use crucible_prover.Request.{RequestId, BackendId, StateReference, ProofRequest}

pub record RedactedRequest : Type 0 where
  pub request_id : RequestId
  pub operation : Operation
  pub circuit : CircuitId
  pub circuit_version : Version
  pub artifact_version : Version
  pub backend : BackendId
  pub names : List Text
  pub count : ℕ
  pub public_inputs : PublicInputBag
  pub state_reference : Option StateReference

-- `ProofRequest::redacted`
unfoldable pub redacted : ProofRequest → RedactedRequest
redacted r = record {
  request_id = r.request_id;
  operation = r.operation;
  circuit = r.circuit;
  circuit_version = r.circuit_version;
  artifact_version = r.artifact_version;
  backend = r.backend;
  names = Private.names r.witness;
  count = Private.len r.witness;
  public_inputs = r.public_inputs;
  state_reference = r.state_reference;
}

-- The same request with other private values.
abbrev pub with_witness : ProofRequest → Bag SecretValue → ProofRequest
with_witness r w = record r { witness = w }

length-keys : (es : List (Text × SecretValue)) → length (keys es) ≡ length es
length-keys [] = refl
length-keys ((n, v) ∷ es) = ap suc (length-keys es)

-- The names determine the count.
len_names :
    (a b : Bag SecretValue) → Private.names a ≡ Private.names b → Private.len a ≡ Private.len b
unfolding Private.names Private.len Bag.names Bag.len
len_names a b h = sym (length-keys a.entries) ∙ ap length h ∙ length-keys b.entries

-- The view of a request with other private entries is the same exactly when their names are the same,
-- in their order: it shows nothing else of them, and shows all of that.
pub redacted-eq_iff :
    (r : ProofRequest) (w : Bag SecretValue)
    → (redacted (with_witness r w) ≡ redacted r) ↔ (Private.names w ≡ Private.names r.witness)
unfolding redacted
redacted-eq_iff r w = (λ h. ap (λ v. v.names) h, λ h. rw (h, len_names w r.witness h) refl)
