-- ===== src/Core/Transcript.antt =====
-- The transcript of a run: crates/prover-core/src/transcript.rs. The buffered writer is not
-- modelled.
use crucible_prover.Base.{
  ℕ, Bool, [], ◌∷◌, ◌++◌, Text, codes, Result, map_err, ◌>>=◌, ◌≡◌, ◌↔◌, refl, ap,
}
use crucible_prover.Bag.{Bag}
use crucible_prover.Bag.Private
use crucible_prover.Circuit.{Operation}
use crucible_prover.Field.{SecretValue}
use crucible_prover.Machine.{FilePath, display, Machine}
use crucible_prover.Request.{ProofRequest}
use crucible_prover.Request.Redacted.{with_witness}
use crucible_prover.Response.{ProofResponse, VerificationOutcome}

pub record TranscriptEntry : Type 0 where
  pub operation : Operation
  pub circuit : Text
  pub backend : Text
  pub request_id : Text
  pub private_witness_count : ℕ
  pub verification_key_id : Text
  pub artifact_checksum : Text
  pub verified : Bool

-- `TranscriptEntry::from_request_response`
unfoldable pub from_request_response :
    ProofRequest → ProofResponse → VerificationOutcome → TranscriptEntry
from_request_response r response outcome = record {
  operation = r.operation;
  circuit = r.circuit.id;
  backend = r.backend.id;
  request_id = r.request_id.id;
  private_witness_count = Private.len r.witness;
  verification_key_id = response.verification_key_id.id;
  artifact_checksum = response.artifact_checksum.hex;
  verified = outcome.verified;
}

module _ {S : Type 0} (m : Machine S) (to_string : TranscriptEntry → Result Text Text) where
  -- `append_transcript`; an error is the text of `CoreError::Internal`.
  unfoldable pub append_transcript : S → FilePath → TranscriptEntry → Result Text S
  append_transcript s path entry = do
    s1 ←
        map_err (λ e. codes "cannot open transcript " ++ (display path ++ (codes ": " ++ e)))
          (m.open_append s path)
    line ← map_err (λ e. codes "cannot encode transcript: " ++ e) (to_string entry)
    map_err (λ e. codes "cannot write transcript: " ++ e) (m.append s1 path (line ++ b'\n' ∷ []))

-- The entry of a request with other private entries is the same exactly when there are as many of
-- them.
pub from_request_response-eq_iff :
    (r : ProofRequest) (w : Bag SecretValue) (response : ProofResponse)
    (outcome : VerificationOutcome)
    → (from_request_response (with_witness r w) response outcome
        ≡ from_request_response r response outcome)
      ↔ (Private.len w ≡ Private.len r.witness)
unfolding from_request_response
from_request_response-eq_iff r w response outcome =
    (λ h. ap (λ e. e.private_witness_count) h, λ h. rw h refl)
