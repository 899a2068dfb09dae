-- ===== src/Core.antt =====
-- The proving service: crates/prover-core/src. Preflight is witness.rs, Registry is backend.rs,
-- Service is prover.rs with verification.rs, Outputs is public_inputs.rs, Catalog circuit.rs with
-- artifact.rs, and Transcript transcript.rs.
pub mod Error
pub mod Preflight
pub mod Registry
pub mod Service
pub mod Outputs
pub mod Catalog
pub mod Transcript
