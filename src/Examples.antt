-- ===== src/Examples.antt =====
-- Each theorem with a premise is applied here to a concrete input on which its premises hold.
pub mod Data
pub mod Crates
pub mod Machines
pub mod Adapter
pub mod Bb
pub mod Artifacts
pub mod Vectors
pub mod Json
pub mod Values
pub mod Requests
pub mod Mocked
pub mod Keys
pub mod Services
pub mod Secrets
pub mod Proving
pub mod Nargo
