-- ===== src/Lib.antt =====
-- A model of the proof engine of Crucible: the shared interfaces (interfaces/), the mock backend
-- (crates/mock), the proving service (crates/prover-core), the wire envelope (crates/proof-types),
-- the verification service (crates/verifier), the witnesses (crates/witness), the circuit artifacts
-- (crates/artifacts), the adapter of the Noir toolchain (crates/noir) and the UltraHonk adapter
-- (crates/ultrahonk).
--
-- A proof request carries an operation, a circuit at a version, a backend, public inputs, private
-- inputs and a reference to a state. The proving service checks the request, dispatches it to the
-- provider of its backend, and has its local verifier check the response. The verification service
-- runs every verifier of a backend on one proof and aggregates what they return. The mock backend
-- makes keyed digests of an envelope in the place of proofs. The UltraHonk adapter runs the external
-- prover `bb`: it keeps verification keys in a store on disk, whose ids pin a circuit, a version and
-- the digest of an artifact, and its verifier compares this context before `bb` decides. Its provider
-- loads the bytecode from a directory against the digests of its manifest, solves the witness with
-- `nargo` in a scratch copy of the package, has `bb` prove, names the public words by the operation,
-- and stores the key under the id that the response carries.
--
-- Which file models which part:
--   Base          lists, texts and bytes, decimal numbers, and results that can also panic
--   Field         interfaces/src/circuit/inputs.rs: FieldValue, SecretValue, validate_name
--   Bag           interfaces/src/circuit/inputs.rs: PublicInputBag, and in Bag/Private
--                 PrivateWitnessBag; a bag is the list of its entries in order
--   Circuit       interfaces/src/circuit/circuit.rs
--   Expectations  interfaces/src/circuit/expectations.rs
--   Request       interfaces/src/proof_provider/request.rs; RootBytes has the roots as bytes, and
--                 Redacted the view without private values
--   Response      interfaces/src/proof_provider/proof.rs and interfaces/src/verifier
--   Provider      the traits ProofProvider and Verifier, as records of functions
--   Mock          crates/mock/src/prover.rs, and in Mock/Verify crates/mock/src/verifier.rs
--   Envelope      crates/proof-types/src/common.rs and crates/prover-core/src/proof.rs
--   Core          crates/prover-core: Registry is backend.rs, Preflight witness.rs, Outputs
--                 public_inputs.rs, Service prover.rs and verification.rs, Catalog circuit.rs and
--                 artifact.rs, Transcript transcript.rs
--   Verification  crates/verifier: service.rs, and in Verification/Report report.rs
--   Witness       crates/witness: builder.rs and validation.rs, in Witness/Toml encoder.rs and
--                 decoder.rs, in Witness/File the writing of the file, and in Witness/Scrub secrets.rs
--   Artifacts     crates/artifacts: manifest.rs, checksum.rs and errors.rs, in Artifacts/Tree and
--                 Artifacts/Loader loader.rs; a directory is a tree of named nodes
--   UltraHonk     crates/ultrahonk: vk.rs and the errors; its children are Words and Exec (exec.rs),
--                 Calldata, Backend, Store, Toolchain and Verifier (the files of these names), and
--                 Describe (the texts of the errors)
--                 In UltraHonk/Scratch and UltraHonk/Provider provider.rs; a tree that is copied is
--                 read when the copying of it starts
--   Noir          crates/noir: errors.rs, and its children Toolchain, Info, Artifact and Compiler
--                 (compiler.rs); a field `package` of the source is `package_name`
--   Tool          what the two files toolchain.rs share
--   Vectors       crates/vectors/src/lib.rs; Load is `load`, Build `to_request_for`
--                 and Catalog `discover` and `load_catalog`
--   External      what is asked of the crates sha2 and hex
--   Machine       what is asked of the file system and of processes
--   Examples      inputs on which the premises of the theorems hold
--
-- A method is the function of the same name; a constructor function `T::new` is named for its
-- type in snake case where several types share a module (`circuit_id` is `CircuitId::new`,
-- `verification_key_id` is `VerificationKeyId::new`). A method that changes its receiver returns
-- the new value. A text is the list of its code points, and `len` counts the bytes of its UTF-8.
-- `Result` has a third case `panicked` for an `expect`, an `unwrap` or a slice that unwinds.
-- Numbers are natural numbers; the 32-bit and 64-bit bounds are written out where they matter,
-- and `bump_patch` wraps around.
--
-- Every function is total. The one that counts with fuel is the printing of decimal numbers in
-- Base/Decimal: the number itself is the fuel, and a number has no more digits than that.
-- `scrub_hex` loops over an index; `scrub_from` goes over the same characters and keeps the run of
-- digits that it is in.
--
-- Not modelled: serde's formats (JSON is a parameter with its round trip as a law), `Debug`, and
-- `Display` of some errors (an error that quotes another one holds it in the place of its text;
-- the texts of the errors of field values, witnesses, Noir and UltraHonk are modelled), the
-- permissions and the removal of scratch files, the buffer of transcripts, the command line, and
-- time. Files and processes are an interface with a state: what is written is there and is read
-- back, and nothing else is known of them, so no theorem speaks of a file after another one was
-- written. A symbolic link is what it leads to. SHA-256 is a parameter of which only the length of
-- the digests is known: where a theorem needs two digests to differ, it says so.
pub mod Base
pub mod Field
pub mod Bag
pub mod Circuit
pub mod Request
pub mod Expectations
pub mod Response
pub mod External
pub mod Provider
pub mod Mock
pub mod Envelope
pub mod Core
pub mod Verification
pub mod Witness
pub mod Artifacts
pub mod Examples
pub mod Machine
pub mod Noir
pub mod Tool
pub mod UltraHonk
pub mod Vectors
