-- ===== src/Mock/Binding.antt =====
-- A mock proof binds its context: who accepts it, and for what.
use crucible_prover.Base.{
  ◌+◌, ◌-◌, [], ◌∷◌, ◌++◌, none, some, Bytes, ok, ◌≡◌, ◌≢◌, ◌↔◌, inl, inr, refl, sym, ap, ◌∙◌,
  length, take, drop, length-append, take-append, drop-append, arith, text_eq, as_bytes, Result,
  Option-cases, take-append-drop,
}
use crucible_prover.Mock.{
  Crates, Mock, MockEnvelope, IsSerializable, envelope_of, envelope_from_bytes, digest,
  build_proof_bytes, respond, generate, mock_backend, domain,
}
use crucible_prover.Mock.Context.{Agrees, compare_context_iff}
use crucible_prover.Mock.Verify.{verify, verify_digest, verify_envelope, compare_context}
use crucible_prover.Request.{ProofRequest, validate, mock_id}
use crucible_prover.Response.{
  ProofResponse, VerificationRequest, accepted, rejected, invalid_proof, mock_format,
}

-- The request claims the whole context of the response.
pub record Claims (resp : ProofResponse) (q : VerificationRequest) : Type 0 where
  pub backend : q.backend ≡ resp.backend
  pub circuit : q.circuit ≡ resp.circuit
  pub version : q.circuit_version ≡ resp.circuit_version
  pub key : q.verification_key_id ≡ resp.verification_key_id
  pub checksum : q.artifact_checksum ≡ resp.artifact_checksum
  pub outputs : q.public_outputs ≡ resp.public_outputs
  pub state : q.state_reference ≡ resp.state_reference

abbrev pub envelope : ProofRequest → ProofResponse → MockEnvelope
envelope r resp = envelope_of r resp.verification_key_id resp.artifact_checksum

ok_injective : {E A : Type 0} {a b : A} → ◌≡◌ {A = Result E A} (ok a) (ok b) → a ≡ b
ok_injective h = cc

rejects_none : (q : VerificationRequest) → verify_envelope none q ≡ accepted → ⊥
unfolding verify_envelope
rejects_none q h = ground arith

accepts_some :
    (e : MockEnvelope) (q : VerificationRequest)
    → verify_envelope (some e) q ≡ accepted
    → compare_context e q ≡ accepted
unfolding verify_envelope
accepts_some e q h = h

module _ (x : Crates) where
  -- What `generate` returns where it succeeds.
  pub generate_inv :
      (m : Mock) (r : ProofRequest) {resp : ProofResponse}
      → generate x m r ≡ ok resp
      → (validate r ≡ ok tt)
        × (r.backend ≡ mock_backend)
        × (resp ≡ respond x m r resp.verification_key_id)
  unfolding generate respond
  generate_inv m r {resp} h = ground arith

  length-payload :
      (m : Mock) (payload : Bytes) → length (payload ++ digest x m payload) ≡ length payload + 32
  unfolding digest
  length-payload m payload = omega (
    arith,
    length-append payload (x.sha.digest (domain ++ (payload ++ (as_bytes m.key ++ 0 ∷ [])))),
    x.sha.length-digest (domain ++ (payload ++ (as_bytes m.key ++ 0 ∷ []))),
  )

  cut_place :
      (m : Mock) (payload : Bytes) → length (payload ++ digest x m payload) - 32 ≡ length payload
  cut_place m payload = omega (arith, length-payload m payload)

  -- What the verifier does with the bytes that an honest prover with its key has written.
  verify_honest :
      (m : Mock) (e : MockEnvelope) (q : VerificationRequest)
      → q.proof.format.tag ≡ mock_format
      → q.backend.id ≡ mock_id
      → q.proof.bytes ≡ x.json.to_vec e ++ digest x m (x.json.to_vec e)
      → IsSerializable e
      → e.kind ≡ mock_format
      → verify x m q ≡ ok (compare_context e q)
  unfolding verify verify_digest verify_envelope envelope_from_bytes
  verify_honest m e q f b w s k =
      let payload = x.json.to_vec e in
      rw
        (
          w,
          cut_place m payload,
          take-append payload (digest x m payload),
          drop-append payload (digest x m payload),
        )
        (ground (arith, length-payload m payload, x.json.from_slice-to_vec e s))

  verify_routes :
      (m : Mock) (q : VerificationRequest)
      → verify x m q ≡ ok accepted
      → (q.proof.format.tag ≡ mock_format) × (q.backend.id ≡ mock_id)
  unfolding verify
  verify_routes m q h = ground arith

  respond_fields :
      (m : Mock) (r : ProofRequest) (resp : ProofResponse)
      → resp ≡ respond x m r resp.verification_key_id
      → (resp.circuit ≡ r.circuit)
        × (resp.circuit_version ≡ r.circuit_version)
        × (resp.backend ≡ mock_backend)
        × (resp.public_outputs ≡ r.public_inputs)
        × (resp.state_reference ≡ r.state_reference)
        × (resp.proof.format.tag ≡ mock_format)
        × (resp.proof.bytes
            ≡ x.json.to_vec (envelope r resp) ++ digest x m (x.json.to_vec (envelope r resp)))
  unfolding respond build_proof_bytes
  respond_fields m r resp e = ground arith

  Agrees-iff :
      (m : Mock) (r : ProofRequest) (resp : ProofResponse) (q : VerificationRequest)
      → r.backend ≡ mock_backend
      → resp ≡ respond x m r resp.verification_key_id
      → Agrees (envelope r resp) q ↔ Claims resp q
  unfolding envelope_of
  Agrees-iff m r resp q b e =
      let f = respond_fields m r resp e in (λ a. ground arith, λ c. ground arith)

  -- A proof that a mock prover has generated is accepted by the verifier with its key for a
  -- request exactly when the request claims the very circuit, version, backend, verification key,
  -- artifact, outputs and state of the response. So a change of any of them is rejected, and the
  -- response itself passes its own round trip.
  pub verify-generate_iff :
      (m : Mock) (r : ProofRequest) (resp : ProofResponse) (q : VerificationRequest)
      → generate x m r ≡ ok resp
      → IsSerializable (envelope r resp)
      → q.proof ≡ resp.proof
      → (verify x m q ≡ ok accepted) ↔ Claims resp q
  verify-generate_iff m r resp q g s p =
      let (_, b, e) = generate_inv m r {resp = resp} g in
      let f = respond_fields m r resp e in
      let honest : (q.backend.id ≡ mock_id)
          → verify x m q ≡ ok (compare_context (envelope r resp) q) =
        λ k.
          verify_honest m (envelope r resp) q (ground (arith, p)) k (ground (arith, p)) s
            (unfold envelope_of in refl) in
      let agree = Agrees-iff m r resp q b e in
      let compared = compare_context_iff (envelope r resp) q in
      (
        (λ h. agree.0 (compared.0 (ok_injective (sym (honest (verify_routes m q h).1) ∙ h)))),
        (λ c. honest (ground (arith, c.backend)) ∙ ap ok (compared.1 (agree.1 c))),
      )

  verify_inv :
      (m : Mock) (q : VerificationRequest)
      → verify x m q ≡ ok accepted
      → (drop (length q.proof.bytes - 32) q.proof.bytes
          ≡ digest x m (take (length q.proof.bytes - 32) q.proof.bytes))
        × (verify_envelope
              (envelope_from_bytes x (take (length q.proof.bytes - 32) q.proof.bytes))
              q
            ≡ accepted)
  unfolding verify verify_digest
  verify_inv m q h = ground arith

  -- A proof that a verifier accepts, whoever wrote it, is an envelope that agrees with the request
  -- in every field, followed by its digest under the verifier's key.
  pub verify_sound :
      (m : Mock) (q : VerificationRequest)
      → verify x m q ≡ ok accepted
      → (payload : Bytes) × (e : MockEnvelope) × (q.proof.bytes ≡ payload ++ digest x m payload)
        × (envelope_from_bytes x payload ≡ some e)
        × Agrees e q
  verify_sound m q h =
      let payload = take (length q.proof.bytes - 32) q.proof.bytes in
      let (same, passed) = verify_inv m q h in
      elim (Option-cases (envelope_from_bytes x payload)) [
        | inl e ↦ absurd (rejects_none q (rw e at passed))
        | inr (env, e) ↦ (
          payload,
          env,
          sym (take-append-drop (length q.proof.bytes - 32) q.proof.bytes) ∙ ap (◌++◌ payload) same,
          e,
          (compare_context_iff env q).0 (accepts_some env q (rw e at passed)),
        )
      ]

  -- A verifier under whose key the digest is another one rejects the proof as invalid, whatever
  -- the request claims.
  pub verify_wrong_key :
      (m n : Mock) (r : ProofRequest) (resp : ProofResponse) (q : VerificationRequest)
      → generate x m r ≡ ok resp
      → q.proof ≡ resp.proof
      → q.backend.id ≡ mock_id
      → digest x n (x.json.to_vec (envelope r resp)) ≢ digest x m (x.json.to_vec (envelope r resp))
      → verify x n q ≡ ok (rejected invalid_proof)
  unfolding verify verify_digest
  verify_wrong_key m n r resp q g p b d =
      let f = respond_fields m r resp (generate_inv m r {resp = resp} g).2 in
      let payload = x.json.to_vec (envelope r resp) in
      let written : q.proof.bytes ≡ payload ++ digest x m payload = ground (arith, p) in
      rw
        (
          written,
          cut_place m payload,
          take-append payload (digest x m payload),
          drop-append payload (digest x m payload),
        )
        (ground (arith, length-payload m payload, p))
