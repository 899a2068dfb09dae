-- ===== src/Mock/KeyId.antt =====
-- The key id of the mock: when its construction unwinds.
use crucible_prover.Base.{
  ◌+◌, ◌<◌, false, ◌∷◌, ok, panicked, ◌≡◌, ◌↔◌, refl, len, len-append, is_empty, arith,
}
use crucible_prover.Circuit.{CircuitId, Version, show_version}
use crucible_prover.Mock.{
  Crates, Mock, generate, key_id_text, verification_key_id_for, mock_backend,
}
use crucible_prover.Provider.{ProviderError}
use crucible_prover.Request.{ProofRequest, validate}
use crucible_prover.Response.{verification_key_id}

pub len-key_id_text :
    (c : CircuitId) (v : Version) → len (key_id_text c v) ≡ 9 + len c.id + len (show_version v)
unfolding key_id_text len
len-key_id_text c v = omega (arith, len-append c.id (b'/' ∷ show_version v))

pub key_id_text-nonempty : (c : CircuitId) (v : Version) → is_empty (key_id_text c v) ≡ false
unfolding key_id_text
key_id_text-nonempty c v = refl

key_id_panics :
    {E : Type 0} (c : CircuitId) (v : Version)
    → (verification_key_id_for {E = E} c v ≡ panicked) ↔ (119 < len c.id + len (show_version v))
unfolding verification_key_id_for verification_key_id
key_id_panics c v = ground (arith, len-key_id_text c v, key_id_text-nonempty c v)

-- On a valid request for its own backend the mock prover unwinds exactly when the texts of the
-- circuit id and of the version have more than 119 bytes together, which a valid circuit id of up
-- to 128 bytes can reach.
pub generate_panics_iff :
    (x : Crates) (m : Mock) (r : ProofRequest)
    → validate r ≡ ok tt
    → r.backend ≡ mock_backend
    → (generate x m r ≡ panicked) ↔ (119 < len r.circuit.id + len (show_version r.circuit_version))
unfolding generate
generate_panics_iff x m r h b =
    ground (arith, key_id_panics {E = ProviderError} r.circuit r.circuit_version)
