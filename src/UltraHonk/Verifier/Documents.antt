-- ===== src/UltraHonk/Verifier/Documents.antt =====
-- The documents that the verifier rebuilds.
use crucible_prover.Base.{◌%◌, ◌/◌, Bytes, ok, length, All, ◌≡◌, arith}
use crucible_prover.External.{Hex, IsByte}
use crucible_prover.UltraHonk.Verifier.{proof_document}
use crucible_prover.UltraHonk.Words.{VkDocument, proof_bytes}
use crucible_prover.UltraHonk.Words.Blob.{concat_words-blob_words}

-- The bytes of a proof of whole words are the bytes that the rebuilt `proof.json` stands for,
-- whatever the key is.
pub proof_bytes-proof_document :
    (x : Hex) (b : Bytes) (vk : VkDocument)
    → length b % 32 ≡ 0
    → All IsByte b
    → proof_bytes x (proof_document x b vk) ≡ ok b
unfolding proof_bytes proof_document
proof_bytes-proof_document x b vk w h =
    concat_words-blob_words x (length b / 32) b (omega (arith, w)) h
