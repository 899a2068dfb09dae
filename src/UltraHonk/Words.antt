-- ===== src/UltraHonk/Words.antt =====
-- Field words: the documents of crates/ultrahonk/src/exec.rs and how their words are read.
pub mod Padding
pub mod Blob
pub mod Rebuilt
use crucible_prover.Base.{
  ℕ, zero, suc, ◌+◌, ◌-◌, ◌*◌, ◌/◌, Bool, true, false, not, ◌||◌, List, [], ◌∷◌, ◌++◌, Option, none,
  some, Text, Bytes, codes, len, Result, ok, err, panicked, ltb, ◌==◌, nat_eq, text_eq,
  if◌then◌else◌, is_empty, all, length, replicate, take, drop, map, is_ascii_hexdigit, ◌>>=◌,
}
use crucible_prover.External.{Hex}
use crucible_prover.Field.{strip_0x}
use crucible_prover.UltraHonk.{UltraHonkError, malformed_artifact, inconsistent_artifacts}
use crucible_prover.Witness.Toml.{trim}

abbrev pub scheme_ultra_honk : Text
scheme_ultra_honk = codes "ultra_honk"

-- `proof.json`
pub record ProofDocument : Type 0 where
  pub proof : List Text
  pub vk_hash : Text
  pub bb_version : Text
  pub scheme : Text

-- `public_inputs.json`
pub record PublicInputsDocument : Type 0 where
  pub public_inputs : List Text
  pub bb_version : Text
  pub scheme : Text

-- `vk.json`
pub record VkDocument : Type 0 where
  pub vk : List Text
  pub hash : Text
  pub bb_version : Text
  pub scheme : Text

abbrev pub word_width : ℕ
word_width = 32

-- `{:0>64}`
unfoldable pub pad_64 : Text → Text
pad_64 s = replicate (64 - length s) b'0' ++ s

-- `copy_from_slice` into 32 bytes, after `expect`.
abbrev pub whole_word : {E : Type 0} → Option Bytes → Result E Bytes
whole_word none = panicked
whole_word (some b) = if length b == word_width then ok b else panicked

-- The first `n` chunks of 32 bytes; the last may be shorter.
unfoldable pub chunks_of : ℕ → Bytes → List Bytes
chunks_of zero b = []
chunks_of (suc n) b = take word_width b ∷ chunks_of n (drop word_width b)

-- `validate_provenance`
unfoldable pub validate_provenance : Text → Text → Text → Result UltraHonkError (Unit {0})
validate_provenance what scheme bb_version =
    if not (scheme == scheme_ultra_honk)
    then err (
        inconsistent_artifacts
          (what ++ (codes " declares scheme `" ++ (scheme ++ codes "`, expected `ultra_honk`"))))
    else if is_empty (trim bb_version)
    then err (malformed_artifact (codes "<document>") (what ++ codes " carries no bb_version"))
    else ok tt

module _ (x : Hex) where
  unfoldable pub word_bytes : Text → Result UltraHonkError Bytes
  word_bytes word =
      let hex = strip_0x word in
      if is_empty hex || (ltb 64 (len hex) || not (all is_ascii_hexdigit hex))
      then err (
          malformed_artifact (codes "<field word>")
            (codes "word `" ++ (word ++ codes "` is not 0x-prefixed hex of at most 32 bytes")))
      else whole_word (x.decode (pad_64 hex))

  unfoldable pub concat_words : List Text → Result UltraHonkError Bytes
  concat_words [] = ok []
  concat_words (word ∷ words) = do
    bytes ← word_bytes word
    rest ← concat_words words
    ok (bytes ++ rest)

  unfoldable pub digest_bytes : Text → Result UltraHonkError Bytes
  digest_bytes hex =
      let bare = strip_0x hex in
      if not (len bare == 64) || not (all is_ascii_hexdigit bare)
      then err (
          malformed_artifact (codes "<digest>")
            (codes "digest `" ++ (hex ++ codes "` is not exactly 32 bytes of hex")))
      else word_bytes hex

  unfoldable pub proof_bytes : ProofDocument → Result UltraHonkError Bytes
  proof_bytes doc = concat_words doc.proof

  unfoldable pub vk_hash_bytes : ProofDocument → Result UltraHonkError Bytes
  vk_hash_bytes doc = digest_bytes doc.vk_hash

  unfoldable pub vk_hash_hex : ProofDocument → Result UltraHonkError Text
  vk_hash_hex doc = do bytes ← vk_hash_bytes doc; ok (x.encode bytes)

  unfoldable pub inputs_bytes : PublicInputsDocument → Result UltraHonkError Bytes
  inputs_bytes doc = concat_words doc.public_inputs

  unfoldable pub vk_bytes : VkDocument → Result UltraHonkError Bytes
  vk_bytes doc = concat_words doc.vk

  unfoldable pub hash_bytes : VkDocument → Result UltraHonkError Bytes
  hash_bytes doc = digest_bytes doc.hash

  -- The words of `write_proof_json`.
  unfoldable pub blob_words : Bytes → List Text
  blob_words bytes =
      map (λ chunk. codes "0x" ++ x.encode chunk)
        (chunks_of ((length bytes + 31) / word_width) bytes)
