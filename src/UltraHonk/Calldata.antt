-- ===== src/UltraHonk/Calldata.antt =====
-- Public inputs as call data: crates/ultrahonk/src/calldata.rs.
pub mod RoundTrip
use crucible_prover.Base.{
  ℕ, suc, ◌+◌, ◌*◌, ◌/◌, ◌%◌, List, [], ◌∷◌, ◌++◌, map, Option, none, some, Text, Bytes, codes, len,
  Result, ok, err, panicked, map_err, ltb, ◌==◌, nat_eq, not, if◌then◌else◌, length, ◌>>=◌,
  show_u32,
}
use crucible_prover.Bag.{OutputBag}
use crucible_prover.External.{Hex}
use crucible_prover.Field.{FieldError, FieldValue, from_hex}
use crucible_prover.UltraHonk.{UltraHonkError, encode, truncated}
use crucible_prover.UltraHonk.Words.{pad_64, whole_word, chunks_of}

abbrev pub field_width : ℕ
field_width = 32

abbrev pub calldata_version : ℕ
calldata_version = 1

pub record PublicInput : Type 0 where
  pub name : Text
  pub value : FieldValue

pub record DecodedCalldata : Type 0 where
  pub version : ℕ
  pub inputs : List PublicInput

-- `(n as u32).to_le_bytes()`
unfoldable pub u32_le_bytes : ℕ → Bytes
u32_le_bytes n =
    let m = n % 4294967296 in m % 256 ∷ m / 256 % 256 ∷ m / 65536 % 256 ∷ m / 16777216 % 256 ∷ []

-- `u32::from_le_bytes`
unfoldable pub u32_from_le_bytes : ℕ → ℕ → ℕ → ℕ → ℕ
u32_from_le_bytes a b c d = a + (256 * b + (65536 * c + 16777216 * d))

-- `format!("input[{index}]")`
unfoldable pub input_name : ℕ → Text
input_name index = codes "input[" ++ (show_u32 index ++ codes "]")

module _ (x : Hex) where
  unfoldable pub encode_field : FieldValue → Text → Result UltraHonkError Bytes
  encode_field value name =
      if ltb 64 (len value.hex)
      then err (encode name (codes "value exceeds 32 bytes"))
      else whole_word (x.decode (pad_64 value.hex))

  unfoldable pub encode_fields : List PublicInput → Result UltraHonkError Bytes
  encode_fields [] = ok []
  encode_fields (input ∷ inputs) = do
    bytes ← encode_field input.value input.name
    rest ← encode_fields inputs
    ok (bytes ++ rest)

  -- `CalldataEncoder::encode`
  unfoldable pub encode_inputs : List PublicInput → Result UltraHonkError Bytes
  encode_inputs inputs = do
    payload ← encode_fields inputs
    ok (calldata_version ∷ (u32_le_bytes (length inputs) ++ payload))

  -- `CalldataEncoder::encode_bag`
  unfoldable pub encode_bag : OutputBag → Result UltraHonkError Bytes
  encode_bag bag = encode_inputs (map (λ e. record { name = e.0; value = e.1 }) bag.entries)

  -- The loop of `decode`, from the chunk at `index`. `reason` is the text of a field error.
  unfoldable pub decode_chunks :
      (FieldError → Text) → ℕ → List Bytes → Result UltraHonkError (List PublicInput)
  decode_chunks reason index [] = ok []
  decode_chunks reason index (chunk ∷ chunks) = do
    value ← map_err (λ e. encode (input_name index) (reason e)) (from_hex (x.encode chunk))
    rest ← decode_chunks reason (suc index) chunks
    ok (record { name = input_name index; value = value } ∷ rest)

  unfoldable pub decode_payload :
      (FieldError → Text) → ℕ → ℕ → Bytes → Result UltraHonkError DecodedCalldata
  decode_payload reason version count payload =
      if not (length payload == count * field_width)
      then err (truncated (count * field_width) (length payload))
      else do
        inputs ← decode_chunks reason 0 (chunks_of (length payload / field_width) payload)
        ok (record { version = version; inputs = inputs })

  -- `CalldataEncoder::decode`
  unfoldable pub decode_inputs : (FieldError → Text) → Bytes → Result UltraHonkError DecodedCalldata
  decode_inputs reason (version ∷ a ∷ b ∷ c ∷ d ∷ payload) =
      decode_payload reason version (u32_from_le_bytes a b c d) payload
  decode_inputs reason _ = err (truncated 0 0)
