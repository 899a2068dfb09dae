-- ===== src/UltraHonk/Calldata/RoundTrip.antt =====
-- Call data that is decoded again.
use crucible_prover.Base.{
  ℕ, suc, ◌+◌, ◌*◌, ◌/◌, ◌%◌, ◌<◌, List, [], ◌∷◌, ◌++◌, Text, Bytes, ok, length, length-append,
  take, drop, All, ◌≡◌, refl, ap, sym, ◌∙◌, arith, take-append, drop-append, nat_eq, ==_refl,
}
use crucible_prover.External.{Hex}
use crucible_prover.Field.{FieldError, FieldValue, from_hex}
use crucible_prover.Field.Canonical.{IsCanonical, IsCanonical-IsHex, len_hex}
use crucible_prover.UltraHonk.Words.{chunks_of}
use crucible_prover.UltraHonk.Words.Padding.{decode-pad_64, from_hex-padded}
use crucible_prover.UltraHonk.Calldata.{
  PublicInput, calldata_version, u32_le_bytes, u32_from_le_bytes, input_name, encode_field,
  encode_fields, encode_inputs, decode_chunks, decode_payload, decode_inputs,
}

-- The inputs under the names that their positions give them.
unfoldable pub positional : ℕ → List PublicInput → List PublicInput
positional index [] = []
positional index (input ∷ inputs) =
    record { name = input_name index; value = input.value } ∷ positional (suc index) inputs

abbrev pub HasCanonical : PublicInput → Type 0
HasCanonical input = IsCanonical input.value

u32_round_trip :
    (n : ℕ)
    → n < 4294967296
    → u32_from_le_bytes (n % 256) (n / 256 % 256) (n / 65536 % 256) (n / 16777216 % 256) ≡ n
unfolding u32_from_le_bytes
u32_round_trip n h = omega (arith, h)

-- What the encoded inputs are: as many words as inputs, read as the inputs.
record Encoded (x : Hex) (reason : FieldError → Text) (index : ℕ) (inputs : List PublicInput)
    (b : Bytes) : Type 0 where
  encoded : encode_fields x inputs ≡ ok b
  width : length b ≡ length inputs * 32
  decoded :
      decode_chunks x reason index (chunks_of (length inputs) b) ≡ ok (positional index inputs)

module _ (x : Hex) where
  -- A canonical value is encoded as the 32 bytes of its padded digits, which are read as the value.
  encode_field_canonical :
      (v : FieldValue) (name : Text)
      → IsCanonical v
      → (b : Bytes) × (encode_field x v name ≡ ok b)
        × (length b ≡ 32)
        × (from_hex (x.encode b) ≡ ok v)
  encode_field_canonical v name c =
      let i = IsCanonical-IsHex v c in
      let (b, e, w) = decode-pad_64 x v.hex i.short i.hexdigits in
      (
        b,
        unfold encode_field in rw e (ground (arith, i.short, len_hex v.hex i.hexdigits, w.width)),
        w.width,
        from_hex-padded x v b c w.digits,
      )

  encode_fields_canonical :
      (reason : FieldError → Text) (index : ℕ) (inputs : List PublicInput)
      → All HasCanonical inputs
      → (b : Bytes) × Encoded x reason index inputs b
  unfolding encode_fields decode_chunks positional chunks_of
  encode_fields_canonical reason index [] h =
      ([], record { encoded = refl; width = refl; decoded = refl })
  encode_fields_canonical reason index (i ∷ inputs) (c, h) =
      let (b, e, l, r) = encode_field_canonical i.value i.name c in
      let (rest, s) = encode_fields_canonical reason (suc index) inputs h in
      (
        b ++ rest,
        record {
          encoded = rw (e, s.encoded) refl;
          width = omega (arith, length-append b rest, l, s.width);
          decoded =
              rw
                (
                  ap (λ n. take n (b ++ rest)) (sym l) ∙ take-append b rest,
                  ap (λ n. drop n (b ++ rest)) (sym l) ∙ drop-append b rest,
                  r,
                  s.decoded,
                )
                refl;
        },
      )

  -- Inputs of canonical values, fewer than 2^32, are encoded, in 5 bytes and 32 for each input, and
  -- the bytes are decoded to the version 1 and the values in their order, under positional names.
  pub decode_inputs-encode_inputs :
      (reason : FieldError → Text) (inputs : List PublicInput)
      → All HasCanonical inputs
      → length inputs < 4294967296
      → (b : Bytes) × (encode_inputs x inputs ≡ ok b)
        × (length b ≡ 5 + 32 * length inputs)
        × (decode_inputs x reason b
            ≡ ok (record { version = calldata_version; inputs = positional 0 inputs }))
  unfolding decode_inputs decode_payload
  decode_inputs-encode_inputs reason inputs h k =
      let (b, s) = encode_fields_canonical reason 0 inputs h in
      let n = length inputs in
      let small : n % 4294967296 ≡ n = omega (arith, k) in
      let count : n * 32 / 32 ≡ n = omega arith in
      (
        calldata_version ∷ (u32_le_bytes n ++ b),
        unfold encode_inputs in rw s.encoded refl,
        unfold u32_le_bytes in omega (arith, s.width),
        unfold u32_le_bytes in
            rw (small, u32_round_trip n k, s.width, ==_refl (n * 32), count, s.decoded) refl,
      )
