-- ===== src/External.antt =====
-- The third-party crates that the code calls: what it relies on, as records of operations and laws.
use crucible_prover.Base.{
  ℕ, ◌*◌, ◌<◌, true, Option, some, Text, Bytes, ◌≡◌, length, all, All, map, is_ascii_hexdigit,
  to_ascii_lowercase,
}
use crucible_prover.Field.Canonical.{is_lower_hexdigit}

-- `sha2::Sha256`: a digest is 32 bytes.
pub record Sha256 : Type 0 where
  pub digest : Bytes → Bytes
  pub length-digest : (b : Bytes) → length (digest b) ≡ 32

abbrev pub IsByte : ℕ → Type 0
IsByte b = b < 256

-- `hex::encode` and `hex::decode`: two lowercase digits for each byte, and back. Every even number
-- of digits of either case is decoded.
pub record Hex : Type 0 where
  pub encode : Bytes → Text
  pub decode : Text → Option Bytes
  pub length-encode : (b : Bytes) → length (encode b) ≡ 2 * length b
  pub encode_digits : (b : Bytes) → all is_lower_hexdigit (encode b) ≡ true
  pub decode-encode : (b : Bytes) → All IsByte b → decode (encode b) ≡ some b
  pub decode_hexdigits :
      (n : ℕ) (s : Text)
      → length s ≡ 2 * n
      → all is_ascii_hexdigit s ≡ true
      → (b : Bytes) × (decode s ≡ some b) × All IsByte b × (encode b ≡ map to_ascii_lowercase s)
