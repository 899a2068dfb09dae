-- ===== src/UltraHonk/KeyId.antt =====
-- Verification key ids read back.
use crucible_prover.Base.{
  ℕ, Bool, true, not, [], ◌∷◌, ◌++◌, Text, ok, ◌==◌, nat_eq, text_eq, ==_refl, ◌≡◌, refl, ap, ◌∙◌,
  arith, all, all_mono, all-append, length, split, split_part, is_ascii_digit,
  is_ascii_alphanumeric, show_u32, show_u32-digits,
}
use crucible_prover.Circuit.{CircuitId, circuit_id, is_id_char, Version, show_version}
use crucible_prover.Circuit.VersionText.{FitsU32, parse-show_version}
use crucible_prover.Field.Canonical.{is_lower_hexdigit, lower_hexdigits, strip_0x_digits, len_hex}
use crucible_prover.Response.{ArtifactChecksum, checksum_from_hex}
use crucible_prover.UltraHonk.{vk_scheme, id_for, parse_parts, parse}

-- 64 lowercase hexadecimal digits, as `from_hex` and `from_bytes` make them.
pub record IsSha256 (c : ArtifactChecksum) : Type 0 where
  pub whole : length c.hex ≡ 64
  pub digits : all is_lower_hexdigit c.hex ≡ true

read_checksum : (c : ArtifactChecksum) → IsSha256 c → checksum_from_hex c.hex ≡ ok c
unfolding checksum_from_hex
read_checksum c h =
    let (digits, lower) = lower_hexdigits c.hex h.digits in
    rw (strip_0x_digits c.hex h.digits, lower)
      (ground (arith, len_hex c.hex digits, h.whole, digits))

-- A character that is no separator.
no_slash : ℕ → Bool
no_slash c = not (c == b'/')

id_no_slash : (id : Text) {c : CircuitId} → circuit_id id ≡ ok c → all no_slash id ≡ true
id_no_slash id {c} h =
    all_mono is_id_char no_slash id
      (λ c k. unfold is_id_char is_ascii_alphanumeric no_slash in ground arith)
      (unfold circuit_id in ground arith)

digits_no_slash : (n : ℕ) → all no_slash (show_u32 n) ≡ true
digits_no_slash n =
    all_mono is_ascii_digit no_slash (show_u32 n)
      (λ c k. unfold is_ascii_digit no_slash in ground arith) (show_u32-digits n)

version_no_slash : (v : Version) → all no_slash (show_version v) ≡ true
unfolding show_version
version_no_slash v =
    rw
      (
        all-append no_slash (show_u32 v.major)
            (b'.' ∷ (show_u32 v.minor ++ b'.' ∷ show_u32 v.patch)),
        all-append no_slash (show_u32 v.minor) (b'.' ∷ show_u32 v.patch),
        digits_no_slash v.major,
        digits_no_slash v.minor,
        digits_no_slash v.patch,
      )
      (unfold no_slash in ground arith)

hash_no_slash : (c : ArtifactChecksum) → IsSha256 c → all no_slash c.hex ≡ true
hash_no_slash c h =
    all_mono is_lower_hexdigit no_slash c.hex (λ c k. unfold no_slash in ground arith) h.digits

split-id_for :
    (c : CircuitId) (v : Version) (h : ArtifactChecksum)
    → circuit_id c.id ≡ ok c
    → IsSha256 h
    → split b'/' (id_for c v h) ≡ vk_scheme ∷ c.id ∷ show_version v ∷ h.hex ∷ []
unfolding id_for
split-id_for c v h valid sha =
    (split_part b'/' vk_scheme _ (ground arith)).1
    ∙ ap (◌∷◌ vk_scheme) (
        (split_part b'/' c.id _ (unfold no_slash in id_no_slash c.id {c = c} valid)).1
        ∙ ap (◌∷◌ c.id) (
            (split_part b'/' (show_version v) _ (unfold no_slash in version_no_slash v)).1
            ∙ ap (◌∷◌ (show_version v))
                (split_part b'/' h.hex [] (unfold no_slash in hash_no_slash h sha)).0))

-- The verification key id of a valid circuit, a 32-bit version and an artifact's digest is parsed
-- back into those three.
pub parse-id_for :
    (c : CircuitId) (v : Version) (h : ArtifactChecksum)
    → circuit_id c.id ≡ ok c
    → FitsU32 v
    → IsSha256 h
    → parse (id_for c v h) ≡ ok (c, v, h)
unfolding parse parse_parts
parse-id_for c v h valid fits sha =
    rw
      (
        split-id_for c v h valid sha,
        ==_refl vk_scheme,
        valid,
        parse-show_version v fits,
        read_checksum h sha,
      )
      refl
