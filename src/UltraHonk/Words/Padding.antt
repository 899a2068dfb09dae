-- ===== src/UltraHonk/Words/Padding.antt =====
-- Words that are padded to 32 bytes, as bytes and as field values.
use crucible_prover.Base.{
  ℕ, suc, trim_start_matches, replicate, ap, is_empty, if◌then◌else◌, zero, ◌-◌, ◌≤◌, Bool, true,
  false, [], ◌∷◌, ◌++◌, some, Text, Bytes, ok, nat_eq, text_eq, if◌then◌else◌, is_empty, all, All,
  length, replicate, map, is_ascii_hexdigit, to_ascii_lowercase, ◌≡◌, refl, ap, ◌∙◌, arith, zero,
  length-append, length-replicate, length-map, all-append, trim_start_matches,
}
use crucible_prover.External.{Hex, IsByte}
use crucible_prover.Field.{FieldValue, from_hex, strip_0x, canonical}
use crucible_prover.Field.Canonical.{
  trim_minimal, IsCanonical, IsHex, is_lower_hexdigit, lower_hexdigits, strip_0x_digits,
  from_hex_accepts, len_hex,
}
use crucible_prover.UltraHonk.Words.{pad_64, word_bytes}

pub length-pad_64 : (s : Text) → length s ≤ 64 → length (pad_64 s) ≡ 64
unfolding pad_64
length-pad_64 s h = omega (
  arith,
  length-append (replicate (64 - length s) b'0') s,
  length-replicate {A = ℕ} (64 - length s) b'0',
)

all-replicate : (p : ℕ → Bool) (n c : ℕ) → p c ≡ true → all p (replicate n c) ≡ true
all-replicate p zero c h = refl
all-replicate p (suc n) c h = ground (arith, all-replicate p n c)

all-pad_64 : (p : ℕ → Bool) (s : Text) → p b'0' ≡ true → all p s ≡ true → all p (pad_64 s) ≡ true
unfolding pad_64
all-pad_64 p s z h =
    all-append p (replicate (64 - length s) b'0') s
    ∙ ground (arith, all-replicate p (64 - length s) b'0' z)

-- What a word of at most 64 digits of either case is read as.
pub record IsWord (x : Hex) (hex : Text) (b : Bytes) : Type 0 where
  pub bytes : All IsByte b
  pub width : length b ≡ 32
  pub digits : x.encode b ≡ map to_ascii_lowercase (pad_64 hex)

module _ (x : Hex) where
  pub decode-pad_64 :
      (hex : Text)
      → length hex ≤ 64
      → all is_ascii_hexdigit hex ≡ true
      → (b : Bytes) × (x.decode (pad_64 hex) ≡ some b) × IsWord x hex b
  decode-pad_64 hex l h =
      let (b, e, bytes, back) =
        x.decode_hexdigits 32 (pad_64 hex) (length-pad_64 hex l)
          (all-pad_64 is_ascii_hexdigit hex (unfold is_ascii_hexdigit in refl) h) in
      (
        b,
        e,
        record {
          bytes = bytes;
          width = omega (
            arith,
            x.length-encode b,
            ap length back,
            length-map to_ascii_lowercase (pad_64 hex),
            length-pad_64 hex l,
          );
          digits = back;
        },
      )

  pub accepted_word :
      (word : Text) (b : Bytes)
      → IsHex (strip_0x word)
      → x.decode (pad_64 (strip_0x word)) ≡ some b
      → length b ≡ 32
      → word_bytes x word ≡ ok b
  unfolding word_bytes
  accepted_word word b i e l =
      rw e
        (ground (arith, i.nonempty, i.short, i.hexdigits, len_hex (strip_0x word) i.hexdigits, l))

  pub word_bytes_accepts :
      (word : Text)
      → IsHex (strip_0x word)
      → (b : Bytes) × (word_bytes x word ≡ ok b) × IsWord x (strip_0x word) b
  word_bytes_accepts word i =
      let (b, e, w) = decode-pad_64 (strip_0x word) i.short i.hexdigits in
      (b, accepted_word word b i e w.width, w)

pub pad_64_full : (s : Text) → length s ≡ 64 → pad_64 s ≡ s
unfolding pad_64
pad_64_full s h = rw h refl

trim_zeros :
    (n : ℕ) (s : Text) → trim_start_matches b'0' (replicate n b'0' ++ s) ≡ trim_start_matches b'0' s
unfolding trim_start_matches
trim_zeros zero s = refl
trim_zeros (suc n) s = ground (arith, trim_zeros n s)

-- The digits of a value, padded: still lowercase, and the same value.
lower_pad_64 :
    (v : FieldValue) → IsCanonical v → map to_ascii_lowercase (pad_64 v.hex) ≡ pad_64 v.hex
lower_pad_64 v c =
    (lower_hexdigits (pad_64 v.hex) (all-pad_64 is_lower_hexdigit v.hex refl c.digits)).1

canonical-pad_64 : (v : FieldValue) → IsCanonical v → canonical (pad_64 v.hex) ≡ v.hex
unfolding canonical
canonical-pad_64 v c =
    rw (lower_pad_64 v c)
      (unfold pad_64 in rw (trim_zeros (64 - length v.hex) v.hex) (canonical-trimmed v c))
  where
    canonical-trimmed :
        (v : FieldValue)
        → IsCanonical v
        → (if is_empty (trim_start_matches b'0' v.hex)
            then b'0' ∷ []
            else trim_start_matches b'0' v.hex)
          ≡ v.hex
    canonical-trimmed v c = trim_minimal v.hex c.minimal

-- The hexadecimal of the bytes that a canonical value is written as is read as that value.
pub from_hex-padded :
    (x : Hex) (v : FieldValue) (b : Bytes)
    → IsCanonical v
    → x.encode b ≡ map to_ascii_lowercase (pad_64 v.hex)
    → from_hex (x.encode b) ≡ ok v
from_hex-padded x v b c e =
    let same = e ∙ lower_pad_64 v c in
    let digits = all-pad_64 is_lower_hexdigit v.hex refl c.digits in
    rw same (
      from_hex_accepts (pad_64 v.hex) (
        rw (strip_0x_digits (pad_64 v.hex) digits) (record {
          nonempty = nonempty_64 (pad_64 v.hex) (length-pad_64 v.hex c.bounded);
          short = omega (arith, length-pad_64 v.hex c.bounded);
          hexdigits = (lower_hexdigits (pad_64 v.hex) digits).0;
        }))
      ∙ rw (strip_0x_digits (pad_64 v.hex) digits, canonical-pad_64 v c) refl)
  where
    nonempty_64 : (s : Text) → length s ≡ 64 → is_empty s ≡ false
    nonempty_64 [] h = ground arith
    nonempty_64 (c ∷ s) h = refl
