-- ===== src/Examples/Crates.antt =====
-- Small implementations of what the examples take from third-party crates. They show that what is
-- asked of those crates can be had; they are not the crates' algorithms.
use crucible_prover.Base.{
  ℕ, ◌+◌, ◌-◌, ◌*◌, ◌/◌, ◌%◌, ◌<◌, true, [], ◌∷◌, Option, none, some, Text, Bytes, ◌≡◌, refl, ap,
  arith, length, all, All, replicate, length-replicate, ltb, if◌then◌else◌, map, is_ascii_hexdigit,
  to_ascii_lowercase, ◌∙◌,
}
use crucible_prover.External.{Sha256, Hex, IsByte}
use crucible_prover.Field.Canonical.{is_lower_hexdigit}

unfoldable pub sum : Bytes → ℕ
sum [] = 0
sum (b ∷ bs) = b + sum bs

abbrev pub sum_sha : Sha256
sum_sha = record {
  digest = λ b. replicate 32 (sum b % 256);
  length-digest = λ b. length-replicate 32 (sum b % 256);
}

abbrev digit_char : ℕ → ℕ
digit_char n = if ltb n 10 then 48 + n else 87 + n

abbrev char_digit : ℕ → ℕ
char_digit c = if ltb c 58 then c - 48 else if ltb c 71 then c - 55 else c - 87

unfoldable pub encode : Bytes → Text
encode [] = []
encode (b ∷ bs) = digit_char (b / 16 % 16) ∷ digit_char (b % 16) ∷ encode bs

decode_onto : Option Bytes → ℕ → Option Bytes
decode_onto none b = none
decode_onto (some bs) b = some (b ∷ bs)

unfoldable pub decode : Text → Option Bytes
unfolding decode_onto
decode [] = some []
decode (c ∷ []) = none
decode (c ∷ d ∷ s) = decode_onto (decode s) (char_digit c * 16 + char_digit d)

char_digit-digit_char : (n : ℕ) → n < 16 → char_digit (digit_char n) ≡ n
char_digit-digit_char n h = ground arith

digit_char_hexdigit : (n : ℕ) → n < 16 → is_lower_hexdigit (digit_char n) ≡ true
digit_char_hexdigit n h = ground arith

pub length-encode : (b : Bytes) → length (encode b) ≡ 2 * length b
unfolding encode
length-encode [] = omega arith
length-encode (b ∷ bs) = omega (arith, length-encode bs)

pub encode_digits : (b : Bytes) → all is_lower_hexdigit (encode b) ≡ true
unfolding encode
encode_digits [] = refl
encode_digits (b ∷ bs) =
    rw (digit_char_hexdigit (b / 16 % 16) (omega arith), digit_char_hexdigit (b % 16) (omega arith))
      (encode_digits bs)

pub decode-encode : (b : Bytes) → All IsByte b → decode (encode b) ≡ some b
unfolding encode decode
decode-encode [] h = refl
decode-encode (b ∷ bs) h =
    rw
      (
        char_digit-digit_char (b / 16 % 16) (omega arith),
        char_digit-digit_char (b % 16) (omega arith),
        decode-encode bs h.1,
      )
      (ap (λ n. some (n ∷ bs)) (omega (arith, h.0)))

digit_char-char_digit :
    (c : ℕ)
    → is_ascii_hexdigit c ≡ true
    → (char_digit c < 16) × (digit_char (char_digit c) ≡ to_ascii_lowercase c)
unfolding is_ascii_hexdigit to_ascii_lowercase
digit_char-char_digit c h = ground arith

encode_pair :
    (h l : ℕ) (bs : Bytes)
    → h < 16
    → l < 16
    → encode ((h * 16 + l) ∷ bs) ≡ digit_char h ∷ digit_char l ∷ encode bs
unfolding encode
encode_pair h l bs p q =
    let high : (h * 16 + l) / 16 % 16 ≡ h = omega arith in
    let low : (h * 16 + l) % 16 ≡ l = omega arith in rw (high, low) refl

pub decode_hexdigits :
    (n : ℕ) (s : Text)
    → length s ≡ 2 * n
    → all is_ascii_hexdigit s ≡ true
    → (b : Bytes) × (decode s ≡ some b) × All IsByte b × (encode b ≡ map to_ascii_lowercase s)
unfolding decode
decode_hexdigits n [] l h = ([], refl, tt, unfold encode in refl)
decode_hexdigits n (c ∷ []) l h = absurd (omega (arith, l))
decode_hexdigits n (c ∷ d ∷ s) l h =
    let high = digit_char-char_digit c (ground arith) in
    let low = digit_char-char_digit d (ground arith) in
    let (bs, e, bytes, back) = decode_hexdigits (n - 1) s (omega (arith, l)) (ground arith) in
    (
      (char_digit c * 16 + char_digit d) ∷ bs,
      rw e refl,
      (omega (arith, high.0, low.0), bytes),
      encode_pair (char_digit c) (char_digit d) bs high.0 low.0 ∙ rw (high.1, low.1, back) refl,
    )

abbrev pub plain_hex : Hex
plain_hex = record {
  encode = encode;
  decode = decode;
  length-encode = length-encode;
  encode_digits = encode_digits;
  decode-encode = decode-encode;
  decode_hexdigits = decode_hexdigits;
}
