-- ===== src/Field/Canonical.antt =====
-- What `from_hex` returns: one spelling of every value, which it accepts again as it is.
use crucible_prover.Base.{
  ℕ, ◌≤◌, Bool, true, false, ◌||◌, [], ◌∷◌, ◌≡◌, ◌≢◌, refl, Text, len, ok, ltb, if◌then◌else◌,
  is_empty, all, length, length-map, strip_prefix, trim_start_matches, to_ascii_lowercase,
  is_ascii_hexdigit, map, arith, ◌∙◌, len_ascii, length-le-len, all_mono, Bool-cases, within, inl,
  inr,
}
use crucible_prover.Field.{FieldValue, from_hex, strip_0x, canonical, max_hex_len}

abbrev pub is_lower_hexdigit : ℕ → Bool
is_lower_hexdigit c = within b'0' b'9' c || within b'a' b'f' c

-- More than one digit: the first is not a zero.
abbrev pub IsMinimal : Text → Type 0
IsMinimal [] = ⊥
IsMinimal (c ∷ []) = Unit
IsMinimal (c ∷ d ∷ s) = c ≢ b'0'

pub record IsCanonical (v : FieldValue) : Type 0 where
  pub digits : all is_lower_hexdigit v.hex ≡ true
  pub minimal : IsMinimal v.hex
  pub bounded : length v.hex ≤ max_hex_len

pub lowercase-hexdigit :
    (c : ℕ) → is_ascii_hexdigit c ≡ true → is_lower_hexdigit (to_ascii_lowercase c) ≡ true
unfolding is_ascii_hexdigit to_ascii_lowercase
lowercase-hexdigit c h = ground arith

pub lowercase_digits :
    (s : Text)
    → all is_ascii_hexdigit s ≡ true
    → all is_lower_hexdigit (map to_ascii_lowercase s) ≡ true
lowercase_digits [] h = refl
lowercase_digits (c ∷ s) h = ground (arith, lowercase-hexdigit c, lowercase_digits s)

pub all-trim :
    (p : ℕ → Bool) (c : ℕ) (s : Text) → all p s ≡ true → all p (trim_start_matches c s) ≡ true
unfolding trim_start_matches
all-trim p c [] h = refl
all-trim p c (d ∷ s) h = ground (arith, all-trim p c s)

pub length-trim : (c : ℕ) (s : Text) → length (trim_start_matches c s) ≤ length s
unfolding trim_start_matches
length-trim c [] = omega arith
length-trim c (d ∷ s) = ground (arith, length-trim c s)

-- The first character that is left is another one.
abbrev pub StartsNot : ℕ → Text → Type 0
StartsNot c [] = Unit
StartsNot c (d ∷ s) = d ≢ c

pub trim-StartsNot : (c : ℕ) (s : Text) → StartsNot c (trim_start_matches c s)
unfolding trim_start_matches
trim-StartsNot c [] = tt
trim-StartsNot c (d ∷ s) = ground (arith, trim-StartsNot c s)

pub StartsNot-IsMinimal : (s : Text) → StartsNot b'0' s → is_empty s ≡ false → IsMinimal s
StartsNot-IsMinimal [] h e = cc
StartsNot-IsMinimal (c ∷ []) h e = tt
StartsNot-IsMinimal (c ∷ d ∷ s) h e = h

pub canonical-IsCanonical :
    (s : Text)
    → all is_ascii_hexdigit s ≡ true
    → length s ≤ max_hex_len
    → IsCanonical (record { hex = canonical s })
unfolding canonical
canonical-IsCanonical s h k =
    let t = trim_start_matches b'0' (map to_ascii_lowercase s) in
    elim (Bool-cases (is_empty t)) [
      | inl e ↦ rw e (record { digits = refl; minimal = tt; bounded = omega arith })
      | inr e ↦ rw e (record {
        digits = all-trim is_lower_hexdigit b'0' _ (lowercase_digits s h);
        minimal = StartsNot-IsMinimal t (trim-StartsNot b'0' _) e;
        bounded =
            omega
              (arith, length-trim b'0' (map to_ascii_lowercase s), length-map to_ascii_lowercase s);
      })
    ]

hexdigit_ascii : (c : ℕ) → is_ascii_hexdigit c ≡ true → ltb c 0x80 ≡ true
unfolding is_ascii_hexdigit
hexdigit_ascii c h = ground arith

pub len_hex : (s : Text) → all is_ascii_hexdigit s ≡ true → len s ≡ length s
len_hex s h = len_ascii s (all_mono is_ascii_hexdigit (λ c. ltb c 0x80) s hexdigit_ascii h)

-- What `from_hex` accepts, once the prefix is gone.
pub record IsHex (s : Text) : Type 0 where
  pub nonempty : is_empty s ≡ false
  pub short : length s ≤ max_hex_len
  pub hexdigits : all is_ascii_hexdigit s ≡ true

pub from_hex_accepts :
    (s : Text) → IsHex (strip_0x s) → from_hex s ≡ ok (record { hex = canonical (strip_0x s) })
unfolding from_hex
from_hex_accepts s h = ground (arith, len_hex (strip_0x s))

pub from_hex-inv :
    (s : Text) {v : FieldValue}
    → from_hex s ≡ ok v
    → IsHex (strip_0x s) × (v ≡ record { hex = canonical (strip_0x s) })
unfolding from_hex
from_hex-inv s h = ground (arith, len_hex (strip_0x s), length-le-len (strip_0x s))

-- Whatever text is given, an accepted value is one or more lowercase hexadecimal digits, at most
-- 64, with no leading zero but that of zero itself.
pub from_hex-IsCanonical : (s : Text) {v : FieldValue} → from_hex s ≡ ok v → IsCanonical v
from_hex-IsCanonical s h =
    let (i, e) = from_hex-inv s h in rw e (canonical-IsCanonical (strip_0x s) i.hexdigits i.short)

lower_hexdigit :
    (c : ℕ) → is_lower_hexdigit c ≡ true → (is_ascii_hexdigit c ≡ true) × (to_ascii_lowercase c ≡ c)
unfolding is_ascii_hexdigit to_ascii_lowercase
lower_hexdigit c h = ground arith

pub lower_hexdigits :
    (s : Text)
    → all is_lower_hexdigit s ≡ true
    → (all is_ascii_hexdigit s ≡ true) × (map to_ascii_lowercase s ≡ s)
lower_hexdigits [] h = (refl, refl)
lower_hexdigits (c ∷ s) h = ground (arith, lower_hexdigit c, lower_hexdigits s)

pub trim_minimal :
    (s : Text)
    → IsMinimal s
    → (if is_empty (trim_start_matches b'0' s) then b'0' ∷ [] else trim_start_matches b'0' s) ≡ s
unfolding trim_start_matches
trim_minimal [] h = absurd h
trim_minimal (c ∷ []) h = ground arith
trim_minimal (c ∷ d ∷ s) h = ground arith

pub canonical_self : (v : FieldValue) → IsCanonical v → canonical v.hex ≡ v.hex
unfolding canonical
canonical_self v c = rw ((lower_hexdigits v.hex c.digits).1) (trim_minimal v.hex c.minimal)

pub strip_0x_digits : (s : Text) → all is_lower_hexdigit s ≡ true → strip_0x s ≡ s
unfolding strip_0x strip_prefix
strip_0x_digits [] h = refl
strip_0x_digits (c ∷ []) h = ground arith
strip_0x_digits (c ∷ d ∷ s) h = ground arith

-- With `0x` in front or without, as the witness file and the value itself write it.
pub strip_0x_prefix : (s : Text) → strip_0x (b'0' ∷ b'x' ∷ s) ≡ s
unfolding strip_0x strip_prefix
strip_0x_prefix s = ground arith

pub IsCanonical-IsHex : (v : FieldValue) → IsCanonical v → IsHex v.hex
IsCanonical-IsHex v c = record {
  nonempty = minimal_nonempty v.hex c.minimal;
  short = c.bounded;
  hexdigits = (lower_hexdigits v.hex c.digits).0;
}
  where
    minimal_nonempty : (s : Text) → IsMinimal s → is_empty s ≡ false
    minimal_nonempty [] h = absurd h
    minimal_nonempty (d ∷ s) h = refl

-- A canonical value is read back from its own text, and from that text behind `0x`.
pub from_hex-hex :
    (v : FieldValue)
    → IsCanonical v
    → (from_hex v.hex ≡ ok v) × (from_hex (b'0' ∷ b'x' ∷ v.hex) ≡ ok v)
from_hex-hex v c =
    let bare = strip_0x_digits v.hex c.digits in
    let prefixed = strip_0x_prefix v.hex in
    let accepted = IsCanonical-IsHex v c in
    (
      from_hex_accepts v.hex (rw bare accepted) ∙ rw (bare, canonical_self v c),
      from_hex_accepts (b'0' ∷ b'x' ∷ v.hex) (rw prefixed accepted)
          ∙ rw (prefixed, canonical_self v c),
    )
