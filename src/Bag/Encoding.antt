-- ===== src/Bag/Encoding.antt =====
-- The bytes of a bag determine its entries.
use crucible_prover.Base.{
  ℕ, Bool, true, not, ◌&&◌, List, [], ◌∷◌, ◌++◌, Text, Bytes, ok, ltb, ◌==◌, nat_eq, arith, ◌≡◌,
  refl, sym, ◌∙◌, All, all, all_mono, as_bytes, as_bytes_ascii, append_sep_injective,
  is_ascii_lowercase, is_ascii_digit,
}
use crucible_prover.Field.{FieldValue, is_name_char, validate_name}
use crucible_prover.Field.Canonical.{IsCanonical, is_lower_hexdigit}
use crucible_prover.Bag.{PublicInputBag, encode_entries, canonical_bytes}
use crucible_prover.Bag.Lookup.{HasValidName, IsWellFormed}

-- The values of a bag are canonical, as `from_hex` returns them.
abbrev pub HasCanonicalValues : List (Text × FieldValue) → Type 0
HasCanonicalValues = All (λ e. IsCanonical e.1)

validate_name-chars : (n : Text) → validate_name n ≡ ok tt → all is_name_char n ≡ true
unfolding validate_name
validate_name-chars n h = ground arith

-- A character that is its own byte and neither of the two separators.
abbrev is_plain : ℕ → Bool
is_plain c = ltb c 0x80 && (not (c == b'=') && not (c == b'\n'))

is_name_char-is_plain : (c : ℕ) → is_name_char c ≡ true → is_plain c ≡ true
unfolding is_name_char is_ascii_lowercase is_ascii_digit
is_name_char-is_plain c h = ground arith

hexdigit-is_plain : (c : ℕ) → is_lower_hexdigit c ≡ true → is_plain c ≡ true
hexdigit-is_plain c h = ground arith

name_plain : (n : Text) → validate_name n ≡ ok tt → all is_plain n ≡ true
name_plain n h = all_mono is_name_char is_plain n is_name_char-is_plain (validate_name-chars n h)

hex_plain : (v : FieldValue) → IsCanonical v → all is_plain v.hex ≡ true
hex_plain v c = all_mono is_lower_hexdigit is_plain v.hex hexdigit-is_plain c.digits

plain_bytes : (s : Text) → all is_plain s ≡ true → as_bytes s ≡ s
plain_bytes s h = as_bytes_ascii s (all_mono is_plain _ s (λ c k. ground arith) h)

lacks_eq : (s : Text) → all is_plain s ≡ true → all (λ c. not (c == b'=')) s ≡ true
lacks_eq s h = all_mono is_plain _ s (λ c k. ground arith) h

lacks_newline : (s : Text) → all is_plain s ≡ true → all (λ c. not (c == b'\n')) s ≡ true
lacks_newline s h = all_mono is_plain _ s (λ c k. ground arith) h

-- A line of the encoding determines its name, its value and what follows.
line_injective :
    (n m a b : Text) (x y : Bytes)
    → all is_plain n ≡ true
    → all is_plain m ≡ true
    → all is_plain a ≡ true
    → all is_plain b ≡ true
    → n ++ b'=' ∷ (a ++ b'\n' ∷ x) ≡ m ++ b'=' ∷ (b ++ b'\n' ∷ y)
    → (n ≡ m) × (a ≡ b) × (x ≡ y)
line_injective n m a b x y pn pm pa pb e =
    let (same, rest) = append_sep_injective b'=' n m _ _ (lacks_eq n pn) (lacks_eq m pm) e in
    let (value, tail) =
      append_sep_injective b'\n' a b x y (lacks_newline a pa) (lacks_newline b pb) rest in
    (same, value, tail)

line_plain :
    (n : Text) (v : FieldValue) (rest : List (Text × FieldValue))
    → validate_name n ≡ ok tt
    → IsCanonical v
    → encode_entries ((n, v) ∷ rest) ≡ n ++ b'=' ∷ (v.hex ++ b'\n' ∷ encode_entries rest)
unfolding encode_entries
line_plain n v rest h c = rw (plain_bytes n (name_plain n h), plain_bytes v.hex (hex_plain v c))

nonempty_line : (n : Text) (x : Bytes) → n ++ b'=' ∷ x ≡ [] → ⊥
nonempty_line [] x e = cc
nonempty_line (c ∷ n) x e = cc

encode_entries_injective :
    (es fs : List (Text × FieldValue))
    → All HasValidName es
    → All HasValidName fs
    → HasCanonicalValues es
    → HasCanonicalValues fs
    → encode_entries es ≡ encode_entries fs
    → es ≡ fs
encode_entries_injective [] [] _ _ _ _ e = refl
encode_entries_injective [] ((m, w) ∷ fs) _ vf _ cf e =
    absurd (
      nonempty_line m _ (sym (line_plain m w fs vf.0 cf.0) ∙ sym e ∙ unfold encode_entries in refl))
encode_entries_injective ((n, v) ∷ es) [] ve _ ce _ e =
    absurd
      (nonempty_line n _ (sym (line_plain n v es ve.0 ce.0) ∙ e ∙ unfold encode_entries in refl))
encode_entries_injective ((n, v) ∷ es) ((m, w) ∷ fs) ve vf ce cf e =
    let (same, value, rest) =
      line_injective n m v.hex w.hex (encode_entries es) (encode_entries fs) (name_plain n ve.0)
        (name_plain m vf.0) (hex_plain v ce.0) (hex_plain w cf.0)
        (sym (line_plain n v es ve.0 ce.0) ∙ e ∙ line_plain m w fs vf.0 cf.0) in
    ground (arith, same, value, encode_entries_injective es fs ve.1 vf.1 ce.1 cf.1 rest)

-- Of well-formed bags with canonical values, two that have the same bytes are equal: a change of
-- a name, of a value or of the order changes what a binding hash is computed over.
pub canonical_bytes_injective :
    (a b : PublicInputBag)
    → IsWellFormed a
    → IsWellFormed b
    → HasCanonicalValues a.entries
    → HasCanonicalValues b.entries
    → canonical_bytes a ≡ canonical_bytes b
    → a ≡ b
unfolding canonical_bytes
canonical_bytes_injective a b wa wb ca cb e =
    cc (encode_entries_injective a.entries b.entries wa.valid wb.valid ca cb e)
