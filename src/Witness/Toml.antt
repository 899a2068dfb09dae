-- ===== src/Witness/Toml.antt =====
-- Prover.toml: `encode_toml` of crates/witness/src/encoder.rs and `decode_public_outputs` of
-- crates/witness/src/decoder.rs.
pub mod Lines
pub mod RoundTrip
use crucible_prover.Base.{
  ℕ, Bool, true, false, not, ◌&&◌, ◌||◌, List, [], ◌∷◌, ◌++◌, Option, none, some, Text, codes,
  Result, ok, err, panicked, map_err, ok_or, expect, ◌==◌, nat_eq, ltb, if◌then◌else◌, ◌>>=◌,
  is_empty, within,
}
use crucible_prover.Bag
use crucible_prover.Bag.{PublicInputBag, PrivateWitnessBag}
use crucible_prover.Bag.Private
use crucible_prover.Field.{FieldValue, SecretValue, from_hex, into_hex}
use crucible_prover.Witness.{WitnessData, WitnessError, encoding, invalid_value}

-- The line `name = "0x…"` and its end.
unfoldable pub encode_line : Text → Text → Text
encode_line name hex = name ++ (codes " = \"0x" ++ (hex ++ b'"' ∷ b'\n' ∷ []))

encode_public : List (Text × FieldValue) → Text
encode_public [] = []
encode_public ((name, value) ∷ es) = encode_line name value.hex ++ encode_public es

-- The values are looked up by name; a name with no value would panic.
encode_private : {E : Type 0} → PrivateWitnessBag → List Text → Result E Text
encode_private bag [] = ok []
encode_private bag (name ∷ names) = do
  value ← expect (ok_or name (Private.get bag name))
  rest ← encode_private bag names
  ok (encode_line name (into_hex value) ++ rest)

unfoldable pub encode_toml : {E : Type 0} → WitnessData → Result E Text
unfolding encode_public encode_private
encode_toml d = do
  secrets ← encode_private d.private_values (Private.names d.private_values)
  ok (encode_public d.public_inputs.entries ++ secrets)

-- `char::is_whitespace`.
unfoldable pub is_whitespace : ℕ → Bool
is_whitespace c =
    within 9 13 c
    || (c == 0x20
        || (c == 0x85
            || (c == 0xA0
                || (c == 0x1680
                    || (within 0x2000 0x200A c
                        || (c == 0x2028
                            || (c == 0x2029 || (c == 0x202F || (c == 0x205F || c == 0x3000)))))))))

unfoldable pub trim_start : Text → Text
trim_start [] = []
trim_start (c ∷ s) = if is_whitespace c then trim_start s else c ∷ s

unfoldable pub trim_end : Text → Text
trim_end [] = []
trim_end (c ∷ s) =
    let rest = trim_end s in if is_empty rest && is_whitespace c then [] else c ∷ rest

unfoldable pub trim : Text → Text
trim s = trim_end (trim_start s)

push : ℕ → List Text → List Text
push c [] = (c ∷ []) ∷ []
push c (l ∷ ls) = (c ∷ l) ∷ ls

abbrev pub starts_with : ℕ → Text → Bool
starts_with c [] = false
starts_with c (d ∷ s) = d == c

-- `str::lines`: the ends `\n` and `\r\n` are left out, and no line follows the last end.
unfoldable pub lines : Text → List Text
unfolding push
lines [] = []
lines (c ∷ s) =
    let rest = lines s in
    if c == b'\n'
    then [] ∷ rest
    else if c == b'\r' && starts_with b'\n' s
    then rest
    else push c rest

-- The parts around the first occurrence.
abbrev add_front : ℕ → Option (Text × Text) → Option (Text × Text)
add_front d none = none
add_front d (some (a, b)) = some (d ∷ a, b)

unfoldable pub split_once : ℕ → Text → Option (Text × Text)
split_once c [] = none
split_once c (d ∷ s) =
    let rest = split_once c s in if d == c then some ([], s) else add_front d rest

abbrev add_char : ℕ → Option Text → Option Text
add_char c none = none
add_char c (some s) = some (c ∷ s)

unfoldable pub strip_last : ℕ → Text → Option Text
strip_last c [] = none
strip_last c (d ∷ []) = if d == c then some [] else none
strip_last c (d ∷ e ∷ s) = add_char d (strip_last c (e ∷ s))

-- The text between two quotation marks.
unfoldable pub unquote : Text → Option Text
unquote [] = none
unquote (c ∷ s) = if c == b'"' then strip_last b'"' s else none

unfoldable pub decode_pair :
    PublicInputBag → Text → Text × Text → Result WitnessError PublicInputBag
decode_pair bag line (name, raw) = do
  text ←
      ok_or (encoding (codes "unquoted value on line `" ++ (line ++ b'`' ∷ [])))
        (unquote (trim raw))
  value ← map_err invalid_value (from_hex text)
  map_err invalid_value (Bag.insert bag (trim name) value)

unfoldable pub decode_line : PublicInputBag → Text → Result WitnessError PublicInputBag
decode_line bag untrimmed =
    let line = trim untrimmed in
    if is_empty line || starts_with b'#' line
    then ok bag
    else elim (split_once b'=' line) [ none ↦ ok bag | some pair ↦ decode_pair bag line pair ]

unfoldable pub decode_lines : PublicInputBag → List Text → Result WitnessError PublicInputBag
decode_lines bag [] = ok bag
decode_lines bag (l ∷ ls) = do next ← decode_line bag l; decode_lines next ls

unfoldable pub decode_public_outputs : Text → Result WitnessError PublicInputBag
decode_public_outputs text = decode_lines Bag.new (lines text)
