-- ===== src/Witness/Toml/RoundTrip.antt =====
-- What is decoded from the text of a witness.
use crucible_prover.Base.{
  true, false, ◌||◌, List, [], ◌∷◌, ◌++◌, some, Text, ok, nat_eq, text_eq, ◌≡◌, refl, sym, ap, ◌∙◌,
  arith, All, append_assoc, All-append, append-nil,
}
use crucible_prover.Bag
use crucible_prover.Bag.{Bag, PublicInputBag, PrivateWitnessBag, has, find_value, keys, Distinct}
use crucible_prover.Bag.Encoding.{HasCanonicalValues}
use crucible_prover.Bag.Lookup.{HasValidName, IsWellFormed, has-find_value}
use crucible_prover.Bag.Private
use crucible_prover.Field.{FieldValue, SecretValue, into_hex}
use crucible_prover.Field.Canonical.{IsCanonical}
use crucible_prover.Request.{is_none}
use crucible_prover.Witness.{WitnessData}
use crucible_prover.Witness.Assembly.{IsDisjoint}
use crucible_prover.Witness.Toml.{
  encode_line, encode_public, encode_private, encode_toml, lines, decode_lines,
  decode_public_outputs,
}
use crucible_prover.Witness.Toml.Lines.{
  line_text, encode_line_text, lines-line, line_text-on_line, name_chars, decode_line_text,
}

-- The text of every entry is a line of its own.
texts : List (Text × FieldValue) → List Text
texts [] = []
texts ((n, v) ∷ es) = line_text n v.hex ∷ texts es

lines-encode_public :
    (es : List (Text × FieldValue))
    → All HasValidName es
    → HasCanonicalValues es
    → lines (encode_public es) ≡ texts es
unfolding encode_public texts
lines-encode_public [] a c = unfold lines in refl
lines-encode_public ((n, v) ∷ es) a c =
    ap lines (encode_line_text n v.hex (encode_public es))
    ∙ lines-line (line_text n v.hex) (encode_public es)
        (line_text-on_line n v.hex (name_chars n a.0).0 c.0.digits)
    ∙ ap (◌∷◌ (line_text n v.hex)) (lines-encode_public es a.1 c.1)

module _ {V : Type 0} where
  has-append : (m : Text) (fs bs : List (Text × V)) → has m (fs ++ bs) ≡ (has m fs || has m bs)
  has-append m [] bs = refl
  has-append m ((k, w) ∷ fs) bs = ground (arith, has-append m fs bs)

  fresh_next :
      (fs : List (Text × V)) (n : Text) (v : V) (es : List (Text × V))
      → Distinct (fs ++ (n, v) ∷ es)
      → has n fs ≡ false
  fresh_next [] n v es d = refl
  fresh_next ((k, w) ∷ fs) n v es d =
      ground (arith, fresh_next fs n v es d.1, has-append k fs ((n, v) ∷ es), d.0)

  -- No name of the first list stands in the second.
  abbrev Apart : {W : Type 0} → List (Text × V) → List (Text × W) → Type 0
  Apart fs bs = All (λ n. has n bs ≡ false) (keys fs)

  Distinct-append :
      (fs bs : List (Text × V)) → Distinct fs → Distinct bs → Apart fs bs → Distinct (fs ++ bs)
  Distinct-append [] bs d e a = e
  Distinct-append ((k, w) ∷ fs) bs d e a =
      (has-append k fs bs ∙ ground (arith, d.0, a.0), Distinct-append fs bs d.1 e a.1)

decode_entries :
    (bag : PublicInputBag) (es : List (Text × FieldValue))
    → All HasValidName es
    → HasCanonicalValues es
    → Distinct (bag.entries ++ es)
    → decode_lines bag (texts es) ≡ ok (record { entries = bag.entries ++ es })
unfolding decode_lines texts
decode_entries bag [] a c d = ap (λ l. ok (record { entries = l })) (sym (append-nil bag.entries))
decode_entries bag ((n, v) ∷ es) a c d =
    let inserted : Bag.insert bag n v ≡ ok (record { entries = bag.entries ++ (n, v) ∷ [] }) =
      unfold Bag.insert in ground (arith, a.0, fresh_next bag.entries n v es d) in
    let grown = append_assoc bag.entries ((n, v) ∷ []) es in
    rw (decode_line_text bag n v a.0 c.0, inserted)
      (decode_entries (record { entries = bag.entries ++ (n, v) ∷ [] }) es a.1 c.1 (rw grown d)
        ∙ ap (λ l. ok (record { entries = l })) grown)

-- The private entries as the values that they hide.
unfoldable pub revealed : List (Text × SecretValue) → List (Text × FieldValue)
revealed [] = []
revealed ((n, v) ∷ es) = (n, record { hex = into_hex v }) ∷ revealed es

has-revealed : (m : Text) (es : List (Text × SecretValue)) → has m (revealed es) ≡ has m es
unfolding revealed
has-revealed m [] = refl
has-revealed m ((n, v) ∷ es) = ground (arith, has-revealed m es)

Distinct-revealed : (es : List (Text × SecretValue)) → Distinct es → Distinct (revealed es)
unfolding revealed
Distinct-revealed [] d = tt
Distinct-revealed ((n, v) ∷ es) d = (has-revealed n es ∙ d.0, Distinct-revealed es d.1)

valid_revealed :
    (es : List (Text × SecretValue)) → All HasValidName es → All HasValidName (revealed es)
unfolding revealed
valid_revealed [] a = tt
valid_revealed ((n, v) ∷ es) a = (a.0, valid_revealed es a.1)

encode_public-append :
    (es fs : List (Text × FieldValue))
    → encode_public (es ++ fs) ≡ encode_public es ++ encode_public fs
unfolding encode_public
encode_public-append [] fs = refl
encode_public-append ((n, v) ∷ es) fs =
    ap (◌++◌ (encode_line n v.hex)) (encode_public-append es fs)
    ∙ sym (append_assoc (encode_line n v.hex) (encode_public es) (encode_public fs))

-- Each entry is the one that a lookup of its name finds.
abbrev IsFound : List (Text × SecretValue) → Text × SecretValue → Type 0
IsFound es e = find_value e.0 es ≡ some e.1

IsFound-behind :
    (k : Text) (w : SecretValue) (es fs : List (Text × SecretValue))
    → has k fs ≡ false
    → All (IsFound es) fs
    → All (IsFound ((k, w) ∷ es)) fs
IsFound-behind k w es [] h a = tt
IsFound-behind k w es ((n, v) ∷ fs) h a = ground (arith, IsFound-behind k w es fs, a)

All-IsFound : (es : List (Text × SecretValue)) → Distinct es → All (IsFound es) es
All-IsFound [] d = tt
All-IsFound ((k, w) ∷ es) d = (ground arith, IsFound-behind k w es es d.0 (All-IsFound es d.1))

encode_found :
    {E : Type 0} (bag : PrivateWitnessBag) (es : List (Text × SecretValue))
    → All (IsFound bag.entries) es
    → encode_private {E = E} bag (keys es) ≡ ok (encode_public (revealed es))
unfolding encode_private encode_public revealed Private.get Bag.get
encode_found {E} bag [] a = refl
encode_found {E} bag ((n, v) ∷ es) a = rw (a.0, encode_found {E = E} bag es a.1) refl

-- A witness whose names are valid and distinct on both sides together and whose values are canonical.
pub record IsSound (d : WitnessData) : Type 0 where
  pub public_names : IsWellFormed d.public_inputs
  pub private_names : IsWellFormed d.private_values
  pub apart : IsDisjoint d
  pub public_values : HasCanonicalValues d.public_inputs.entries
  pub secrets : HasCanonicalValues (revealed d.private_values.entries)

-- All that the text of the witness says.
abbrev pub all_entries : WitnessData → List (Text × FieldValue)
all_entries d = d.public_inputs.entries ++ revealed d.private_values.entries

encode_toml-entries :
    {E : Type 0} (d : WitnessData)
    → IsSound d
    → encode_toml {E = E} d ≡ ok (encode_public (all_entries d))
unfolding encode_toml Private.names Bag.names
encode_toml-entries {E} d s =
    rw
      (encode_found {E = E} d.private_values d.private_values.entries
        (All-IsFound d.private_values.entries s.private_names.distinct))
      (ap (λ t. ok t)
        (sym (encode_public-append d.public_inputs.entries (revealed d.private_values.entries))))

Apart-lists :
    (fs : List (Text × FieldValue)) (bag : PrivateWitnessBag)
    → All (λ n. is_none (Private.get bag n) ≡ true) (keys fs)
    → Apart fs (revealed bag.entries)
unfolding Private.get Bag.get
Apart-lists [] bag a = tt
Apart-lists ((n, v) ∷ fs) bag a = (
  has-revealed n bag.entries ∙ (has-find_value n bag.entries).1 (ground (arith, a.0)),
  Apart-lists fs bag a.1,
)

decode_all :
    (d : WitnessData)
    → IsSound d
    → decode_public_outputs (encode_public (all_entries d))
      ≡ ok (record { entries = all_entries d })
unfolding decode_public_outputs Bag.new
decode_all d s =
    let valid =
      All-append HasValidName d.public_inputs.entries (revealed d.private_values.entries)
        s.public_names.valid (valid_revealed d.private_values.entries s.private_names.valid) in
    let canonical =
      All-append (λ e. IsCanonical e.1) d.public_inputs.entries (revealed d.private_values.entries)
        s.public_values s.secrets in
    let distinct =
      Distinct-append d.public_inputs.entries (revealed d.private_values.entries)
        s.public_names.distinct
        (Distinct-revealed d.private_values.entries s.private_names.distinct)
        (Apart-lists d.public_inputs.entries d.private_values (unfold Bag.names in s.apart)) in
    rw (lines-encode_public (all_entries d) valid canonical)
      (decode_entries (record { entries = [] }) (all_entries d) valid canonical distinct)

-- The text of a witness with valid, distinct names and canonical values is decoded to all of its
-- values, the private ones included, in order, the public ones first.
pub decode-encode_toml :
    {E : Type 0} (d : WitnessData)
    → IsSound d
    → (text : Text) × (encode_toml {E = E} d ≡ ok text)
      × (decode_public_outputs text ≡ ok (record { entries = all_entries d }))
decode-encode_toml {E} d s =
    (encode_public (all_entries d), encode_toml-entries {E = E} d s, decode_all d s)
