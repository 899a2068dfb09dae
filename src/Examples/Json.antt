-- ===== src/Examples/Json.antt =====
-- A reversible encoding of envelopes, for the examples, in the place of JSON: a list of fields,
-- each ended by a zero.
use crucible_prover.Base.{
  ℕ, zero, suc, List, [], ◌∷◌, Option, none, some, Text, Bytes, ◌≡◌, refl, ap, ◌∙◌,
}
use crucible_prover.Field.{FieldValue}
use crucible_prover.Mock.{MockEnvelope, EnvelopeJson, IsSerializable}
use crucible_prover.Request.{StateReference}

push : ℕ → List Text → List Text
push c [] = (c ∷ []) ∷ []
push c (s ∷ ss) = (c ∷ s) ∷ ss

pack_onto : Text → Bytes → Bytes
pack_onto [] bs = zero ∷ bs
pack_onto (c ∷ s) bs = suc c ∷ pack_onto s bs

pack : List Text → Bytes
pack [] = []
pack (s ∷ ss) = pack_onto s (pack ss)

unpack : Bytes → List Text
unpack [] = []
unpack (zero ∷ bs) = [] ∷ unpack bs
unpack (suc c ∷ bs) = push c (unpack bs)

unpack-pack_onto : (s : Text) (bs : Bytes) → unpack (pack_onto s bs) ≡ s ∷ unpack bs
unfolding unpack pack_onto push
unpack-pack_onto [] bs = refl
unpack-pack_onto (c ∷ s) bs = ap (push c) (unpack-pack_onto s bs)

unpack-pack : (ss : List Text) → unpack (pack ss) ≡ ss
unfolding pack
unpack-pack [] = unfold unpack in refl
unpack-pack (s ∷ ss) = unpack-pack_onto s (pack ss) ∙ ap (◌∷◌ s) (unpack-pack ss)

put_entries : List (Text × FieldValue) → List Text
put_entries [] = []
put_entries ((n, v) ∷ es) = n ∷ v.hex ∷ put_entries es

take_entries : List Text → List (Text × FieldValue)
take_entries (n ∷ h ∷ ss) = (n, record { hex = h }) ∷ take_entries ss
take_entries _ = []

take_entries_put : (es : List (Text × FieldValue)) → take_entries (put_entries es) ≡ es
unfolding take_entries put_entries
take_entries_put [] = refl
take_entries_put ((n, v) ∷ es) = ap (◌∷◌ (n, v)) (take_entries_put es)

put_label : ℕ → Text → Option Text → List Text → List Text
put_label n r none ss = (n ∷ []) ∷ r ∷ ss
put_label n r (some l) ss = (n ∷ n ∷ []) ∷ r ∷ l ∷ ss

put_state : Option StateReference → List Text → List Text
put_state none ss = [] ∷ ss
put_state (some s) ss = put_label s.sequence s.root.hex s.label ss

state_of : ℕ → Text → Option Text → StateReference
state_of n r l = record { root = record { hex = r }; sequence = n; label = l }

take_state : List Text → Option (Option StateReference × List Text)
take_state ([] ∷ ss) = some (none, ss)
take_state ((n ∷ []) ∷ r ∷ ss) = some (some (state_of n r none), ss)
take_state ((n ∷ _ ∷ []) ∷ r ∷ l ∷ ss) = some (some (state_of n r (some l)), ss)
take_state _ = none

take_label_put :
    (n : ℕ) (r : Text) (l : Option Text) (ss : List Text)
    → take_state (put_label n r l ss) ≡ some (some (state_of n r l), ss)
unfolding take_state put_label
take_label_put n r none ss = refl
take_label_put n r (some l) ss = refl

take_state_put :
    (o : Option StateReference) (ss : List Text) → take_state (put_state o ss) ≡ some (o, ss)
unfolding put_state
take_state_put none ss = unfold take_state in refl
take_state_put (some s) ss =
    take_label_put s.sequence s.root.hex s.label ss ∙ unfold state_of in refl

put_envelope : MockEnvelope → List Text
put_envelope e =
    e.kind
    ∷ e.circuit.id
    ∷ (e.circuit_version.major ∷ e.circuit_version.minor ∷ e.circuit_version.patch ∷ [])
    ∷ e.backend.id
    ∷ e.verification_key_id.id
    ∷ e.artifact_checksum.hex
    ∷ put_state e.state_reference (put_entries e.public_outputs.entries)

with_state :
    (Option StateReference → List Text → MockEnvelope)
    → Option (Option StateReference × List Text)
    → Option MockEnvelope
with_state f none = none
with_state f (some (o, ss)) = some (f o ss)

take_envelope : List Text → Option MockEnvelope
take_envelope (k ∷ c ∷ (a ∷ b ∷ p ∷ []) ∷ d ∷ v ∷ s ∷ ss) =
    with_state
      (λ o fs. record {
        kind = k;
        circuit = record { id = c };
        circuit_version = record { major = a; minor = b; patch = p };
        backend = record { id = d };
        verification_key_id = record { id = v };
        artifact_checksum = record { hex = s };
        public_outputs = record { entries = take_entries fs };
        state_reference = o;
      })
      (take_state ss)
take_envelope _ = none

take_envelope_put : (e : MockEnvelope) → take_envelope (put_envelope e) ≡ some e
unfolding take_envelope put_envelope with_state
take_envelope_put e =
    rw
      (
        take_state_put e.state_reference (put_entries e.public_outputs.entries),
        take_entries_put e.public_outputs.entries,
      )
      refl

unfoldable pub to_vec : MockEnvelope → Bytes
unfolding pack put_envelope put_entries pack_onto put_state put_label
to_vec e = pack (put_envelope e)

unfoldable pub from_slice : Bytes → Option MockEnvelope
unfolding unpack push take_envelope with_state take_state take_entries state_of
from_slice b = take_envelope (unpack b)

pub from_slice-to_vec : (e : MockEnvelope) → IsSerializable e → from_slice (to_vec e) ≡ some e
unfolding from_slice to_vec
from_slice-to_vec e _ = rw (unpack-pack (put_envelope e)) (take_envelope_put e)

abbrev pub envelope_codec : EnvelopeJson
envelope_codec = record {
  to_vec = to_vec;
  from_slice = from_slice;
  from_slice-to_vec = from_slice-to_vec;
}
