-- ===== src/Examples/Secrets.antt =====
-- Examples for witnesses.
use crucible_prover.Base.{
  true, [], ◌∷◌, Text, codes, ok, All, ◌≡◌, ◌↔◌, refl, len, ℕ_discrete, List_ℕ-discrete,
  is_ascii_lowercase, is_ascii_digit,
}
use crucible_prover.Bag
use crucible_prover.Bag.{PublicInputBag, PrivateWitnessBag}
use crucible_prover.Bag.Private
use crucible_prover.Circuit.{register}
use crucible_prover.Core.Preflight.{IsPresent}
use crucible_prover.Field.{validate_name, is_name_char, into_hex}
use crucible_prover.Witness.{WitnessError, WitnessData, WitnessAssembler, assemble, refuse_overlap}
use crucible_prover.Witness.Assembly.{IsDisjoint, collected, assemble_iff}
use crucible_prover.Witness.Scrub.{scrub_hex, short_runs, scrub_hex_lem}
use crucible_prover.Witness.Toml.{encode_toml, decode_public_outputs}
use crucible_prover.Witness.Toml.RoundTrip.{IsSound, all_entries, revealed, decode-encode_toml}
use crucible_prover.Examples.Data.{value_ab-IsCanonical, one_input, one_input-IsWellFormed}

abbrev secret : PrivateWitnessBag
secret = record { entries = (codes "amount", record { contents = codes "ab" }) ∷ [] }

abbrev assembler : WitnessAssembler
assembler = record {
  operation = register;
  public_inputs = one_input;
  private_values = secret;
  required_public = codes "token" ∷ [];
  required_private = codes "amount" ∷ [];
}

abbrev witness : WitnessData
witness = collected assembler

witness-IsDisjoint : IsDisjoint witness
unfolding Private.get Bag.get Bag.names ℕ_discrete List_ℕ-discrete
witness-IsDisjoint = (refl, tt)

assembled : assemble assembler ≡ ok witness
unfolding assemble refuse_overlap Private.get Bag.get Bag.names ℕ_discrete List_ℕ-discrete
assembled = refl

assemble_iff_example : (assemble assembler ≡ ok witness) ↔ (
    All (λ n. IsPresent (Bag.get assembler.public_inputs n)) assembler.required_public
    × All (λ n. IsPresent (Private.get assembler.private_values n)) assembler.required_private
    × IsDisjoint (collected assembler)
    × (witness ≡ collected assembler))
assemble_iff_example = assemble_iff assembler witness

validate_amount : validate_name (codes "amount") ≡ ok tt
unfolding validate_name is_name_char is_ascii_lowercase is_ascii_digit ℕ_discrete len
validate_amount = refl

witness-IsSound : IsSound witness
unfolding revealed into_hex
witness-IsSound = record {
  public_names = one_input-IsWellFormed;
  private_names = record { valid = (validate_amount, tt); distinct = (refl, tt) };
  apart = witness-IsDisjoint;
  public_values = (value_ab-IsCanonical, tt);
  secrets = (value_ab-IsCanonical, tt);
}

decode-encode_toml_example :
    (text : Text) × (encode_toml {E = WitnessError} witness ≡ ok text)
    × (decode_public_outputs text ≡ ok (record { entries = all_entries witness }))
decode-encode_toml_example = decode-encode_toml {E = WitnessError} witness witness-IsSound

scrub_hex_lem_example :
    (short_runs 0 (scrub_hex (codes "key deadbeefdeadbeef")) ≡ true)
    × ((scrub_hex (codes "key deadbeefdeadbeef") ≡ codes "key deadbeefdeadbeef")
        ↔ (short_runs 0 (codes "key deadbeefdeadbeef") ≡ true))
scrub_hex_lem_example = scrub_hex_lem (codes "key deadbeefdeadbeef")
