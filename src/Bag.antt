-- ===== src/Bag.antt =====
-- The named collections of interfaces/src/circuit/inputs.rs. `PublicInputBag` and
-- `PrivateWitnessBag` are one structure over two types of values; the operations below are those
-- of `PublicInputBag`, and the child Private has those of `PrivateWitnessBag`.
pub mod Private
pub mod Lookup
pub mod Encoding
use crucible_prover.Base.{
  ℕ, Bool, true, false, List, [], ◌∷◌, ◌++◌, Option, none, some, Text, Bytes, Result, ok, err, ◌==◌,
  Eq, text_eq, if◌then◌else◌, length, any, find?, map, ◌>>=◌, as_bytes, ◌≡◌, ℕ_discrete,
}
use crucible_prover.Base
use crucible_prover.Field.{FieldError, duplicate_name, FieldValue, SecretValue, validate_name}

pub record Bag (V : Type 0) : Type 0 where
  pub entries : List (Text × V)

abbrev pub PublicInputBag : Type 0
PublicInputBag = Bag FieldValue

-- interfaces/src/circuit/outputs.rs
abbrev pub OutputBag : Type 0
OutputBag = PublicInputBag

abbrev pub PrivateWitnessBag : Type 0
PrivateWitnessBag = Bag SecretValue

unfoldable pub PublicInputBag-discrete : Discrete PublicInputBag
PublicInputBag-discrete = hlevel ℕ_discrete

instance abbrev pub public_bag_eq : Eq PublicInputBag
public_bag_eq = record { discrete = PublicInputBag-discrete }

module _ {V : Type 0} where
  -- Whether an entry has the name.
  abbrev pub has : Text → List (Text × V) → Bool
  has name [] = false
  has name ((n, v) ∷ es) = if n == name then true else has name es

  abbrev pub find_value : Text → List (Text × V) → Option V
  find_value name [] = none
  find_value name ((n, v) ∷ es) = if n == name then some v else find_value name es

  -- The first entry with the name gets the value; where there is none, the pair is pushed.
  abbrev pub overwrite : Text → V → List (Text × V) → List (Text × V)
  overwrite name value [] = (name, value) ∷ []
  overwrite name value ((n, v) ∷ es) =
      if n == name then (n, value) ∷ es else (n, v) ∷ overwrite name value es

  abbrev pub keys : List (Text × V) → List Text
  keys [] = []
  keys ((n, v) ∷ es) = n ∷ keys es

-- `PublicInputBag::new`.
unfoldable pub new : {V : Type 0} → Bag V
new = record { entries = [] }

module _ {V : Type 0} where
  unfoldable pub insert : Bag V → Text → V → Result FieldError (Bag V)
  insert bag name value = do
    _ ← validate_name name
    if has name bag.entries
        then err (duplicate_name name)
        else ok (record { entries = bag.entries ++ (name, value) ∷ [] })

  unfoldable pub get : Bag V → Text → Option V
  get bag name = find_value name bag.entries

  unfoldable pub set : Bag V → Text → V → Result FieldError (Bag V)
  set bag name value = do
    _ ← validate_name name
    ok (record { entries = overwrite name value bag.entries })

  unfoldable pub iter : Bag V → List (Text × V)
  iter bag = bag.entries

  unfoldable pub names : Bag V → List Text
  names bag = keys bag.entries

  unfoldable pub len : Bag V → ℕ
  len bag = length bag.entries

  unfoldable pub is_empty : Bag V → Bool
  is_empty bag = Base.is_empty bag.entries

encode_entries : List (Text × FieldValue) → Bytes
encode_entries [] = []
encode_entries ((name, value) ∷ es) =
    as_bytes name ++ b'=' ∷ (as_bytes value.hex ++ b'\n' ∷ encode_entries es)

-- `canonical_bytes`: a line `name=value` for every entry, in order.
unfoldable pub canonical_bytes : PublicInputBag → Bytes
unfolding encode_entries
canonical_bytes bag = encode_entries bag.entries

-- No name stands twice.
abbrev pub Distinct : {V : Type 0} → List (Text × V) → Type 0
Distinct [] = Unit
Distinct ((n, v) ∷ es) = (has n es ≡ false) × Distinct es
