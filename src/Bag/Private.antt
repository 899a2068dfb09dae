-- ===== src/Bag/Private.antt =====
-- `PrivateWitnessBag`: the operations that the private side has, over secrets.
use crucible_prover.Base.{ℕ, Bool, List, Option, Text, Result}
use crucible_prover.Field.{FieldError, SecretValue}
use crucible_prover.Bag
use crucible_prover.Bag.{PrivateWitnessBag}

unfoldable pub new : PrivateWitnessBag
new = Bag.new

unfoldable pub insert : PrivateWitnessBag → Text → SecretValue → Result FieldError PrivateWitnessBag
insert = Bag.insert

unfoldable pub get : PrivateWitnessBag → Text → Option SecretValue
get = Bag.get

unfoldable pub names : PrivateWitnessBag → List Text
names = Bag.names

unfoldable pub len : PrivateWitnessBag → ℕ
len = Bag.len

unfoldable pub is_empty : PrivateWitnessBag → Bool
is_empty = Bag.is_empty

unfoldable pub into_entries : PrivateWitnessBag → List (Text × SecretValue)
into_entries = Bag.iter
