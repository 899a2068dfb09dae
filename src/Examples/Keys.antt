-- ===== src/Examples/Keys.antt =====
-- An example for verification key ids.
use crucible_prover.Base.{codes, ok, ◌≡◌, refl, replicate, is_ascii_alphanumeric, len, ℕ_discrete}
use crucible_prover.Circuit.{CircuitId, circuit_id, is_id_char}
use crucible_prover.Response.{ArtifactChecksum}
use crucible_prover.UltraHonk.{id_for, parse}
use crucible_prover.UltraHonk.KeyId.{IsSha256, parse-id_for}
use crucible_prover.Examples.Data.{version_123, version_123-FitsU32}

abbrev transfer_id : CircuitId
transfer_id = record { id = codes "transfer-v2" }

abbrev hash_of_twos : ArtifactChecksum
hash_of_twos = record { hex = replicate 64 b'2' }

valid_id : circuit_id transfer_id.id ≡ ok transfer_id
unfolding circuit_id is_id_char is_ascii_alphanumeric ℕ_discrete len
valid_id = refl

hash_of_twos-IsSha256 : IsSha256 hash_of_twos
hash_of_twos-IsSha256 = record { whole = refl; digits = refl }

parse-id_for_example :
    parse (id_for transfer_id version_123 hash_of_twos)
    ≡ ok (transfer_id, version_123, hash_of_twos)
parse-id_for_example =
    parse-id_for transfer_id version_123 hash_of_twos valid_id version_123-FitsU32
      hash_of_twos-IsSha256
