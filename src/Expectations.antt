-- ===== src/Expectations.antt =====
-- The pinned interface of each protocol circuit: interfaces/src/circuit/expectations.rs.
pub mod Surface
use crucible_prover.Base.{ℕ, ◌+◌, List, [], ◌∷◌, ◌++◌, Text, codes, length}
use crucible_prover.Circuit.{Operation, register, deposit, merge, transfer, withdraw}

pub record CircuitExpectations : Type 0 where
  pub private : List Text
  pub public_params : List Text
  pub returns : List Text

unfoldable pub public_names : CircuitExpectations → List Text
public_names e = e.public_params ++ e.returns

unfoldable pub public_word_count : CircuitExpectations → ℕ
public_word_count e = length e.public_params + length e.returns

unfoldable pub expectations : Operation → CircuitExpectations
expectations register = record {
  private = codes "account_sk" ∷ [];
  public_params = codes "account_address" ∷ [];
  returns = [];
}
expectations deposit = record {
  private =
      codes "account_sk"
      ∷ codes "old_amount"
      ∷ codes "old_blinding"
      ∷ codes "amount"
      ∷ codes "blinding"
      ∷ [];
  public_params = codes "token_address" ∷ codes "account_address" ∷ codes "old_commitment" ∷ [];
  returns = codes "new_commitment" ∷ codes "nullifier" ∷ [];
}
expectations merge = record {
  private =
      codes "account_sk"
      ∷ codes "amount_a"
      ∷ codes "blinding_a"
      ∷ codes "amount_b"
      ∷ codes "blinding_b"
      ∷ codes "blinding"
      ∷ [];
  public_params =
      codes "token_address"
      ∷ codes "account_address"
      ∷ codes "commitment_a"
      ∷ codes "commitment_b"
      ∷ codes "root_hi"
      ∷ codes "root_lo"
      ∷ [];
  returns = codes "merged_commitment" ∷ codes "nullifier_a" ∷ codes "nullifier_b" ∷ [];
}
expectations transfer = record {
  private =
      codes "sender_sk"
      ∷ codes "amount"
      ∷ codes "old_amount"
      ∷ codes "old_blinding"
      ∷ codes "recipient_blinding"
      ∷ codes "change_blinding"
      ∷ [];
  public_params =
      codes "token_address"
      ∷ codes "sender_address"
      ∷ codes "recipient_address"
      ∷ codes "old_sender_commitment"
      ∷ codes "root_hi"
      ∷ codes "root_lo"
      ∷ [];
  returns = codes "recipient_commitment" ∷ codes "change_commitment" ∷ codes "nullifier" ∷ [];
}
expectations withdraw = record {
  private =
      codes "account_sk"
      ∷ codes "amount"
      ∷ codes "old_amount"
      ∷ codes "old_blinding"
      ∷ codes "change_blinding"
      ∷ [];
  public_params =
      codes "token_address"
      ∷ codes "account_address"
      ∷ codes "commitment"
      ∷ codes "root_hi"
      ∷ codes "root_lo"
      ∷ [];
  returns = codes "change_commitment" ∷ codes "nullifier" ∷ [];
}

unfoldable pub private_names : Operation → List Text
private_names operation = (expectations operation).private
