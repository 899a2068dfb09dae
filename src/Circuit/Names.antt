-- ===== src/Circuit/Names.antt =====
-- The names of the operations.
use crucible_prover.Base.{Text, ok, ◌≡◌, ◌↔◌, refl, arith, text_eq, ℕ_discrete, List_ℕ-discrete}
use crucible_prover.Circuit.{
  Operation, register, deposit, merge, transfer, withdraw, as_str, parse_operation,
}

parse_as_str : (op : Operation) → parse_operation (as_str op) ≡ ok op
unfolding parse_operation as_str List_ℕ-discrete ℕ_discrete
parse_as_str register = refl
parse_as_str deposit = refl
parse_as_str merge = refl
parse_as_str transfer = refl
parse_as_str withdraw = refl

parse_inv : (s : Text) (op : Operation) → parse_operation s ≡ ok op → s ≡ as_str op
unfolding parse_operation as_str
parse_inv s op h = ground arith

-- A text is parsed as an operation exactly when it is the name that the operation prints.
pub parse_operation_iff :
    (s : Text) (op : Operation) → (parse_operation s ≡ ok op) ↔ (s ≡ as_str op)
parse_operation_iff s op = (parse_inv s op, λ e. rw e (parse_as_str op))
