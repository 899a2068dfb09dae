-- ===== src/Expectations/Surface.antt =====
-- The pinned names are valid and distinct, and the root halves stand where state binding is asked.
use crucible_prover.Base.{
  Bool, true, not, ◌&&◌, List, [], ◌∷◌, ◌++◌, Text, codes, ◌≡◌, refl, ◌==◌, text_eq, any, all,
  is_ok, length, List_ℕ-discrete, ℕ_discrete, len, is_ascii_lowercase, is_ascii_digit,
}
use crucible_prover.Circuit.{Operation, register, deposit, merge, transfer, withdraw}
use crucible_prover.Field.{validate_name, is_name_char}
use crucible_prover.Request.{is_state_bound}
use crucible_prover.Expectations.{expectations, public_names, public_word_count}

abbrev pub contains : Text → List Text → Bool
contains name = any (λ n. n == name)

abbrev pub all_distinct : List Text → Bool
all_distinct [] = true
all_distinct (n ∷ ns) = not (contains n ns) && all_distinct ns

abbrev pub surface : Operation → List Text
surface op = (expectations op).private ++ public_names (expectations op)

-- On the whole surface of every circuit each name is valid and stands once. The root halves are
-- public parameters exactly where `validate` requires a state reference, and the word count is
-- the number of public names.
pub surface_lem :
    (op : Operation)
    → (all_distinct (surface op) ≡ true)
      × (all (λ n. is_ok (validate_name n)) (surface op) ≡ true)
      × (contains (codes "root_hi") (expectations op).public_params ≡ is_state_bound op)
      × (contains (codes "root_lo") (expectations op).public_params ≡ is_state_bound op)
      × (public_word_count (expectations op) ≡ length (public_names (expectations op)))
unfolding expectations public_names public_word_count validate_name is_name_char is_state_bound
    List_ℕ-discrete ℕ_discrete len is_ascii_lowercase is_ascii_digit
surface_lem register = (refl, refl, refl, refl, refl)
surface_lem deposit = (refl, refl, refl, refl, refl)
surface_lem merge = (refl, refl, refl, refl, refl)
surface_lem transfer = (refl, refl, refl, refl, refl)
surface_lem withdraw = (refl, refl, refl, refl, refl)
