-- ===== src/Core/Outputs.antt =====
-- Comparison of expected and produced outputs: crates/prover-core/src/public_inputs.rs.
use crucible_prover.Base.{
  Bool, true, false, not, ◌&&◌, List, [], ◌∷◌, Option, none, some, Text, ◌==◌, text_eq, retain,
  is_empty, All, ◌≡◌, ◌↔◌, refl, sym, arith, ◌∙◌, Bool-cases, inl, inr, ==_iff, subst, retain_none,
}
use crucible_prover.Bag
use crucible_prover.Bag.{PublicInputBag, OutputBag, has, find_value, keys}
use crucible_prover.Bag.Lookup.{has-find_value}
use crucible_prover.Field.{FieldValue, field_value_eq}
use crucible_prover.Request.{is_none}

pub record OutputMismatch : Type 0 where
  pub differing : List Text
  pub missing_from_produced : List Text
  pub unexpected : List Text

-- `OutputMismatch::is_empty`.
unfoldable pub is_match : OutputMismatch → Bool
is_match m = is_empty m.differing && (is_empty m.missing_from_produced && is_empty m.unexpected)

-- The first arm of the match on the two lookups, and the second.
differs : Option FieldValue → Option FieldValue → Bool
differs (some a) (some b) = not (a == b)
differs _ _ = false

is_missing : Option FieldValue → Option FieldValue → Bool
is_missing (some a) none = true
is_missing _ _ = false

unfoldable pub compare_outputs : PublicInputBag → OutputBag → OutputMismatch
unfolding differs is_missing
compare_outputs expected produced = record {
  differing = retain (λ n. differs (Bag.get expected n) (Bag.get produced n)) (Bag.names expected);
  missing_from_produced =
      retain (λ n. is_missing (Bag.get expected n) (Bag.get produced n)) (Bag.names expected);
  unexpected = retain (λ n. is_none (Bag.get expected n)) (Bag.names produced);
}

unfoldable pub outputs_match : PublicInputBag → OutputBag → Bool
outputs_match expected produced = is_match (compare_outputs expected produced)

-- What holds of every name of a list of entries holds of every name that it has.
All_at :
    (P : Text → Type 0) (es : List (Text × FieldValue)) (n : Text)
    → All P (keys es)
    → has n es ≡ true
    → P n
All_at P [] n a h = cc
All_at P ((k, w) ∷ es) n a h = elim (Bool-cases (k == n)) [
  | inl same ↦ subst P ((==_iff k n).0 same) a.0
  | inr other ↦ All_at P es n a.1 (rw other at h)
]

All-keys :
    (P : Text → Type 0) (es : List (Text × FieldValue))
    → ((n : Text) → has n es ≡ true → P n)
    → All P (keys es)
All-keys P [] f = tt
All-keys P ((k, w) ∷ es) f = (f k (ground arith), All-keys P es (λ n h. f n (ground (arith, h))))

has_some :
    (n : Text) (es : List (Text × FieldValue))
    → (has n es ≡ true) ↔ (is_none (find_value n es) ≡ false)
has_some n [] = ground arith
has_some n ((k, w) ∷ es) = ground (arith, has_some n es)

-- The three tests at one name.
agree_tests :
    (a b : Option FieldValue)
    → ((differs a b ≡ false) × (is_missing a b ≡ false)) ↔ (is_none a ≡ false → a ≡ b)
unfolding differs is_missing
agree_tests none b = (λ h k. cc, λ h. (refl, refl))
agree_tests (some a) none = (λ h k. cc, λ h. cc (h refl))
agree_tests (some a) (some b) = (λ h k. ground arith, λ h. ground (arith, h refl))

compared :
    (e p : PublicInputBag)
    → (outputs_match e p ≡ true) ↔ (
        All (λ n. differs (Bag.get e n) (Bag.get p n) ≡ false) (keys e.entries)
        × All (λ n. is_missing (Bag.get e n) (Bag.get p n) ≡ false) (keys e.entries)
        × All (λ n. is_none (Bag.get e n) ≡ false) (keys p.entries))
unfolding outputs_match compare_outputs is_match Bag.names
compared e p =
    let a = retain_none (λ n. differs (Bag.get e n) (Bag.get p n)) (keys e.entries) in
    let b = retain_none (λ n. is_missing (Bag.get e n) (Bag.get p n)) (keys e.entries) in
    let c = retain_none (λ n. is_none (Bag.get e n)) (keys p.entries) in
    (
      λ h. (a.0 (ground arith), b.0 (ground arith), c.0 (ground arith)),
      λ h. ground (arith, a.1 h.0, b.1 h.1, c.1 h.2),
    )

-- Two bags of outputs match exactly when every name is bound in both to the same value, or in
-- neither.
pub outputs_match_iff :
    (expected produced : PublicInputBag)
    → (outputs_match expected produced ≡ true)
      ↔ ((n : Text) → Bag.get expected n ≡ Bag.get produced n)
unfolding Bag.get
outputs_match_iff e p = (
  (λ h n. same (unfold Bag.get in (compared e p).0 h) n),
  λ h. (compared e p).1 (
    All-keys _ e.entries (λ n k. ((agree_tests _ _).1 (λ _. h n)).0),
    All-keys _ e.entries (λ n k. ((agree_tests _ _).1 (λ _. h n)).1),
    All-keys _ p.entries (λ n k. rw (h n) ((has_some n p.entries).0 k)),
  ),
)
  where
    same :
        All
            (λ n. differs (find_value n e.entries) (find_value n p.entries) ≡ false)
            (keys e.entries)
          × All
              (λ n. is_missing (find_value n e.entries) (find_value n p.entries) ≡ false)
              (keys e.entries)
          × All (λ n. is_none (find_value n e.entries) ≡ false) (keys p.entries)
        → (n : Text) → find_value n e.entries ≡ find_value n p.entries
    same h n = elim (Bool-cases (has n e.entries)) [
      | inl there ↦
          (agree_tests (find_value n e.entries) (find_value n p.entries)).0
            (All_at _ e.entries n h.0 there, All_at _ e.entries n h.1 there)
            ((has_some n e.entries).0 there)
      | inr absent ↦ elim (Bool-cases (has n p.entries)) [
        | inl there ↦ cc (
          All_at (λ n. is_none (find_value n e.entries) ≡ false) p.entries n h.2 there,
          (has-find_value n e.entries).0 absent,
        )
        | inr gone ↦
            (has-find_value n e.entries).0 absent ∙ sym ((has-find_value n p.entries).0 gone)
      ]
    ]
