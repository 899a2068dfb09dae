-- ===== src/Witness/Assembly.antt =====
-- What an assembled witness satisfies.
use crucible_prover.Base.{
  Bool, true, false, not, List, [], ◌∷◌, Text, ok, ◌==◌, ◌≡◌, ◌↔◌, refl, arith, All, is_empty,
  length, nat_eq,
}
use crucible_prover.Bag
use crucible_prover.Bag.Private
use crucible_prover.Core.Preflight.{IsPresent}
use crucible_prover.Field.{SecretValue}
use crucible_prover.Request.{is_none}
use crucible_prover.Witness.{
  WitnessSide, WitnessError, WitnessData, WitnessAssembler, private_count, refuse_first,
  refuse_overlap, assemble, validate, is_valid,
}

refuse_first_iff :
    (p : Text → Bool) (e : Text → WitnessError) (names : List Text)
    → (refuse_first p e names ≡ ok tt) ↔ All (λ n. p n ≡ false) names
refuse_first_iff p e [] = (λ _. tt, λ _. refl)
refuse_first_iff p e (n ∷ names) = ground (arith, refuse_first_iff p e names)

-- No public name is a private one too.
abbrev pub IsDisjoint : WitnessData → Type 0
IsDisjoint d =
    All (λ n. is_none (Private.get d.private_values n) ≡ true) (Bag.names d.public_inputs)

-- What an assembler has collected.
abbrev pub collected : WitnessAssembler → WitnessData
collected a = record {
  operation = a.operation;
  public_inputs = a.public_inputs;
  private_values = a.private_values;
}

All-not :
    (p : Text → Bool) (names : List Text)
    → All (λ n. not (p n) ≡ false) names ↔ All (λ n. p n ≡ true) names
All-not p [] = (λ h. h, λ h. h)
All-not p (n ∷ names) = ground (arith, All-not p names)

overlap_iff :
    (d : WitnessData) → (refuse_overlap d.public_inputs d.private_values ≡ ok tt) ↔ IsDisjoint d
unfolding refuse_overlap
overlap_iff d =
    let first =
      refuse_first_iff (λ n. not (is_none (Private.get d.private_values n))) WitnessError.overlap
        (Bag.names d.public_inputs) in
    let flip =
      All-not (λ n. is_none (Private.get d.private_values n)) (Bag.names d.public_inputs) in
    (λ h. flip.0 (first.0 h), λ h. first.1 (flip.1 h))

assemble_steps :
    (a : WitnessAssembler) (d : WitnessData)
    → (assemble a ≡ ok d) ↔ (
        (refuse_first
            (λ n. is_none (Bag.get a.public_inputs n))
            (WitnessError.missing_required a.operation WitnessSide.public)
            a.required_public
          ≡ ok tt)
        × (refuse_first
              (λ n. is_none (Private.get a.private_values n))
              (WitnessError.missing_required a.operation WitnessSide.private)
              a.required_private
            ≡ ok tt)
        × (refuse_overlap a.public_inputs a.private_values ≡ ok tt)
        × (d ≡ collected a))
unfolding assemble
assemble_steps a d = (λ h. ground arith, λ h. ground arith)

-- Assembly succeeds exactly when every name that is required of a side is there and no name is on
-- both sides, and then gives what has been collected.
pub assemble_iff :
    (a : WitnessAssembler) (d : WitnessData)
    → (assemble a ≡ ok d) ↔ (
        All (λ n. IsPresent (Bag.get a.public_inputs n)) a.required_public
        × All (λ n. IsPresent (Private.get a.private_values n)) a.required_private
        × IsDisjoint (collected a)
        × (d ≡ collected a))
assemble_iff a d =
    let steps = assemble_steps a d in
    let first = refuse_first_iff (λ n. is_none (Bag.get a.public_inputs n)) _ a.required_public in
    let second =
      refuse_first_iff (λ n. is_none (Private.get a.private_values n)) _ a.required_private in
    let third = overlap_iff (collected a) in
    (
      (λ h. let (x, y, z, e) = steps.0 h in (first.0 x, second.0 y, third.0 z, e)),
      λ h. steps.1 (first.1 h.0, second.1 h.1, third.1 h.2, h.3),
    )

valid_steps :
    (d : WitnessData)
    → (is_valid d ≡ true) ↔ (
        (Bag.is_empty d.public_inputs ≡ false)
        × ((private_count d == 0) ≡ false)
        × (refuse_overlap d.public_inputs d.private_values ≡ ok tt))
unfolding is_valid validate
valid_steps d = ground arith

count_zero : (es : List (Text × SecretValue)) → (length es == 0) ≡ is_empty es
count_zero [] = ground arith
count_zero (e ∷ es) = ground arith

-- Of the witnesses that assembly gives, exactly those with a public and a private value are valid.
pub valid_assembled_iff :
    (a : WitnessAssembler) (d : WitnessData)
    → assemble a ≡ ok d
    → (is_valid d ≡ true)
      ↔ ((Bag.is_empty a.public_inputs ≡ false) × (Private.is_empty a.private_values ≡ false))
unfolding private_count Private.is_empty Private.len Bag.is_empty Bag.len
valid_assembled_iff a d h =
    let (_, _, apart, e) = (assemble_iff a d).0 h in
    let steps = valid_steps d in
    let disjoint = (overlap_iff d).1 (rw e apart) in
    (
      λ v. ground (arith, e, count_zero d.private_values.entries),
      λ v.
          steps.1
            (ground (arith, e), ground (arith, e, count_zero d.private_values.entries), disjoint),
    )
