-- ===== src/Request/Validation.antt =====
-- What `ProofRequest::validate` accepts.
use crucible_prover.Base.{
  true, false, not, ◌||◌, Option, some, codes, Text, Result, ok, err, panicked, ◌≡◌, ◌≢◌, ◌↔◌, refl,
  ◌==◌, arith, ◌∙◌, if◌then◌else◌, ◌>>=◌,
}
use crucible_prover.Field.{FieldValue, field_value_eq}
use crucible_prover.Bag
use crucible_prover.Bag.Private
use crucible_prover.Request.{
  ProofRequest, StateReference, WitnessError, state_root_mismatch, validate, is_state_bound,
  root_halves, check_root, is_none,
}
use crucible_prover.Request.Root.{IsDigest, root_halves-IsDigest}

abbrev pub root_hi : Text
root_hi = codes "root_hi"

abbrev pub root_lo : Text
root_lo = codes "root_lo"

-- What the documentation of `validate` asks of a request.
pub record IsComplete (r : ProofRequest) : Type 0 where
  pub has_witness : Private.is_empty r.witness ≡ false
  pub has_inputs : Bag.is_empty r.public_inputs ≡ false
  pub has_state : is_state_bound r.operation ≡ true → is_none r.state_reference ≡ false

-- The root halves among the public inputs are those of the state's root.
abbrev pub BindsRoot : Option StateReference → Option FieldValue → Option FieldValue → Type 0
BindsRoot (some state) (some hi) (some lo) = root_halves {E = WitnessError} state ≡ ok (hi, lo)
BindsRoot _ _ _ = Unit

abbrev pub IsBound : ProofRequest → Type 0
IsBound r =
    BindsRoot r.state_reference (Bag.get r.public_inputs root_hi) (Bag.get r.public_inputs root_lo)

compare_halves :
    (hi lo : FieldValue) (o : Result WitnessError (FieldValue × FieldValue))
    → ((do e ← o; if not (hi == e.0) || not (lo == e.1) then err state_root_mismatch else ok tt)
        ≡ ok tt)
      ↔ (o ≡ ok (hi, lo))
compare_halves hi lo (ok (a, b)) = ground arith
compare_halves hi lo (err e) = ground arith
compare_halves hi lo panicked = ground arith

check_root_iff :
    (s : Option StateReference) (h l : Option FieldValue)
    → (check_root s h l ≡ ok tt) ↔ BindsRoot s h l
unfolding check_root
check_root_iff (some s) (some h) (some l) = compare_halves h l (root_halves s)
check_root_iff _ _ _ = (λ _. tt, λ _. refl)

validate_inv :
    (r : ProofRequest)
    → validate r ≡ ok tt
    → IsComplete r
      × (check_root r.state_reference
            (Bag.get r.public_inputs root_hi)
            (Bag.get r.public_inputs root_lo)
          ≡ ok tt)
unfolding validate
validate_inv r h = (
  record { has_witness = ground arith; has_inputs = ground arith; has_state = λ b. ground arith },
  ground arith,
)

validate_complete :
    (r : ProofRequest)
    → IsComplete r
    → validate r
      ≡ check_root r.state_reference
          (Bag.get r.public_inputs root_hi)
          (Bag.get r.public_inputs root_lo)
unfolding validate
validate_complete r c = ground (arith, c.has_state)

pub validate_iff : (r : ProofRequest) → (validate r ≡ ok tt) ↔ (IsComplete r × IsBound r)
validate_iff r = (
  (λ h. let (c, k) = validate_inv r h in (c, (check_root_iff r.state_reference _ _).0 k)),
  λ h. validate_complete r h.0 ∙ (check_root_iff r.state_reference _ _).1 h.1,
)

differing_halves :
    (hi lo : FieldValue) (o : Result WitnessError (FieldValue × FieldValue)) (a b : FieldValue)
    → o ≡ ok (a, b)
    → o ≢ ok (hi, lo)
    → (do e ← o; if not (hi == e.0) || not (lo == e.1) then err state_root_mismatch else ok tt)
      ≡ err state_root_mismatch
differing_halves hi lo (ok (x, y)) a b h n = ground arith
differing_halves hi lo (err e) a b h n = cc
differing_halves hi lo panicked a b h n = cc

-- A complete request whose root is well formed, but whose root halves are not those of the root,
-- is refused as a mismatch with the state.
pub validate-mismatch :
    (r : ProofRequest) (s : StateReference) (hi lo : FieldValue)
    → IsComplete r
    → r.state_reference ≡ some s
    → IsDigest s.root
    → Bag.get r.public_inputs root_hi ≡ some hi
    → Bag.get r.public_inputs root_lo ≡ some lo
    → root_halves {E = WitnessError} s ≢ ok (hi, lo)
    → validate r ≡ err state_root_mismatch
unfolding check_root
validate-mismatch r s hi lo c es ds gh gl ne =
    validate_complete r c
    ∙ rw (es, gh, gl) (differing_halves hi lo (root_halves s) _ _ (root_halves-IsDigest s ds) ne)
