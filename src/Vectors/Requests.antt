-- ===== src/Vectors/Requests.antt =====
-- The request of a valid vector is valid.
use crucible_prover.Base.{
  ℕ, suc, ◌+◌, true, false, List, [], ◌∷◌, ◌++◌, Option, none, some, Text, codes, ok, ok_or,
  text_eq, bind-eq-ok, is_empty, All, length, length-append, ◌≡◌, refl, sym, ap, ◌∙◌, arith, ==_iff,
}
use crucible_prover.Bag
use crucible_prover.Bag.{Bag, PublicInputBag, PrivateWitnessBag, find_value, has, Distinct}
use crucible_prover.Bag.Lookup.{has-concat, insert-fresh}
use crucible_prover.Bag.Private
use crucible_prover.Field.{FieldValue, field_value_eq, SecretValue, secret_from_hex, validate_name}
use crucible_prover.Request.{
  ProofRequest, BackendId, backend_id, StateReference, WitnessError, root_halves, is_state_bound,
  validate, is_none,
}
use crucible_prover.Request.Root.{root_halves_any}
use crucible_prover.Request.Validation.{validate_iff}
use crucible_prover.Vectors.{
  TestVector, check_operation, check_apart, check_category, check_halves, check_vector_state,
  check_bound, validate_structure,
}
use crucible_prover.Vectors.Build.{collect_secrets, request_of, to_request_for}

-- A private entry that a bag takes: a valid name and a readable value.
abbrev pub IsReadable : Text × Text → Type 0
IsReadable e = (validate_name e.0 ≡ ok tt) × (s : SecretValue) × (secret_from_hex e.1 ≡ ok s)

-- No entry has a name of the bag.
abbrev Apart : List (Text × SecretValue) → List (Text × Text) → Type 0
Apart taken [] = Unit
Apart taken (e ∷ es) = (has e.0 taken ≡ false) × Apart taken es

Apart-concat :
    (taken : List (Text × SecretValue)) (n : Text) (s : SecretValue) (es : List (Text × Text))
    → Apart taken es
    → has n es ≡ false
    → Apart (taken ++ (n, s) ∷ []) es
Apart-concat taken n s [] a h = tt
Apart-concat taken n s ((m, x) ∷ es) (f, a) h = (
  ground (arith, has-concat m n s taken, ==_iff m n, ==_iff n m),
  Apart-concat taken n s es a (ground arith),
)

collect_secrets_readable :
    {E : Type 0} (bag : PrivateWitnessBag) (es : List (Text × Text))
    → All IsReadable es
    → Distinct es
    → Apart bag.entries es
    → (b : PrivateWitnessBag) × (collect_secrets {E = E} bag es ≡ ok b)
      × (length b.entries ≡ length bag.entries + length es)
unfolding collect_secrets
collect_secrets_readable {E} bag [] r d a = (bag, refl, omega arith)
collect_secrets_readable {E} bag ((n, x) ∷ es) ((v, s, e), r) (f, d) (g, a) =
    let next : PrivateWitnessBag = record { entries = bag.entries ++ (n, s) ∷ [] } in
    let inserted : Private.insert bag n s ≡ ok next =
      unfold Private.insert in insert-fresh bag n s v g in
    let (b, k, l) =
      collect_secrets_readable {E = E} next es r d (Apart-concat bag.entries n s es a f) in
    (b, rw (e, inserted) k, omega (arith, l, length-append bag.entries ((n, s) ∷ [])))

-- What the check of the state of a bound vector finds.
record HasState (v : TestVector) : Type 0 where
  state : StateReference
  hi : FieldValue
  lo : FieldValue
  submitted : v.state_reference ≡ some state
  high : Bag.get v.witness.public (codes "root_hi") ≡ some hi
  low : Bag.get v.witness.public (codes "root_lo") ≡ some lo
  halves : root_halves {E = WitnessError} state ≡ ok (hi, lo)

ok_or-ok : {E A : Type 0} (e : E) (o : Option A) {a : A} → ok_or e o ≡ ok a → o ≡ some a
ok_or-ok e none h = cc
ok_or-ok e (some b) h = ground arith

check_vector_state-HasState : (v : TestVector) → check_vector_state v ≡ ok tt → HasState v
unfolding check_vector_state check_halves
check_vector_state-HasState v h =
    let (state, s, h1) = bind-eq-ok (ok_or _ v.state_reference) _ h in
    let (halves, e, h2) = bind-eq-ok (root_halves state) _ h1 in
    let (hi, g, h3) = bind-eq-ok (ok_or _ (Bag.get v.witness.public (codes "root_hi"))) _ h2 in
    let (lo, k, h4) = bind-eq-ok (ok_or _ (Bag.get v.witness.public (codes "root_lo"))) _ h3 in
    let high : hi ≡ halves.0 = (==_iff hi halves.0).0 (ground arith) in
    let low : lo ≡ halves.1 = (==_iff lo halves.1).0 (ground arith) in
    record {
      state = state;
      hi = halves.0;
      lo = halves.1;
      submitted = ok_or-ok _ _ s;
      high = ok_or-ok _ _ g ∙ ap some high;
      low = ok_or-ok _ _ k ∙ ap some low;
      halves = root_halves_any state e;
    }

-- What `validate_structure` finds of a vector whose operation is bound to the state.
record IsStructured (v : TestVector) : Type 0 where
  has_private : is_empty v.witness.private ≡ false
  state : HasState v

structured :
    (v : TestVector)
    → is_state_bound v.operation ≡ true
    → validate_structure v ≡ ok tt
    → IsStructured v
unfolding validate_structure
structured v b h =
    let (_, o, h1) = bind-eq-ok (check_operation v) _ h in
    let (_, _, h2) = bind-eq-ok (check_apart v (Bag.names v.witness.public)) _ h1 in
    let (_, _, h3) = bind-eq-ok (check_category v) _ h2 in
    let (_, s, _) = bind-eq-ok (check_bound v (is_state_bound v.operation)) _ h3 in
    record {
      has_private = unfold check_operation in ground arith;
      state =
          check_vector_state-HasState v (unfold check_bound in (ap (check_bound v) (sym b) ∙ s));
    }

nonempty_length : {A : Type 0} (xs : List A) {n : ℕ} → length xs ≡ suc n → is_empty xs ≡ false
nonempty_length [] h = ground arith
nonempty_length (x ∷ xs) h = refl

found_nonempty :
    (bag : PublicInputBag) (n : Text) {v : FieldValue}
    → Bag.get bag n ≡ some v
    → Bag.is_empty bag ≡ false
unfolding Bag.get Bag.is_empty
found_nonempty bag n h = found bag.entries h
  where
    found :
        {v : FieldValue} (es : List (Text × FieldValue))
        → find_value n es ≡ some v
        → is_empty es ≡ false
    found [] h = cc
    found (e ∷ es) h = refl

-- A request with the state and the root words that the check found is complete and bound.
bound_request :
    (v : TestVector) (r : ProofRequest)
    → HasState v
    → Private.is_empty r.witness ≡ false
    → r.public_inputs ≡ v.witness.public
    → r.state_reference ≡ v.state_reference
    → validate r ≡ ok tt
bound_request v r s w p q = (validate_iff r).1 (
  record {
    has_witness = w;
    has_inputs = ap Bag.is_empty p ∙ found_nonempty v.witness.public (codes "root_hi") s.high;
    has_state = λ b. ap is_none (q ∙ s.submitted);
  },
  rw (q, p, s.submitted, s.high, s.low) s.halves,
)

private_nonempty :
    (b : PrivateWitnessBag) (es : List (Text × Text))
    → is_empty es ≡ false
    → length b.entries ≡ length es
    → Private.is_empty b ≡ false
unfolding Private.is_empty Bag.is_empty
private_nonempty b [] h l = cc
private_nonempty b (e ∷ es) h l = nonempty_length b.entries l

new-Apart : (es : List (Text × Text)) → Apart (Private.new).entries es
unfolding Private.new Bag.new
new-Apart [] = tt
new-Apart (e ∷ es) = (refl, new-Apart es)

length-new : length (Private.new).entries ≡ 0
unfolding Private.new Bag.new
length-new = refl

-- A vector that passes `validate_structure`, of an operation that is bound to the state, with
-- private entries of valid names that differ and readable values, makes for a valid backend id a
-- request that `validate` accepts.
pub to_request_for-valid :
    (v : TestVector) (backend : Text) {id : BackendId}
    → validate_structure v ≡ ok tt
    → is_state_bound v.operation ≡ true
    → All IsReadable v.witness.private
    → Distinct v.witness.private
    → backend_id backend ≡ ok id
    → (r : ProofRequest) × (to_request_for {E = WitnessError} v backend ≡ ok r)
      × (r.public_inputs ≡ v.witness.public)
      × (validate r ≡ ok tt)
unfolding to_request_for
to_request_for-valid v backend {id} h b a d i =
    let s = structured v b h in
    let (w, k, l) =
      collect_secrets_readable {E = WitnessError} Private.new v.witness.private a d
        (new-Apart v.witness.private) in
    let full = private_nonempty w v.witness.private s.has_private (omega (arith, l, length-new)) in
    (
      request_of v w id,
      rw (k, i) refl,
      refl,
      bound_request v (request_of v w id) s.state full refl refl,
    )
