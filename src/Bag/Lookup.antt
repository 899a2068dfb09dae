-- ===== src/Bag/Lookup.antt =====
-- Names in a bag stay valid and distinct, and what a lookup finds after an insertion or a write.
use crucible_prover.Base.{
  true, false, ◌||◌, List, [], ◌∷◌, ◌++◌, none, some, Text, ok, err, ◌==◌, text_eq, if◌then◌else◌,
  arith, ◌≡◌, ◌≢◌, ◌↔◌, refl, All, ◌⊎◌, inl, inr, is_ok,
}
use crucible_prover.Field.{duplicate_name, validate_name}
use crucible_prover.Bag
use crucible_prover.Bag.{Bag, has, find_value, overwrite, keys, Distinct}

no_duplicate_error : (n : Text) → validate_name n ≢ err (duplicate_name n)
unfolding validate_name
no_duplicate_error n = ground arith

module _ {V : Type 0} where
  abbrev pub HasValidName : Text × V → Type 0
  HasValidName e = validate_name e.0 ≡ ok tt

  pub record IsWellFormed (bag : Bag V) : Type 0 where
    pub valid : All HasValidName bag.entries
    pub distinct : Distinct bag.entries

  pub has-concat :
      (m n : Text) (v : V) (es : List (Text × V)) → has m (es ++ (n, v) ∷ []) ≡ (has m es || n == m)
  has-concat m n v [] = ground arith
  has-concat m n v ((k, w) ∷ es) = ground (arith, has-concat m n v es)

  Distinct-concat :
      (n : Text) (v : V) (es : List (Text × V))
      → Distinct es
      → has n es ≡ false
      → Distinct (es ++ (n, v) ∷ [])
  Distinct-concat n v [] d h = (refl, tt)
  Distinct-concat n v ((k, w) ∷ es) d h =
      ground (arith, has-concat k n v es, Distinct-concat n v es d.1)

  has-overwrite :
      (m n : Text) (v : V) (es : List (Text × V)) → has m (overwrite n v es) ≡ (has m es || n == m)
  has-overwrite m n v [] = ground arith
  has-overwrite m n v ((k, w) ∷ es) = ground (arith, has-overwrite m n v es)

  Distinct-overwrite :
      (n : Text) (v : V) (es : List (Text × V)) → Distinct es → Distinct (overwrite n v es)
  Distinct-overwrite n v [] d = (refl, tt)
  Distinct-overwrite n v ((k, w) ∷ es) d =
      ground (arith, has-overwrite k n v es, Distinct-overwrite n v es d.1)

  All-concat :
      (n : Text) (v : V) (es : List (Text × V))
      → All HasValidName es
      → validate_name n ≡ ok tt
      → All HasValidName (es ++ (n, v) ∷ [])
  All-concat n v [] a h = (h, tt)
  All-concat n v ((k, w) ∷ es) a h = (a.0, All-concat n v es a.1 h)

  All-overwrite :
      (n : Text) (v : V) (es : List (Text × V))
      → All HasValidName es
      → validate_name n ≡ ok tt
      → All HasValidName (overwrite n v es)
  All-overwrite n v [] a h = (h, tt)
  All-overwrite n v ((k, w) ∷ es) a h = ground (arith, All-overwrite n v es a.1 h)

  -- What `insert` returns, on every branch.
  pub insert_cases :
      (bag : Bag V) (n : Text) (v : V) {b : Bag V}
      → Bag.insert bag n v ≡ ok b
      → (validate_name n ≡ ok tt)
        × (has n bag.entries ≡ false)
        × (b ≡ record { entries = bag.entries ++ (n, v) ∷ [] })
  unfolding Bag.insert
  insert_cases bag n v h = ground arith

  pub insert-fresh :
      (bag : Bag V) (n : Text) (v : V)
      → validate_name n ≡ ok tt
      → has n bag.entries ≡ false
      → Bag.insert bag n v ≡ ok (record { entries = bag.entries ++ (n, v) ∷ [] })
  unfolding Bag.insert
  insert-fresh bag n v h k = ground arith

  pub set_cases :
      (bag : Bag V) (n : Text) (v : V) {b : Bag V}
      → Bag.set bag n v ≡ ok b
      → (validate_name n ≡ ok tt) × (b ≡ record { entries = overwrite n v bag.entries })
  unfolding Bag.set
  set_cases bag n v h = ground arith

  -- A successful insertion or write keeps a bag well formed: every name is valid and none stands
  -- twice.
  pub update-IsWellFormed :
      (bag : Bag V) (n : Text) (v : V) {b : Bag V}
      → IsWellFormed bag
      → (Bag.insert bag n v ≡ ok b) ⊎ (Bag.set bag n v ≡ ok b)
      → IsWellFormed b
  update-IsWellFormed bag n v w (inl h) =
      let (valid, fresh, e) = insert_cases bag n v h in
      rw e (record {
        valid = All-concat n v bag.entries w.valid valid;
        distinct = Distinct-concat n v bag.entries w.distinct fresh;
      })
  update-IsWellFormed bag n v w (inr h) =
      let (valid, e) = set_cases bag n v h in
      rw e (record {
        valid = All-overwrite n v bag.entries w.valid valid;
        distinct = Distinct-overwrite n v bag.entries w.distinct;
      })

  find_value-concat :
      (m n : Text) (v : V) (es : List (Text × V))
      → has n es ≡ false
      → find_value m (es ++ (n, v) ∷ []) ≡ (if n == m then some v else find_value m es)
  find_value-concat m n v [] h = refl
  find_value-concat m n v ((k, w) ∷ es) h = ground (arith, find_value-concat m n v es)

  keys-append : (es fs : List (Text × V)) → keys (es ++ fs) ≡ keys es ++ keys fs
  keys-append [] fs = refl
  keys-append ((k, w) ∷ es) fs = ground (arith, keys-append es fs)

  -- After a successful insertion the name is bound to the value and stands last among the names;
  -- every other name is bound as before.
  pub get-insert :
      (bag : Bag V) (n m : Text) (v : V) {b : Bag V}
      → Bag.insert bag n v ≡ ok b
      → (Bag.get b m ≡ (if n == m then some v else Bag.get bag m))
        × (Bag.names b ≡ Bag.names bag ++ n ∷ [])
  unfolding Bag.get Bag.names
  get-insert bag n m v h =
      let (valid, fresh, e) = insert_cases bag n v h in
      (rw e (find_value-concat m n v bag.entries fresh), rw e (keys-append bag.entries _))

  find_value-overwrite :
      (m n : Text) (v : V) (es : List (Text × V))
      → find_value m (overwrite n v es) ≡ (if n == m then some v else find_value m es)
  find_value-overwrite m n v [] = refl
  find_value-overwrite m n v ((k, w) ∷ es) = ground (arith, find_value-overwrite m n v es)

  keys-overwrite :
      (n : Text) (v : V) (es : List (Text × V))
      → keys (overwrite n v es) ≡ (if has n es then keys es else keys es ++ n ∷ [])
  keys-overwrite n v [] = refl
  keys-overwrite n v ((k, w) ∷ es) = ground (arith, keys-overwrite n v es)

  -- After a successful write the name is bound to the value and every other name as before; the
  -- order of the names is kept, and a new name stands last.
  pub get-set :
      (bag : Bag V) (n m : Text) (v : V) {b : Bag V}
      → Bag.set bag n v ≡ ok b
      → (Bag.get b m ≡ (if n == m then some v else Bag.get bag m))
        × (Bag.names b ≡ (if has n bag.entries then Bag.names bag else Bag.names bag ++ n ∷ []))
  unfolding Bag.get Bag.names
  get-set bag n m v h =
      let (valid, e) = set_cases bag n v h in
      (rw e (find_value-overwrite m n v bag.entries), rw e (keys-overwrite n v bag.entries))

  pub has-find_value :
      (n : Text) (es : List (Text × V)) → (has n es ≡ false) ↔ (find_value n es ≡ none)
  has-find_value n [] = (λ _. refl, λ _. refl)
  has-find_value n ((k, w) ∷ es) = ground (arith, has-find_value n es)

  -- `insert` succeeds exactly for a valid name that the bag does not hold. It reports a duplicate
  -- exactly for a valid name that the bag holds.
  pub insert_iff :
      (bag : Bag V) (n : Text) (v : V)
      → ((is_ok (Bag.insert bag n v) ≡ true) ↔ ((validate_name n ≡ ok tt) × (Bag.get bag n ≡ none)))
        × ((Bag.insert bag n v ≡ err (duplicate_name n))
            ↔ ((validate_name n ≡ ok tt) × (Bag.get bag n ≢ none)))
  unfolding Bag.insert Bag.get
  insert_iff bag n v = (
    ground (arith, has-find_value n bag.entries),
    (
      λ h. (
        ground (arith, no_duplicate_error n),
        ground (arith, no_duplicate_error n, has-find_value n bag.entries),
      ),
      λ h. ground (arith, has-find_value n bag.entries),
    ),
  )
