-- ===== src/Request/Root.antt =====
-- State roots and their halves.
use crucible_prover.Base.{
  Result, err, Option, none, some, expect, ◌>>=◌, split_at, true, ok, Text, ◌≡◌, ◌↔◌, sym, ap, ◌∙◌,
  len, all, length, length-map, take, drop, map, ltb, arith, split_at_ascii, is_ascii_hexdigit,
  to_ascii_lowercase, all-take, all-drop, length-take, length-drop, take-append-drop, all_mono,
  panicked, ◌≢◌,
}
use crucible_prover.Field.{FieldError, FieldValue, from_hex, strip_0x, canonical}
use crucible_prover.Field.Canonical.{
  is_lower_hexdigit, IsHex, len_hex, lowercase_digits, lower_hexdigits, strip_0x_digits,
  from_hex_accepts,
}
use crucible_prover.Field.Number.{number, number_injective, number-canonical}
use crucible_prover.Request.{RootDigest, root_from_hex, StateReference, halves_of, root_halves}

-- 64 lowercase hexadecimal digits.
pub record IsDigest (r : RootDigest) : Type 0 where
  pub whole : length r.hex ≡ 64
  pub digits : all is_lower_hexdigit r.hex ≡ true

root_from_hex-inv :
    (s : Text) {r : RootDigest}
    → root_from_hex s ≡ ok r
    → (len (strip_0x s) ≡ 64)
      × (all is_ascii_hexdigit (strip_0x s) ≡ true)
      × (r.hex ≡ map to_ascii_lowercase (strip_0x s))
unfolding root_from_hex
root_from_hex-inv s {r} h = ground arith

-- An accepted root is 64 lowercase hexadecimal digits, whatever its case or prefix were.
pub root_from_hex-IsDigest : (s : Text) {r : RootDigest} → root_from_hex s ≡ ok r → IsDigest r
root_from_hex-IsDigest s {r} h =
    let (l, d, e) = root_from_hex-inv s {r = r} h in
    record {
      whole = rw e (length-map to_ascii_lowercase (strip_0x s) ∙ sym (len_hex (strip_0x s) d) ∙ l);
      digits = rw e (lowercase_digits (strip_0x s) d);
    }

lower_ascii : (s : Text) → all is_lower_hexdigit s ≡ true → all (λ c. ltb c 0x80) s ≡ true
lower_ascii s h = all_mono is_lower_hexdigit _ s (λ c k. ground arith) h

unfoldable pub half_value : Text → FieldValue
half_value s = record { hex = canonical s }

from_hex-half :
    (s : Text) → length s ≡ 32 → all is_lower_hexdigit s ≡ true → from_hex s ≡ ok (half_value s)
unfolding half_value
from_hex-half s l h =
    let bare = strip_0x_digits s h in
    let accepted : IsHex s = record {
      nonempty = ground arith;
      short = omega arith;
      hexdigits = (lower_hexdigits s h).0;
    } in
    from_hex_accepts s (rw bare accepted) ∙ rw bare

-- The halves of a digest, as `split_at` and `from_hex` give them.
pub root_halves-IsDigest :
    {E : Type 0} (s : StateReference)
    → IsDigest s.root
    → root_halves {E = E} s ≡ ok (half_value (take 32 s.root.hex), half_value (drop 32 s.root.hex))
unfolding root_halves
root_halves-IsDigest s d =
    let hex = s.root.hex in
    rw (split_at_ascii 32 hex (lower_ascii hex d.digits) (omega arith)) (
      rw (
        from_hex-half (take 32 hex) (omega (arith, length-take 32 hex))
            (all-take is_lower_hexdigit 32 hex d.digits),
        from_hex-half (drop 32 hex) (omega (arith, length-drop 32 hex))
            (all-drop is_lower_hexdigit 32 hex d.digits),
      ))

half_injective :
    (s t : Text)
    → all is_lower_hexdigit s ≡ true
    → all is_lower_hexdigit t ≡ true
    → length s ≡ length t
    → half_value s ≡ half_value t
    → s ≡ t
unfolding half_value number
half_injective s t h k l e =
    let same : number s ≡ number t =
      sym (number-canonical s (lower_hexdigits s h).0)
      ∙ ap (λ v. number (FieldValue.hex v)) e
      ∙ number-canonical t (lower_hexdigits t k).0 in
    (number_injective 0 0 s t h k l same).1

-- Two state references of well-formed roots have the same halves exactly when they have the same
-- root, and the computation of the halves never panics on such a root.
pub root_halves_iff :
    {E : Type 0} (s t : StateReference)
    → IsDigest s.root
    → IsDigest t.root
    → ((root_halves {E = E} s ≡ root_halves {E = E} t) ↔ (s.root ≡ t.root))
      × (root_halves {E = E} s ≢ panicked)
root_halves_iff {E} s t a b = (
  (
    λ e.
        let halves =
          sym (root_halves-IsDigest {E = E} s a) ∙ e ∙ root_halves-IsDigest {E = E} t b in
        same_root
          (half_injective (take 32 s.root.hex) (take 32 t.root.hex)
            (all-take is_lower_hexdigit 32 s.root.hex a.digits)
            (all-take is_lower_hexdigit 32 t.root.hex b.digits)
            (omega (arith, length-take 32 s.root.hex, length-take 32 t.root.hex)) (cc halves))
          (half_injective (drop 32 s.root.hex) (drop 32 t.root.hex)
            (all-drop is_lower_hexdigit 32 s.root.hex a.digits)
            (all-drop is_lower_hexdigit 32 t.root.hex b.digits)
            (omega (arith, length-drop 32 s.root.hex, length-drop 32 t.root.hex)) (cc halves)),
    λ e. root_halves-IsDigest {E = E} s a ∙ (rw e) ∙ sym (root_halves-IsDigest {E = E} t b),
  ),
  λ e. cc (root_halves-IsDigest {E = E} s a),
)
  where
    same_root :
        take 32 s.root.hex ≡ take 32 t.root.hex
        → drop 32 s.root.hex ≡ drop 32 t.root.hex
        → s.root ≡ t.root
    same_root e f = cc (take-append-drop 32 s.root.hex, take-append-drop 32 t.root.hex)

pair_of :
    {E : Type 0}
    → Result FieldError FieldValue
    → Result FieldError FieldValue
    → Result E (FieldValue × FieldValue)
pair_of a b = do hi ← expect a; lo ← expect b; ok (hi, lo)

pair_of_any :
    {E F : Type 0} (a b : Result FieldError FieldValue) {h : FieldValue × FieldValue}
    → pair_of {E = E} a b ≡ ok h
    → pair_of {E = F} a b ≡ ok h
unfolding pair_of
pair_of_any (ok a) (ok b) h = ground arith
pair_of_any (ok a) (err e) h = cc
pair_of_any (ok a) panicked h = cc
pair_of_any (err e) b h = cc
pair_of_any panicked b h = cc

halves_any :
    {E F : Type 0} (o : Option (Text × Text)) {h : FieldValue × FieldValue}
    → halves_of {E = E} o ≡ ok h
    → halves_of {E = F} o ≡ ok h
unfolding halves_of
halves_any none h = cc
halves_any (some (high, low)) {h = p} h =
    unfold pair_of in pair_of_any (from_hex high) (from_hex low) {h = p} h

-- The halves are the same whatever the errors around them are.
pub root_halves_any :
    {E F : Type 0} (s : StateReference) {h : FieldValue × FieldValue}
    → root_halves {E = E} s ≡ ok h
    → root_halves {E = F} s ≡ ok h
unfolding root_halves
root_halves_any s h = halves_any (split_at 32 s.root.hex) h
