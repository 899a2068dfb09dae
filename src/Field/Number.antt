-- ===== src/Field/Number.antt =====
-- The number that a field value spells: `from_hex` keeps it, and equal numbers have equal values.
use crucible_prover.Base.{
  ℕ, zero, suc, ◌+◌, ◌-◌, ◌*◌, ◌≤◌, ◌<◌, ◌⊎◌, true, [], ◌∷◌, ◌++◌, ◌≡◌, ◌≢◌, ◌↔◌, refl, ap, sym,
  ◌∙◌, Text, ok, leb, if◌then◌else◌, all, length, take, drop, trim_start_matches,
  to_ascii_lowercase, is_ascii_hexdigit, map, arith, inl, inr, take-append-drop, length-drop,
  all-drop,
}
use crucible_prover.Field.{FieldValue, from_hex, strip_0x, canonical}
use crucible_prover.Field.Canonical.{
  is_lower_hexdigit, IsMinimal, IsCanonical, from_hex-inv, from_hex-IsCanonical,
}

-- The digit that a hexadecimal character stands for, in either case.
pub digit : ℕ → ℕ
digit c = if leb c b'9' then c - b'0' else if leb c b'F' then c - 55 else c - 87

-- The digits of a text behind the number `n`.
unfoldable pub number_onto : ℕ → Text → ℕ
number_onto n [] = n
number_onto n (c ∷ s) = number_onto (n * 16 + digit c) s

unfoldable pub number : Text → ℕ
number s = number_onto 0 s

digit_lowercase : (c : ℕ) → is_ascii_hexdigit c ≡ true → digit (to_ascii_lowercase c) ≡ digit c
unfolding digit is_ascii_hexdigit to_ascii_lowercase
digit_lowercase c h = ground arith

number_lowercase :
    (n : ℕ) (s : Text)
    → all is_ascii_hexdigit s ≡ true
    → number_onto n (map to_ascii_lowercase s) ≡ number_onto n s
unfolding number_onto
number_lowercase n [] h = refl
number_lowercase n (c ∷ s) h =
    ground (arith, digit_lowercase c, number_lowercase (n * 16 + digit c) s)

number_trim : (s : Text) → number (trim_start_matches b'0' s) ≡ number s
unfolding number number_onto trim_start_matches digit
number_trim [] = refl
number_trim (c ∷ s) = ground (arith, number_trim s)

pub number-canonical : (s : Text) → all is_ascii_hexdigit s ≡ true → number (canonical s) ≡ number s
unfolding canonical number number_onto digit
number-canonical s h = ground (arith, number_trim (map to_ascii_lowercase s), number_lowercase 0 s)

-- Canonicalization keeps the number that the text spells.
pub number-from_hex :
    (s : Text) {v : FieldValue} → from_hex s ≡ ok v → number v.hex ≡ number (strip_0x s)
number-from_hex s h =
    let (i, e) = from_hex-inv s h in rw e (number-canonical (strip_0x s) i.hexdigits)

digit_injective :
    (c d : ℕ) → is_lower_hexdigit c ≡ true → is_lower_hexdigit d ≡ true → digit c ≡ digit d → c ≡ d
unfolding digit
digit_injective c d h k e = ground arith

digit-lt : (c : ℕ) → is_lower_hexdigit c ≡ true → digit c < 16
unfolding digit
digit-lt c h = ground arith

le-number : (n : ℕ) (s : Text) → n ≤ number_onto n s
unfolding number_onto
le-number n [] = omega arith
le-number n (c ∷ s) = omega (arith, le-number (n * 16 + digit c) s)

-- Texts of one length that spell one number are equal, and so are the numbers before them.
pub number_injective :
    (n m : ℕ) (s t : Text)
    → all is_lower_hexdigit s ≡ true
    → all is_lower_hexdigit t ≡ true
    → length s ≡ length t
    → number_onto n s ≡ number_onto m t
    → (n ≡ m) × (s ≡ t)
unfolding number_onto
number_injective n m [] [] h k l e = (e, refl)
number_injective n m [] (d ∷ t) h k l e = absurd (omega arith)
number_injective n m (c ∷ s) [] h k l e = absurd (omega arith)
number_injective n m (c ∷ s) (d ∷ t) h k l e = ground (
  arith,
  number_injective (n * 16 + digit c) (m * 16 + digit d) s t,
  digit-lt c,
  digit-lt d,
  digit_injective c d,
)

number-append : (n : ℕ) (s t : Text) → number_onto n (s ++ t) ≡ number_onto (number_onto n s) t
unfolding number_onto
number-append n [] t = refl
number-append n (c ∷ s) t = number-append (n * 16 + digit c) s t

leading_positive :
    (k : ℕ) (t : Text)
    → all is_lower_hexdigit t ≡ true
    → IsMinimal t
    → 0 < k
    → 1 < length t
    → 0 < number (take k t)
unfolding number number_onto digit
leading_positive zero t h m p l = absurd (omega arith)
leading_positive (suc k) [] h m p l = absurd m
leading_positive (suc k) (c ∷ []) h m p l = absurd (omega arith)
leading_positive (suc k) (c ∷ d ∷ t) h m p l =
    ground (arith, le-number (0 * 16 + digit c) (take k (d ∷ t)))

minimal_positive : (s : Text) → IsMinimal s → 0 < length s
minimal_positive [] m = absurd m
minimal_positive (c ∷ s) m = omega arith

-- A longer canonical text spells another number.
number_longer :
    (s t : Text)
    → all is_lower_hexdigit s ≡ true
    → all is_lower_hexdigit t ≡ true
    → IsMinimal s
    → IsMinimal t
    → length s < length t
    → number s ≢ number t
unfolding number
number_longer s t h k m n l e =
    let cut = length t - length s in
    let whole : number_onto 0 s ≡ number_onto (number_onto 0 (take cut t)) (drop cut t) =
      e
      ∙ ap (number_onto 0) (sym (take-append-drop cut t))
      ∙ number-append 0 (take cut t) (drop cut t) in
    let (zero_head, _) =
      number_injective 0 (number_onto 0 (take cut t)) s (drop cut t) h
        (all-drop is_lower_hexdigit cut t k) (omega (arith, length-drop cut t)) whole in
    absurd (
      omega (arith, leading_positive cut t k n (omega arith) (omega (arith, minimal_positive s m))))

number_canonical_injective :
    (v w : FieldValue) → IsCanonical v → IsCanonical w → number v.hex ≡ number w.hex → v ≡ w
unfolding number
number_canonical_injective v w a b e = elim (lt_cases (length v.hex) (length w.hex)) [
  | inl shorter ↦ absurd (number_longer v.hex w.hex a.digits b.digits a.minimal b.minimal shorter e)
  | inr (inl longer) ↦
      absurd (number_longer w.hex v.hex b.digits a.digits b.minimal a.minimal longer (sym e))
  | inr (inr same) ↦ cc ((number_injective 0 0 v.hex w.hex a.digits b.digits same e).1)
]
  where
    lt_cases : (m n : ℕ) → (m < n) ⊎ ((n < m) ⊎ (m ≡ n))
    lt_cases m n = ground arith

-- Two texts are read as one value exactly when they spell one number: leading zeros, the case of
-- the digits and the prefix `0x` do not matter, and nothing else is identified.
pub from_hex-eq_iff :
    (s t : Text) {v w : FieldValue}
    → from_hex s ≡ ok v
    → from_hex t ≡ ok w
    → (v ≡ w) ↔ (number (strip_0x s) ≡ number (strip_0x t))
from_hex-eq_iff s t {v} {w} h k = (
  λ e. sym (number-from_hex s h) ∙ ap (λ x. number (FieldValue.hex x)) e ∙ number-from_hex t k,
  λ e.
      number_canonical_injective v w (from_hex-IsCanonical s h) (from_hex-IsCanonical t k)
        (number-from_hex s h ∙ e ∙ sym (number-from_hex t k)),
)
