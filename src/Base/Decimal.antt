-- ===== src/Base/Decimal.antt =====
-- The standard library's `Display` and `FromStr` of `u32`, and `str::split`.
use Prim.Native.Nat.{ℕ, zero, suc, ◌+◌, ◌-◌, ◌*◌, ◌/◌, ◌%◌, ◌^◌, ◌≤◌, ◌<◌}
use mathlib.Core.Path.{◌≡◌, refl, ◌∙◌, ap, sym}
use mathlib.Core.Bool.{true, false, not, ◌&&◌}
use mathlib.Core.List.{[], ◌∷◌, ◌++◌, append-nil, append_assoc}
use mathlib.Core.Logic.{◌≢◌}
use mathlib.Core.Option.{Option, none, some}
use native.Mathlib.Omega.{arith}
use crucible_prover.Base.Tests.{ltb, if◌then◌else◌, ◌==◌, nat_eq}
use crucible_prover.Base.Lists.{all, is_empty}
use crucible_prover.Base.Strings.{Text, is_ascii_digit, split, split_onto}

abbrev pub u32_modulus : ℕ
u32_modulus = 2 ^ 32

-- The digits of `n` in front of `out`; a fuel of `n` is enough.
digits_onto : ℕ → ℕ → Text → Text
digits_onto zero n out = out
digits_onto (suc f) n out = elim (n == 0) [
  | true ↦ out
  | false ↦ digits_onto f (n / 10) ((b'0' + n % 10) ∷ out)
]

unfoldable pub show_u32 : ℕ → Text
unfolding digits_onto
show_u32 n = if n == 0 then b'0' ∷ [] else digits_onto n n []

-- The checked multiplication and addition refuse a value that does not fit.
read_digits : ℕ → ℕ → Text → Option ℕ
read_digits limit n [] = some n
read_digits limit n (c ∷ s) =
    let m = n * 10 + (c - b'0') in
    let rest = read_digits limit m s in if is_ascii_digit c && ltb m limit then rest else none

-- The `FromStr` of an unsigned type whose values are below the limit. A sign `+` may stand in front.
unfoldable pub read_below : ℕ → Text → Option ℕ
unfolding read_digits is_ascii_digit
read_below limit [] = none
read_below limit (c ∷ s) =
    if c == b'+'
    then (if is_empty s then none else read_digits limit 0 s)
    else read_digits limit 0 (c ∷ s)

unfoldable pub read_u32 : Text → Option ℕ
unfolding read_below
read_u32 s = read_below u32_modulus s

read_last :
    (n : ℕ) (out : Text)
    → n < u32_modulus
    → read_digits u32_modulus (n / 10) ((b'0' + n % 10) ∷ out) ≡ read_digits u32_modulus n out
unfolding read_digits is_ascii_digit
read_last n out h = ground arith

read-digits_onto :
    (f n : ℕ) (out : Text)
    → n ≤ f
    → n < u32_modulus
    → read_digits u32_modulus 0 (digits_onto f n out) ≡ read_digits u32_modulus n out
unfolding digits_onto
read-digits_onto zero n out h k = ground arith
read-digits_onto (suc f) n out h k =
    ground (arith, read-digits_onto f (n / 10) ((b'0' + n % 10) ∷ out), read_last n out)

digits_onto-digits :
    (f n : ℕ) (out : Text)
    → all is_ascii_digit out ≡ true
    → all is_ascii_digit (digits_onto f n out) ≡ true
unfolding digits_onto is_ascii_digit
digits_onto-digits zero n out h = h
digits_onto-digits (suc f) n out h =
    ground (arith, digits_onto-digits f (n / 10) ((b'0' + n % 10) ∷ out))

pub show_u32-digits : (n : ℕ) → all is_ascii_digit (show_u32 n) ≡ true
unfolding show_u32 is_ascii_digit
show_u32-digits n = ground (arith, digits_onto-digits n n [])

digits_onto-nonempty :
    (f n : ℕ) (out : Text) → is_empty out ≡ false → is_empty (digits_onto f n out) ≡ false
unfolding digits_onto
digits_onto-nonempty zero n out h = h
digits_onto-nonempty (suc f) n out h =
    ground (arith, digits_onto-nonempty f (n / 10) ((b'0' + n % 10) ∷ out))

positive_nonempty : (n : ℕ) → n ≢ 0 → is_empty (digits_onto n n []) ≡ false
unfolding digits_onto
positive_nonempty zero h = absurd (h refl)
positive_nonempty (suc n) h =
    ground (arith, digits_onto-nonempty n (suc n / 10) ((b'0' + suc n % 10) ∷ []))

pub show_u32-nonempty : (n : ℕ) → is_empty (show_u32 n) ≡ false
unfolding show_u32
show_u32-nonempty n = ground (arith, positive_nonempty n)

read_plain :
    (s : Text)
    → is_empty s ≡ false
    → all is_ascii_digit s ≡ true
    → (read_u32 s ≡ read_digits u32_modulus 0 s)
      × (read_u32 (b'+' ∷ s) ≡ read_digits u32_modulus 0 s)
unfolding read_u32 is_ascii_digit
read_plain [] h k = cc
read_plain (c ∷ s) h k = ground arith

read_digits-show_u32 : (n : ℕ) → n < u32_modulus → read_digits u32_modulus 0 (show_u32 n) ≡ some n
unfolding show_u32 read_digits is_ascii_digit
read_digits-show_u32 n h = ground (arith, read-digits_onto n n [])

pub read-show_u32 :
    (n : ℕ)
    → n < u32_modulus
    → (read_u32 (show_u32 n) ≡ some n) × (read_u32 (b'+' ∷ show_u32 n) ≡ some n)
read-show_u32 n h =
    let (bare, signed) = read_plain (show_u32 n) (show_u32-nonempty n) (show_u32-digits n) in
    (bare ∙ read_digits-show_u32 n h, signed ∙ read_digits-show_u32 n h)

read_digits-lt :
    (limit n : ℕ) (s : Text) {m : ℕ} → n < limit → read_digits limit n s ≡ some m → m < limit
unfolding read_digits
read_digits-lt limit n [] h e = ground arith
read_digits-lt limit n (c ∷ s) {m} h e =
    ground (arith, read_digits-lt limit (n * 10 + (c - b'0')) s {m = m})

pub read_below-lt :
    (limit : ℕ) (s : Text) {m : ℕ} → 0 < limit → read_below limit s ≡ some m → m < limit
unfolding read_below
read_below-lt limit [] h e = cc
read_below-lt limit (c ∷ s) {m} h e =
    ground (arith, read_digits-lt limit 0 s {m = m}, read_digits-lt limit 0 (c ∷ s) {m = m})

pub read_u32-lt : (s : Text) {m : ℕ} → read_u32 s ≡ some m → m < u32_modulus
unfolding read_u32
read_u32-lt s {m} e = read_below-lt u32_modulus s {m = m} (omega arith) e

split_onto-plain :
    (sep : ℕ) (s part : Text)
    → all (λ c. not (c == sep)) s ≡ true
    → split_onto sep s part ≡ (part ++ s) ∷ []
unfolding split_onto
split_onto-plain sep [] part h = ap (λ p. p ∷ []) (sym (append-nil part))
split_onto-plain sep (c ∷ s) part h =
    ground (arith, split_onto-plain sep s (part ++ c ∷ []), append_assoc part (c ∷ []) s)

split_onto-append :
    (sep : ℕ) (s rest part : Text)
    → all (λ c. not (c == sep)) s ≡ true
    → split_onto sep (s ++ sep ∷ rest) part ≡ (part ++ s) ∷ split_onto sep rest []
unfolding split_onto
split_onto-append sep [] rest part h = ground (arith, append-nil part)
split_onto-append sep (c ∷ s) rest part h =
    ground (arith, split_onto-append sep s rest (part ++ c ∷ []), append_assoc part (c ∷ []) s)

-- A part that holds no separator is split off whole.
pub split_part :
    (sep : ℕ) (s rest : Text)
    → all (λ c. not (c == sep)) s ≡ true
    → (split sep s ≡ s ∷ []) × (split sep (s ++ sep ∷ rest) ≡ s ∷ split sep rest)
unfolding split
split_part sep s rest h = (split_onto-plain sep s [] h, split_onto-append sep s rest [] h)
