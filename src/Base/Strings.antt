-- ===== src/Base/Strings.antt =====
-- Rust strings. A `String` is the list of its code points, and `len` counts the bytes of its UTF-8
-- form; a test of all bytes for an ASCII class is the test of all code points for it.
use Prim.Native.Char.{code}
use Prim.Native.String.{String}
use Prim.Native.Nat.{ℕ, zero, suc, ◌+◌, ◌-◌, ◌/◌, ◌%◌, ◌≤◌}
use mathlib.Core.Path.{◌≡◌, refl}
use mathlib.Core.Bool.{Bool, true, false, not, ◌&&◌, ◌||◌}
use mathlib.Core.List.{List, [], ◌∷◌, ◌++◌}
use mathlib.Core.Option.{Option, none, some}
use native.Mathlib.Omega.{arith}
use crucible_prover.Base.Tests.{ltb, leb, if◌then◌else◌, ◌==◌, nat_eq}
use crucible_prover.Base.Lists.{length, all, take, drop}

abbrev pub Text : Type 0
Text = List ℕ

abbrev pub Bytes : Type 0
Bytes = List ℕ

-- The code points of a literal.
abbrev pub codes : String → Text
codes String.[] = []
codes (String.◌∷◌ c s) = code c ∷ codes s

abbrev pub utf8_len : ℕ → ℕ
utf8_len c = if ltb c 0x80 then 1 else if ltb c 0x800 then 2 else if ltb c 0x10000 then 3 else 4

-- The UTF-8 form of a code point, and `str::as_bytes`.
utf8 : ℕ → Bytes
utf8 c =
    if ltb c 0x80
    then c ∷ []
    else if ltb c 0x800
    then (0xc0 + c / 64) ∷ (0x80 + c % 64) ∷ []
    else if ltb c 0x10000
    then (0xe0 + c / 4096) ∷ (0x80 + c / 64 % 64) ∷ (0x80 + c % 64) ∷ []
    else (0xf0 + c / 262144) ∷ (0x80 + c / 4096 % 64) ∷ (0x80 + c / 64 % 64) ∷ (0x80 + c % 64) ∷ []

unfoldable pub as_bytes : Text → Bytes
unfolding utf8
as_bytes [] = []
as_bytes (c ∷ s) = utf8 c ++ as_bytes s

-- `str::len`, in bytes.
unfoldable pub len : Text → ℕ
len [] = 0
len (c ∷ s) = utf8_len c + len s

abbrev pub within : ℕ → ℕ → ℕ → Bool
within lo hi c = leb lo c && leb c hi

unfoldable pub is_ascii_digit : ℕ → Bool
is_ascii_digit c = within b'0' b'9' c

unfoldable pub is_ascii_lowercase : ℕ → Bool
is_ascii_lowercase c = within b'a' b'z' c

unfoldable pub is_ascii_alphanumeric : ℕ → Bool
is_ascii_alphanumeric c = within b'0' b'9' c || within b'A' b'Z' c || within b'a' b'z' c

unfoldable pub is_ascii_hexdigit : ℕ → Bool
is_ascii_hexdigit c = within b'0' b'9' c || within b'A' b'F' c || within b'a' b'f' c

unfoldable pub to_ascii_lowercase : ℕ → ℕ
to_ascii_lowercase c = if within b'A' b'Z' c then c + 32 else c

unfoldable pub strip_prefix : Text → Text → Option Text
strip_prefix [] s = some s
strip_prefix (p ∷ ps) [] = none
strip_prefix (p ∷ ps) (c ∷ s) = if p == c then strip_prefix ps s else none

unfoldable pub trim_start_matches : ℕ → Text → Text
trim_start_matches c [] = []
trim_start_matches c (d ∷ s) = if d == c then trim_start_matches c s else d ∷ s

-- `&s[..n]` and `&s[n..]`, where byte `n` stands between two characters; `none` is the panic.
unfoldable pub split_at : ℕ → Text → Option (Text × Text)
split_at n [] = if n == 0 then some ([], []) else none
split_at n (c ∷ s) =
    let rest = split_at (n - utf8_len c) s in
    if n == 0
    then some ([], c ∷ s)
    else if ltb n (utf8_len c)
    then none
    else elim rest [ none ↦ none | some (a, b) ↦ some (c ∷ a, b) ]

unfoldable pub split_onto : ℕ → Text → Text → List Text
split_onto sep [] part = part ∷ []
split_onto sep (c ∷ s) part = elim (c == sep) [
  | true ↦ part ∷ split_onto sep s []
  | false ↦ split_onto sep s (part ++ c ∷ [])
]

-- The parts of `s.split(sep)`: always at least one.
unfoldable pub split : ℕ → Text → List Text
unfolding split_onto
split sep s = split_onto sep s []

pub len_ascii : (s : Text) → all (λ c. ltb c 0x80) s ≡ true → len s ≡ length s
unfolding len
len_ascii [] h = refl
len_ascii (c ∷ s) h = ground (arith, len_ascii s)

pub len-append : (s t : Text) → len (s ++ t) ≡ len s + len t
unfolding len
len-append [] t = omega arith
len-append (c ∷ s) t = omega (arith, len-append s t)

pub length-le-len : (s : Text) → length s ≤ len s
unfolding len
length-le-len [] = omega arith
length-le-len (c ∷ s) = ground (arith, length-le-len s)

pub len-eq-zero : (s : Text) → len s ≡ 0 → s ≡ []
unfolding len
len-eq-zero [] h = refl
len-eq-zero (c ∷ s) h = absurd (omega (arith, length-le-len (c ∷ s)))

-- A class of ASCII characters makes the text ASCII.
pub all_mono :
    (p q : ℕ → Bool) (s : Text)
    → ((c : ℕ) → p c ≡ true → q c ≡ true)
    → all p s ≡ true
    → all q s ≡ true
all_mono p q [] h k = refl
all_mono p q (c ∷ s) h k = ground (arith, h c, all_mono p q s h)

pub as_bytes_ascii : (s : Text) → all (λ c. ltb c 0x80) s ≡ true → as_bytes s ≡ s
unfolding as_bytes
as_bytes_ascii [] h = refl
as_bytes_ascii (c ∷ s) h = ground (arith, as_bytes_ascii s)

-- A text that holds no separator ends at the first one.
pub append_sep_injective :
    (sep : ℕ) (a b x y : Text)
    → all (λ c. not (c == sep)) a ≡ true
    → all (λ c. not (c == sep)) b ≡ true
    → a ++ sep ∷ x ≡ b ++ sep ∷ y
    → (a ≡ b) × (x ≡ y)
append_sep_injective sep [] [] x y h k e = ground arith
append_sep_injective sep [] (d ∷ b) x y h k e = ground arith
append_sep_injective sep (c ∷ a) [] x y h k e = ground arith
append_sep_injective sep (c ∷ a) (d ∷ b) x y h k e =
    ground (arith, append_sep_injective sep a b x y)

-- A cut of a text of ASCII characters, counted in bytes, is a cut of the list.
pub split_at_ascii :
    (n : ℕ) (s : Text)
    → all (λ c. ltb c 0x80) s ≡ true
    → n ≤ length s
    → split_at n s ≡ some (take n s, drop n s)
unfolding split_at
split_at_ascii zero [] a h = ground arith
split_at_ascii zero (c ∷ s) a h = ground arith
split_at_ascii (suc n) [] a h = absurd (omega arith)
split_at_ascii (suc n) (c ∷ s) a h =
    let one : utf8_len c ≡ 1 = ground arith in
    let less : suc n - 1 ≡ n = omega arith in
    rw (one, less, split_at_ascii n s (ground arith) (omega arith)) (ground arith)
