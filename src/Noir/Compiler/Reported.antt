-- ===== src/Noir/Compiler/Reported.antt =====
-- The values that `nargo execute` reports, printed and read back.
use crucible_prover.Base.{
  ℕ, ◌+◌, ◌-◌, ◌<◌, true, false, not, List, [], ◌∷◌, ◌++◌, none, some, Text, codes, ok, panicked,
  ◌==◌, nat_eq, find?, map, split_at, len, utf8_len, to_ascii_lowercase, all, All, ◌≡◌, refl, sym,
  ap, arith, append_assoc, len-append, append-nil, ℕ_discrete, all-append,
}
use crucible_prover.Noir.Compiler.{
  find_byte, rfind_byte, before, from, body, is_separator, tokens_onto, is_hex_token, hex_tokens,
  extract_parenthesized_hex, contains, parse_stdout, reported,
}
use crucible_prover.Witness.Toml.{lines}

pub split_at-append : (a b : Text) → split_at (len a) (a ++ b) ≡ some (a, b)
unfolding split_at len
split_at-append [] [] = ground arith
split_at-append [] (c ∷ b) = ground arith
split_at-append (c ∷ a) b =
    let back : (utf8_len c + len a) - utf8_len c ≡ len a = omega arith in
    rw (back, split_at-append a b) (ground arith)

split_at_past : (n : ℕ) (s : Text) → len s < n → split_at n s ≡ none
unfolding split_at len
split_at_past n [] h = ground arith
split_at_past n (c ∷ s) h = ground (arith, split_at_past (n - utf8_len c) s)

find_byte-first :
    (c : ℕ) (a b : Text)
    → all (λ d. not (d == c)) a ≡ true
    → find_byte c (a ++ c ∷ b) ≡ some (len a)
unfolding find_byte len
find_byte-first c [] b h = ground arith
find_byte-first c (d ∷ a) b h = ground (arith, find_byte-first c a b)

rfind_byte-none : (c : ℕ) (s : Text) → all (λ d. not (d == c)) s ≡ true → rfind_byte c s ≡ none
unfolding rfind_byte
rfind_byte-none c [] h = refl
rfind_byte-none c (d ∷ s) h = ground (arith, rfind_byte-none c s)

rfind_byte-last :
    (c : ℕ) (a b : Text)
    → all (λ d. not (d == c)) b ≡ true
    → rfind_byte c (a ++ c ∷ b) ≡ some (len a)
unfolding rfind_byte len
rfind_byte-last c [] b h = ground (arith, rfind_byte-none c b)
rfind_byte-last c (d ∷ a) b h = ground (arith, rfind_byte-last c a b)

tokens_onto-plain :
    (s part : Text)
    → all (λ c. not (is_separator c)) s ≡ true
    → tokens_onto s part ≡ (part ++ s) ∷ []
unfolding tokens_onto
tokens_onto-plain [] part h = ap (λ p. p ∷ []) (sym (append-nil part))
tokens_onto-plain (c ∷ s) part h =
    ground (arith, tokens_onto-plain s (part ++ c ∷ []), append_assoc part (c ∷ []) s)

tokens_onto-separator :
    (s rest part : Text) (c : ℕ)
    → is_separator c ≡ true
    → all (λ d. not (is_separator d)) s ≡ true
    → tokens_onto (s ++ c ∷ rest) part ≡ (part ++ s) ∷ tokens_onto rest []
unfolding tokens_onto
tokens_onto-separator [] rest part c k h = ground (arith, append-nil part)
tokens_onto-separator (d ∷ s) rest part c k h =
    ground (arith, tokens_onto-separator s rest (part ++ d ∷ []) c, append_assoc part (d ∷ []) s)

-- The values as `nargo` prints them, with a comma and a space between two.
abbrev pub printed : List Text → Text
printed [] = []
printed (v ∷ []) = v
printed (v ∷ w ∷ vs) = v ++ b',' ∷ b' ' ∷ printed (w ∷ vs)

-- A value in lowercase with its prefix.
pub record IsReported (v : Text) : Type 0 where
  pub prefixed : is_hex_token v ≡ true
  pub whole : all (λ c. not (is_separator c)) v ≡ true
  pub lowercase : map to_ascii_lowercase v ≡ v

hex_tokens_one : (v : Text) → IsReported v → hex_tokens v ≡ v ∷ []
unfolding hex_tokens
hex_tokens_one v r = rw (tokens_onto-plain v [] r.whole, r.prefixed, r.lowercase) refl

hex_tokens-printed : (vs : List Text) → All IsReported vs → hex_tokens (printed vs) ≡ vs
unfolding hex_tokens tokens_onto ℕ_discrete
hex_tokens-printed [] h = refl
hex_tokens-printed (v ∷ []) (r, _) = hex_tokens_one v r
hex_tokens-printed (v ∷ w ∷ vs) (r, h) =
    let ih : hex_tokens (printed (w ∷ vs)) ≡ w ∷ vs = hex_tokens-printed (w ∷ vs) h in
    rw
      (
        tokens_onto-separator v (b' ' ∷ printed (w ∷ vs)) [] b',' refl r.whole,
        r.prefixed,
        r.lowercase,
      )
      (ap (◌∷◌ v) ih)

abbrev Lacks : ℕ → Text → Type 0
Lacks c s = all (λ d. not (d == c)) s ≡ true

before-eq_ok :
    {E : Type 0} (n : ℕ) (s : Text) {a b : Text}
    → split_at n s ≡ some (a, b)
    → before {E = E} n s ≡ ok a
before-eq_ok n s h = rw (h, before) refl

from-eq_ok :
    {E : Type 0} (n : ℕ) (s : Text) {a b : Text}
    → split_at n s ≡ some (a, b)
    → from {E = E} n s ≡ ok b
from-eq_ok n s h = rw (h, from) refl

after_open :
    (head mid : Text) → split_at (len head + 1) (head ++ b'(' ∷ mid) ≡ some (head ++ b'(' ∷ [], mid)
unfolding len
after_open head mid =
    let count : len head + 1 ≡ len (head ++ b'(' ∷ []) =
      omega (arith, len-append head (b'(' ∷ [])) in
    rw (count, sym (append_assoc head (b'(' ∷ []) mid)) (split_at-append (head ++ b'(' ∷ []) mid)

body-parenthesized :
    {E : Type 0} (head mid tail : Text)
    → body {E = E}
        (len head)
        (some (len (head ++ b'(' ∷ mid)))
        ((head ++ b'(' ∷ mid) ++ b')' ∷ tail)
      ≡ ok mid
body-parenthesized {E} head mid tail =
    rw
      (before-eq_ok {E = E} (len (head ++ b'(' ∷ mid)) ((head ++ b'(' ∷ mid) ++ b')' ∷ tail)
        {a = head ++ b'(' ∷ mid} {b = b')' ∷ tail}
        (split_at-append (head ++ b'(' ∷ mid) (b')' ∷ tail)))
      (from-eq_ok {E = E} (len head + 1) (head ++ b'(' ∷ mid) {a = head ++ b'(' ∷ []} {b = mid}
        (after_open head mid))

extract-parenthesized :
    {E : Type 0} (head mid tail : Text)
    → Lacks b'(' head
    → Lacks b')' tail
    → extract_parenthesized_hex {E = E} (head ++ b'(' ∷ (mid ++ b')' ∷ tail)) ≡ ok (hex_tokens mid)
unfolding extract_parenthesized_hex
extract-parenthesized {E} head mid tail h k =
    let line : head ++ b'(' ∷ (mid ++ b')' ∷ tail) ≡ (head ++ b'(' ∷ mid) ++ b')' ∷ tail =
      sym (append_assoc head (b'(' ∷ mid) (b')' ∷ tail)) in
    let first : find_byte b'(' ((head ++ b'(' ∷ mid) ++ b')' ∷ tail) ≡ some (len head) =
      rw⁻¹ line (find_byte-first b'(' head (mid ++ b')' ∷ tail) h) in
    rw
      (
        line,
        first,
        rfind_byte-last b')' (head ++ b'(' ∷ mid) tail k,
        body-parenthesized {E = E} head mid tail,
      )
      refl

-- On the first line of the output that reports them, values in lowercase with their prefix, printed
-- between the first `(` and the last `)` with a comma and a space between two, are read back, in
-- their order.
pub parse_stdout-printed :
    {E : Type 0} (stdout head tail : Text) (values : List Text)
    → find? (contains (codes "Circuit output:")) (lines stdout)
      ≡ some (head ++ b'(' ∷ (printed values ++ b')' ∷ tail))
    → Lacks b'(' head
    → Lacks b')' tail
    → All IsReported values
    → parse_stdout {E = E} stdout ≡ ok (record { values = values })
unfolding parse_stdout reported
parse_stdout-printed {E} stdout head tail values found h k all_reported =
    rw
      (
        found,
        extract-parenthesized {E = E} head (printed values) tail h k,
        hex_tokens-printed values all_reported,
      )
      refl

past_close :
    {E : Type 0} (head rest : Text) (n : ℕ)
    → len head < n
    → body {E = E} n (some (len head)) (head ++ rest) ≡ panicked
past_close {E} head rest n h =
    rw
      (before-eq_ok {E = E} (len head) (head ++ rest) {a = head} {b = rest}
        (split_at-append head rest))
      (rw (split_at_past (n + 1) head (omega arith), from) refl)

Lacks-append :
    (c d : ℕ) (a b : Text) → (d == c) ≡ false → Lacks c a → Lacks c b → Lacks c (a ++ d ∷ b)
Lacks-append c d a b e h k = ground (arith, all-append (λ x. not (x == c)) a (d ∷ b))

shorter : (head mid : Text) → len head < len (head ++ b')' ∷ mid)
unfolding len
shorter head mid = omega (arith, len-append head (b')' ∷ mid))

extract_swapped :
    {E : Type 0} (head mid tail : Text)
    → Lacks b'(' head
    → Lacks b'(' mid
    → Lacks b')' mid
    → Lacks b')' tail
    → extract_parenthesized_hex {E = E} (head ++ b')' ∷ (mid ++ b'(' ∷ tail)) ≡ panicked
unfolding extract_parenthesized_hex ℕ_discrete
extract_swapped {E} head mid tail h i j k =
    let line : head ++ b')' ∷ (mid ++ b'(' ∷ tail) ≡ (head ++ b')' ∷ mid) ++ b'(' ∷ tail =
      sym (append_assoc head (b')' ∷ mid) (b'(' ∷ tail)) in
    let clear : Lacks b'(' (head ++ b')' ∷ mid) = Lacks-append b'(' b')' head mid refl h i in
    let clear_after : Lacks b')' (mid ++ b'(' ∷ tail) = Lacks-append b')' b'(' mid tail refl j k in
    let first : find_byte b'(' (head ++ b')' ∷ (mid ++ b'(' ∷ tail))
        ≡ some (len (head ++ b')' ∷ mid)) =
      rw line (find_byte-first b'(' (head ++ b')' ∷ mid) tail clear) in
    rw
      (
        first,
        rfind_byte-last b')' head (mid ++ b'(' ∷ tail) clear_after,
        past_close {E = E} head (b')' ∷ (mid ++ b'(' ∷ tail)) (len (head ++ b')' ∷ mid))
            (shorter head mid),
      )
      refl

-- On a line that reports values, a `)` in front of the first `(`, with none after it, makes the
-- reading panic.
pub parse_stdout_swapped :
    {E : Type 0} (stdout head mid tail : Text)
    → find? (contains (codes "Circuit output:")) (lines stdout)
      ≡ some (head ++ b')' ∷ (mid ++ b'(' ∷ tail))
    → Lacks b'(' head
    → Lacks b'(' mid
    → Lacks b')' mid
    → Lacks b')' tail
    → parse_stdout {E = E} stdout ≡ panicked
unfolding parse_stdout reported
parse_stdout_swapped {E} stdout head mid tail found h i j k =
    rw (found, extract_swapped {E = E} head mid tail h i j k) refl
