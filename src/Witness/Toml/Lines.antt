-- ===== src/Witness/Toml/Lines.antt =====
-- One line of the encoding, read back.
use crucible_prover.Base.{
  ℕ, Bool, true, false, not, ◌&&◌, [], ◌∷◌, ◌++◌, some, Text, codes, ok, map_err, ◌==◌, nat_eq,
  text_eq, is_empty, ◌≡◌, refl, sym, ap, ◌∙◌, arith, all, append_assoc, all_mono,
  is_ascii_lowercase, is_ascii_digit, all-append,
}
use crucible_prover.Bag
use crucible_prover.Bag.{PublicInputBag}
use crucible_prover.Field.{FieldValue, validate_name, is_name_char}
use crucible_prover.Field.Canonical.{IsCanonical, from_hex-hex, is_lower_hexdigit}
use crucible_prover.Witness.{invalid_value}
use crucible_prover.Witness.Toml.{
  encode_line, is_whitespace, trim_start, trim_end, trim, starts_with, lines, split_once,
  strip_last, unquote, decode_pair, decode_line, push, add_char,
}

pub name_chars :
    (n : Text) → validate_name n ≡ ok tt → (all is_name_char n ≡ true) × (is_empty n ≡ false)
unfolding validate_name
name_chars n h = ground arith

-- No line ends.
pub on_line : ℕ → Bool
on_line c = not (c == b'\n') && not (c == b'\r')

pub lines-line : (l s : Text) → all on_line l ≡ true → lines (l ++ b'\n' ∷ s) ≡ l ∷ lines s
unfolding lines push on_line
lines-line [] s h = ground arith
lines-line (c ∷ l) s h = ground (arith, lines-line l s)

concat_nonempty : (s : Text) (c : ℕ) → is_empty (s ++ c ∷ []) ≡ false
concat_nonempty [] c = refl
concat_nonempty (d ∷ s) c = refl

trim_end-keeps : (s : Text) (c : ℕ) → is_whitespace c ≡ false → trim_end (s ++ c ∷ []) ≡ s ++ c ∷ []
unfolding trim_end
trim_end-keeps [] c h = ground arith
trim_end-keeps (d ∷ s) c h = rw (trim_end-keeps s c h, concat_nonempty s c) refl

trim_end_self : (s : Text) → all (λ c. not (is_whitespace c)) s ≡ true → trim_end s ≡ s
unfolding trim_end
trim_end_self [] h = refl
trim_end_self (c ∷ s) h = ground (arith, trim_end_self s)

trim_end-space : (s : Text) → trim_end (s ++ b' ' ∷ []) ≡ trim_end s
unfolding trim_end is_whitespace
trim_end-space [] = ground arith
trim_end-space (c ∷ s) = rw (trim_end-space s) refl

split_once-first :
    (c : ℕ) (a b : Text)
    → all (λ d. not (d == c)) a ≡ true
    → split_once c (a ++ c ∷ b) ≡ some (a, b)
unfolding split_once
split_once-first c [] b h = ground arith
split_once-first c (d ∷ a) b h = ground (arith, split_once-first c a b)

strip_last-concat : (c : ℕ) (s : Text) → strip_last c (s ++ c ∷ []) ≡ some s
unfolding strip_last
strip_last-concat c [] = ground arith
strip_last-concat c (d ∷ []) = ground (arith, strip_last-concat c [])
strip_last-concat c (d ∷ e ∷ s) = ap (add_char d) (strip_last-concat c (e ∷ s))

-- A line of the encoding, without its end.
pub line_text : Text → Text → Text
line_text name hex = name ++ (codes " = \"0x" ++ (hex ++ b'"' ∷ []))

pub encode_line_text : (n h s : Text) → encode_line n h ++ s ≡ line_text n h ++ b'\n' ∷ s
unfolding encode_line line_text
encode_line_text n h s =
    append_assoc n (codes " = \"0x" ++ (h ++ b'"' ∷ b'\n' ∷ [])) s
    ∙ ap (λ t. n ++ (codes " = \"0x" ++ t))
        (append_assoc h (b'"' ∷ b'\n' ∷ []) s ∙ sym (append_assoc h (b'"' ∷ []) (b'\n' ∷ s)))
    ∙ sym (append_assoc n (codes " = \"0x" ++ (h ++ b'"' ∷ [])) (b'\n' ∷ s))

-- Every character of a name is one of these.
not_special :
    (c : ℕ)
    → is_name_char c ≡ true
    → (is_whitespace c ≡ false) × ((c == b'#') ≡ false) × ((c == b'=') ≡ false) × (on_line c ≡ true)
unfolding is_name_char is_whitespace is_ascii_lowercase is_ascii_digit on_line
not_special c h = ground arith

pub line_text-on_line :
    (n h : Text)
    → all is_name_char n ≡ true
    → all is_lower_hexdigit h ≡ true
    → all on_line (line_text n h) ≡ true
unfolding line_text
line_text-on_line n h a b =
    rw
      (
        all-append on_line n (codes " = \"0x" ++ (h ++ b'"' ∷ [])),
        all-append on_line h (b'"' ∷ []),
        all_mono is_name_char on_line n (λ c k. (not_special c k).3) a,
        all_mono is_lower_hexdigit on_line h (λ c k. unfold on_line in ground arith) b,
      )
      (unfold on_line in ground arith)

trim_start-name :
    (n s : Text)
    → all is_name_char n ≡ true
    → is_empty n ≡ false
    → (trim_start (n ++ s) ≡ n ++ s)
      × (starts_with b'#' (n ++ s) ≡ false)
      × (is_empty (n ++ s) ≡ false)
unfolding trim_start
trim_start-name [] s a h = cc
trim_start-name (c ∷ n) s a h = ground (arith, not_special c)

trim_line :
    (n h : Text)
    → all is_name_char n ≡ true
    → is_empty n ≡ false
    → trim (line_text n h) ≡ line_text n h
unfolding trim line_text
trim_line n h a e =
    rw ((trim_start-name n _ a e).0, sym (append_assoc n (codes " = \"0x" ++ h) (b'"' ∷ [])))
      (trim_end-keeps (n ++ (codes " = \"0x" ++ h)) b'"' (unfold is_whitespace in ground arith))

trim_name : (n : Text) → all is_name_char n ≡ true → is_empty n ≡ false → trim (n ++ b' ' ∷ []) ≡ n
unfolding trim
trim_name n a e = rw ((trim_start-name n _ a e).0) (
    trim_end-space n
    ∙ trim_end_self n (all_mono is_name_char _ n (λ c k. ground (arith, not_special c k)) a))

split_line :
    (n h : Text)
    → all is_name_char n ≡ true
    → split_once b'=' (line_text n h) ≡ some (n ++ b' ' ∷ [], codes " \"0x" ++ (h ++ b'"' ∷ []))
unfolding line_text
split_line n h a = rw (sym (append_assoc n (b' ' ∷ []) (codes "= \"0x" ++ (h ++ b'"' ∷ [])))) (
    split_once-first b'=' (n ++ b' ' ∷ []) _ (
      rw
        (
          all-append (λ d. not (d == b'=')) n (b' ' ∷ []),
          all_mono is_name_char (λ d. not (d == b'=')) n (λ c k. ground (arith, not_special c k)) a,
        )
        (ground arith)))

trim_start-raw : (s : Text) → trim_start (codes " \"0x" ++ s) ≡ codes "\"0x" ++ s
unfolding trim_start is_whitespace
trim_start-raw s = ground arith

trim_raw : (h : Text) → trim (codes " \"0x" ++ (h ++ b'"' ∷ [])) ≡ codes "\"0x" ++ (h ++ b'"' ∷ [])
unfolding trim
trim_raw h =
    rw (trim_start-raw (h ++ b'"' ∷ []))
      (trim_end-keeps (codes "\"0x" ++ h) b'"' (unfold is_whitespace in ground arith))

unquote_raw : (h : Text) → unquote (codes "\"0x" ++ (h ++ b'"' ∷ [])) ≡ some (codes "0x" ++ h)
unfolding unquote
unquote_raw h = ground (arith, strip_last-concat b'"' (codes "0x" ++ h))

pub decode_line_text :
    (bag : PublicInputBag) (n : Text) (v : FieldValue)
    → validate_name n ≡ ok tt
    → IsCanonical v
    → decode_line bag (line_text n v.hex) ≡ map_err invalid_value (Bag.insert bag n v)
unfolding decode_line decode_pair
decode_line_text bag n v valid c =
    let (chars, some_char) = name_chars n valid in
    let start = trim_start-name n (codes " = \"0x" ++ (v.hex ++ b'"' ∷ [])) chars some_char in
    rw
      (
        trim_line n v.hex chars some_char,
        split_line n v.hex chars,
        trim_raw v.hex,
        unquote_raw v.hex,
        trim_name n chars some_char,
        (from_hex-hex v c).1,
      )
      (unfold line_text in rw (start.1, start.2) refl)
