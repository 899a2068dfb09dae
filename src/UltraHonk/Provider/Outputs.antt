-- ===== src/UltraHonk/Provider/Outputs.antt =====
-- The words that `bb` reports, as named outputs and as proof bytes, are the words that the verifier
-- hands to `bb` again.
use crucible_prover.Base.{
  suc, ◌-◌, true, [], ◌∷◌, ◌++◌, List, Text, codes, Result, ok, nat_eq, if◌then◌else◌, is_empty,
  all, All, length, map, replicate, trim_start_matches, bind-eq-ok, map_err, ◌≡◌, refl, sym, ap,
  subst, ◌∙◌, arith, Bool-cases, inl, inr, ==_iff, ◌==◌, append_assoc, append-nil,
}
use crucible_prover.Bag
use crucible_prover.Bag.{OutputBag, keys}
use crucible_prover.Bag.Lookup.{insert_cases}
use crucible_prover.Field.{FieldValue, from_hex, canonical}
use crucible_prover.Field.Canonical.{
  is_lower_hexdigit, lower_hexdigits, strip_0x_digits, strip_0x_prefix, from_hex-inv, IsCanonical,
  canonical-IsCanonical, canonical_self, length-trim,
}
use crucible_prover.UltraHonk.Provider.{word_digits, field_from_word, name_words}
use crucible_prover.UltraHonk.Scratch.{generation}
use crucible_prover.UltraHonk.Store.Keys.{map_err-ok}
use crucible_prover.UltraHonk.Words.{pad_64}
use crucible_prover.UltraHonk.Words.Rebuilt.{IsFieldWord}

-- The zeros that are trimmed are those that the padding adds.
trimmed_zeros :
    (s : Text)
    → replicate (length s - length (trim_start_matches b'0' s)) b'0' ++ trim_start_matches b'0' s
      ≡ s
unfolding trim_start_matches
trimmed_zeros [] = refl
trimmed_zeros (c ∷ s) = elim (Bool-cases (c == b'0')) [
  | inl e ↦
      let t = trim_start_matches b'0' s in
      let more : suc (length s) - length t ≡ suc (length s - length t) =
        omega (arith, length-trim b'0' s) in
      rw (e, more) (ap (◌∷◌ b'0') (trimmed_zeros s) ∙ ap (λ d. d ∷ s) (sym ((==_iff c b'0').0 e)))
  | inr e ↦ let none : suc (length s) - suc (length s) ≡ 0 = omega arith in rw (e, none) refl
]

-- The digits of a word without its zeros.
bare : Text → Text
bare d = if is_empty (trim_start_matches b'0' d) then b'0' ∷ [] else trim_start_matches b'0' d

empty_text : (s : Text) → is_empty s ≡ true → s ≡ []
empty_text [] h = refl
empty_text (c ∷ s) h = ground arith

pad_64-bare : (d : Text) → length d ≡ 64 → pad_64 (bare d) ≡ d
unfolding pad_64 bare
pad_64-bare d h =
    let t = trim_start_matches b'0' d in
    let padded : replicate (64 - length t) b'0' ++ t ≡ d = rw⁻¹ h (trimmed_zeros d) in
    elim (Bool-cases (is_empty t)) [
      | inl e ↦ rw e (ap (λ s. replicate (64 - length s) b'0' ++ s) (sym (empty_text t e)) ∙ padded)
      | inr e ↦ rw e padded
    ]

bare-IsCanonical :
    (d : Text)
    → length d ≡ 64
    → all is_lower_hexdigit d ≡ true
    → IsCanonical (record { hex = bare d })
unfolding bare
bare-IsCanonical d h k =
    let (digits, same) = lower_hexdigits d k in
    let c : IsCanonical (record { hex = canonical d }) =
      canonical-IsCanonical d digits (omega (arith, h)) in
    let trimmed : canonical d ≡ bare d = unfold canonical in rw same refl in
    subst (λ t. IsCanonical (record { hex = t })) trimmed c

digits-bare : (word : Text) (w : IsFieldWord word) → word_digits word ≡ bare w.digits
unfolding word_digits bare
digits-bare word w = rw (w.prefixed, strip_0x_prefix w.digits) refl

-- A word's value has its digits without the zeros.
value_of :
    (word : Text) (w : IsFieldWord word) {v : FieldValue}
    → field_from_word word ≡ ok v
    → v.hex ≡ bare w.digits
unfolding field_from_word
value_of word w {v} h =
    let c = bare-IsCanonical w.digits w.whole w.lowercase in
    let read : from_hex (bare w.digits) ≡ ok v = rw⁻¹ (digits-bare word w) (map_err-ok _ _ h) in
    let (_, same) = from_hex-inv (bare w.digits) {v = v} read in
    ap (λ u. u.hex) same
    ∙ ap canonical (strip_0x_digits (bare w.digits) c.digits)
    ∙ canonical_self (record { hex = bare w.digits }) c

-- The word that the verifier writes for a value.
abbrev pub rebuilt : Text × FieldValue → Text
rebuilt e = codes "0x" ++ pad_64 (e.1).hex

rebuilt_word :
    (word name : Text) (w : IsFieldWord word) {v : FieldValue}
    → field_from_word word ≡ ok v
    → rebuilt (name, v) ≡ word
rebuilt_word word name w {v} h =
    ap (λ t. codes "0x" ++ pad_64 t) (value_of word w {v = v} h)
    ∙ ap (λ t. codes "0x" ++ t) (pad_64-bare w.digits w.whole)
    ∙ sym w.prefixed

map-concat :
    (es : List (Text × FieldValue)) (e : Text × FieldValue)
    → map rebuilt (es ++ e ∷ []) ≡ map rebuilt es ++ rebuilt e ∷ []
map-concat [] e = refl
map-concat (d ∷ es) e = ap (◌∷◌ (rebuilt d)) (map-concat es e)

keys-concat :
    (es : List (Text × FieldValue)) (n : Text) (v : FieldValue)
    → keys (es ++ (n, v) ∷ []) ≡ keys es ++ n ∷ []
keys-concat [] n v = refl
keys-concat ((k, w) ∷ es) n v = ap (◌∷◌ k) (keys-concat es n v)

ok_same : {E A : Type 0} {a b : A} → ◌≡◌ {A = Result E A} (ok a) (ok b) → a ≡ b
ok_same h = cc

-- Every name gets a word.
pub name_words-names :
    (bag : OutputBag) (names words : List Text) {b : OutputBag}
    → length words ≡ length names
    → name_words bag names words ≡ ok b
    → keys b.entries ≡ keys bag.entries ++ names
unfolding name_words
name_words-names bag [] [] {b} l h =
    ap (λ x. keys x.entries) (sym (ok_same h)) ∙ sym (append-nil (keys bag.entries))
name_words-names bag [] (word ∷ words) l h = ground arith
name_words-names bag (name ∷ names) [] l h = ground arith
name_words-names bag (name ∷ names) (word ∷ words) {b} l h =
    let (v, _, h1) = bind-eq-ok (map_err generation (field_from_word word)) _ h in
    let (next, i, h2) = bind-eq-ok (map_err _ (Bag.insert bag name v)) _ h1 in
    let (_, _, n) = insert_cases bag name v {b = next} (map_err-ok _ _ i) in
    name_words-names next names words {b = b} (omega (arith, l)) h2
    ∙ ap (λ x. keys x.entries ++ names) n
    ∙ ap (λ x. x ++ names) (keys-concat bag.entries name v)
    ∙ append_assoc (keys bag.entries) (name ∷ []) names

-- The words of the entries, as the verifier writes them.
pub name_words-rebuilt :
    (bag : OutputBag) (names words : List Text) {b : OutputBag}
    → length words ≡ length names
    → All IsFieldWord words
    → name_words bag names words ≡ ok b
    → map rebuilt b.entries ≡ map rebuilt bag.entries ++ words
unfolding name_words
name_words-rebuilt bag [] [] {b} l w h =
    ap (λ x. map rebuilt x.entries) (sym (ok_same h)) ∙ sym (append-nil (map rebuilt bag.entries))
name_words-rebuilt bag [] (word ∷ words) l w h = ground arith
name_words-rebuilt bag (name ∷ names) [] l w h = ground arith
name_words-rebuilt bag (name ∷ names) (word ∷ words) {b} l (p, w) h =
    let (v, e, h1) = bind-eq-ok (map_err generation (field_from_word word)) _ h in
    let (next, i, h2) = bind-eq-ok (map_err _ (Bag.insert bag name v)) _ h1 in
    let (_, _, n) = insert_cases bag name v {b = next} (map_err-ok _ _ i) in
    name_words-rebuilt next names words {b = b} (omega (arith, l)) w h2
    ∙ ap (λ x. map rebuilt x.entries ++ words) n
    ∙ ap (λ x. x ++ words) (map-concat bag.entries (name, v))
    ∙ ap (λ x. (map rebuilt bag.entries ++ x ∷ []) ++ words)
        (rebuilt_word word name p {v = v} (map_err-ok _ _ e))
    ∙ append_assoc (map rebuilt bag.entries) (word ∷ []) words
