-- ===== src/UltraHonk/Words/Rebuilt.antt =====
-- Field words that are read as bytes, and written again.
use crucible_prover.Base.{
  ℕ, ◌+◌, ◌*◌, ◌/◌, true, [], ◌∷◌, ◌++◌, List, Option, none, some, Text, Bytes, codes, Result, ok,
  nat_eq, all, All, length, map, take, drop, bind-eq-ok, ◌≡◌, refl, sym, ap, subst,
  to_ascii_lowercase, ◌∙◌, arith, take-append, drop-append, length-append,
}
use crucible_prover.External.{Hex}
use crucible_prover.Field.{strip_0x}
use crucible_prover.Field.Canonical.{is_lower_hexdigit, lower_hexdigits, strip_0x_prefix}
use crucible_prover.UltraHonk.{UltraHonkError}
use crucible_prover.UltraHonk.Words.{
  whole_word, pad_64, word_bytes, concat_words, blob_words, chunks_of,
}
use crucible_prover.UltraHonk.Words.Blob.{nonempty_hex}
use crucible_prover.UltraHonk.Words.Padding.{word_bytes_accepts, pad_64_full}

-- A field word as `bb` writes it: `0x` and 64 lowercase digits.
pub record IsFieldWord (word : Text) : Type 0 where
  pub digits : Text
  pub prefixed : word ≡ codes "0x" ++ digits
  pub whole : length digits ≡ 64
  pub lowercase : all is_lower_hexdigit digits ≡ true

ok_same : {E A : Type 0} {a b : A} → ◌≡◌ {A = Result E A} (ok a) (ok b) → a ≡ b
ok_same h = cc

whole_word-length :
    {E : Type 0} (o : Option Bytes) {b : Bytes} → whole_word {E = E} o ≡ ok b → length b ≡ 32
whole_word-length none h = cc
whole_word-length (some c) {b} h = ground arith

cut_word :
    (c rest : Bytes) → length c ≡ 32 → (take 32 (c ++ rest) ≡ c) × (drop 32 (c ++ rest) ≡ rest)
cut_word c rest h = (
  subst (λ n. take n (c ++ rest) ≡ c) h (take-append c rest),
  subst (λ n. drop n (c ++ rest) ≡ rest) h (drop-append c rest),
)

module _ (x : Hex) where
  word_bytes-length : (word : Text) {b : Bytes} → word_bytes x word ≡ ok b → length b ≡ 32
  unfolding word_bytes
  word_bytes-length word {b} h =
      whole_word-length {E = UltraHonkError} (x.decode (pad_64 (strip_0x word))) {b = b}
        (ground arith)

  -- Words are read as 32 bytes each.
  pub concat_words-length :
      (words : List Text) {b : Bytes} → concat_words x words ≡ ok b → length b ≡ length words * 32
  unfolding concat_words
  concat_words-length [] {b} h = ap length (sym (ok_same h))
  concat_words-length (word ∷ words) {b} h =
      let (c, e, h1) = bind-eq-ok (word_bytes x word) _ h in
      let (rest, i, h2) = bind-eq-ok (concat_words x words) _ h1 in
      let same : c ++ rest ≡ b = ok_same h2 in
      omega (
        arith,
        ap (length {A = ℕ}) same,
        length-append c rest,
        word_bytes-length word {b = c} e,
        concat_words-length words {b = rest} i,
      )

  word_again :
      (word : Text)
      → IsFieldWord word
      → {b : Bytes} → word_bytes x word ≡ ok b
      → codes "0x" ++ x.encode b ≡ word
  word_again word w {b} h =
      let bare : strip_0x word ≡ w.digits = ap strip_0x w.prefixed ∙ strip_0x_prefix w.digits in
      let (digits, same) = lower_hexdigits w.digits w.lowercase in
      let (c, e, i) = word_bytes_accepts x word (
        rw bare (record {
          nonempty = nonempty_hex w.digits w.whole;
          short = omega (arith, w.whole);
          hexdigits = digits;
        })) in
      ap (λ d. codes "0x" ++ x.encode d) (ok_same (sym h ∙ e))
      ∙ ap (λ d. codes "0x" ++ d)
          (i.digits
            ∙ ap (λ d. map to_ascii_lowercase (pad_64 d)) bare
            ∙ ap (map to_ascii_lowercase) (pad_64_full w.digits w.whole)
            ∙ same)
      ∙ sym w.prefixed

  chunks_again :
      (words : List Text) {b : Bytes}
      → All IsFieldWord words
      → concat_words x words ≡ ok b
      → map (λ chunk. codes "0x" ++ x.encode chunk) (chunks_of (length words) b) ≡ words
  unfolding concat_words chunks_of
  chunks_again [] w h = refl
  chunks_again (word ∷ words) {b} (p, w) h =
      let (c, e, h1) = bind-eq-ok (word_bytes x word) _ h in
      let (rest, i, h2) = bind-eq-ok (concat_words x words) _ h1 in
      let same : c ++ rest ≡ b = ok_same h2 in
      let (front, back) = cut_word c rest (word_bytes-length word {b = c} e) in
      ap (λ d. map (λ chunk. codes "0x" ++ x.encode chunk) (chunks_of (length (word ∷ words)) d))
        (sym same)
      ∙ ap
          (λ d.
            (codes "0x" ++ x.encode d)
            ∷ map (λ chunk. codes "0x" ++ x.encode chunk)
                (chunks_of (length words) (drop 32 (c ++ rest))))
          front
      ∙ ap
          (λ d.
            (codes "0x" ++ x.encode c)
            ∷ map (λ chunk. codes "0x" ++ x.encode chunk) (chunks_of (length words) d))
          back
      ∙ ap (λ d. d ∷ map (λ chunk. codes "0x" ++ x.encode chunk) (chunks_of (length words) rest))
          (word_again word p {b = c} e)
      ∙ ap (◌∷◌ word) (chunks_again words {b = rest} w i)

  -- The words that are read as bytes are those that the bytes are written as.
  pub blob_words-concat_words :
      (words : List Text) {b : Bytes}
      → All IsFieldWord words
      → concat_words x words ≡ ok b
      → blob_words x b ≡ words
  unfolding blob_words
  blob_words-concat_words words {b} w h =
      let count : (length b + 31) / 32 ≡ length words =
        omega (arith, concat_words-length words {b = b} h) in
      rw count (chunks_again words {b = b} w h)
