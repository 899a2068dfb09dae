-- ===== src/UltraHonk/Words/Blob.antt =====
-- Proof bytes as words, and back.
use crucible_prover.Base.{
  ℕ, zero, suc, ◌+◌, ◌*◌, ◌/◌, [], ◌∷◌, ◌++◌, map, Text, Bytes, codes, ok, length, take, drop, All,
  ◌≡◌, refl, ap, arith, take-append-drop, length-take, length-drop, is_empty, false,
}
use crucible_prover.External.{Hex, IsByte}
use crucible_prover.Field.Canonical.{lower_hexdigits, strip_0x_prefix}
use crucible_prover.UltraHonk.Words.{chunks_of, word_bytes, concat_words, blob_words}
use crucible_prover.UltraHonk.Words.Padding.{pad_64_full, accepted_word}

All-take : (n : ℕ) (b : Bytes) → All IsByte b → All IsByte (take n b)
All-take zero b h = tt
All-take (suc n) [] h = tt
All-take (suc n) (c ∷ b) (p, h) = (p, All-take n b h)

All-drop : (n : ℕ) (b : Bytes) → All IsByte b → All IsByte (drop n b)
All-drop zero b h = h
All-drop (suc n) [] h = tt
All-drop (suc n) (c ∷ b) (p, h) = All-drop n b h

pub nonempty_hex : (s : Text) → length s ≡ 64 → is_empty s ≡ false
nonempty_hex [] h = ground arith
nonempty_hex (c ∷ s) h = refl

module _ (x : Hex) where
  -- 32 bytes are read back from the word they are written as.
  pub word_bytes-encode :
      (b : Bytes) → length b ≡ 32 → All IsByte b → word_bytes x (codes "0x" ++ x.encode b) ≡ ok b
  word_bytes-encode b l h =
      let bare = strip_0x_prefix (x.encode b) in
      let whole : length (x.encode b) ≡ 64 = omega (arith, x.length-encode b) in
      accepted_word x (codes "0x" ++ x.encode b) b
        (rw bare (record {
          nonempty = nonempty_hex (x.encode b) whole;
          short = omega (arith, whole);
          hexdigits = (lower_hexdigits (x.encode b) (x.encode_digits b)).0;
        }))
        (rw (bare, pad_64_full (x.encode b) whole) (x.decode-encode b h)) l

  concat_words-chunks :
      (n : ℕ) (b : Bytes)
      → length b ≡ n * 32
      → All IsByte b
      → concat_words x (map (λ chunk. codes "0x" ++ x.encode chunk) (chunks_of n b)) ≡ ok b
  unfolding concat_words chunks_of
  concat_words-chunks zero [] l h = refl
  concat_words-chunks zero (c ∷ b) l h = ground arith
  concat_words-chunks (suc n) b l h =
      rw
        (
          word_bytes-encode (take 32 b) (omega (arith, length-take 32 b)) (All-take 32 b h),
          concat_words-chunks n (drop 32 b) (omega (arith, length-drop 32 b)) (All-drop 32 b h),
        )
        (ap ok (take-append-drop 32 b))

  pub concat_words-blob_words :
      (n : ℕ) (b : Bytes)
      → length b ≡ n * 32
      → All IsByte b
      → concat_words x (blob_words x b) ≡ ok b
  unfolding blob_words
  concat_words-blob_words n b l h =
      let count : (length b + 31) / 32 ≡ n = omega (arith, l) in
      rw count (concat_words-chunks n b l h)
