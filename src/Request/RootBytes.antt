-- ===== src/Request/RootBytes.antt =====
-- State roots as bytes: `RootDigest::from_bytes` and `RootDigest::to_bytes` of
-- interfaces/src/proof_provider/request.rs.
use crucible_prover.Base.{
  ℕ, zero, suc, [], ◌∷◌, Bytes, Result, ok, panicked, ok_or, expect, ◌>>=◌, length, All, ◌≡◌, refl,
  ap, ◌∙◌, arith,
}
use crucible_prover.External.{Hex, IsByte}
use crucible_prover.Field.Canonical.{lower_hexdigits}
use crucible_prover.Request.{RootDigest}
use crucible_prover.Request.Root.{IsDigest}

-- The loop that writes the bytes into an array of `n` zeros; past its end it panics.
unfoldable pub fill : {E : Type 0} → ℕ → Bytes → Result E Bytes
fill zero [] = ok []
fill zero (b ∷ bs) = panicked
fill (suc n) [] = do rest ← fill n []; ok (0 ∷ rest)
fill (suc n) (b ∷ bs) = do rest ← fill n bs; ok (b ∷ rest)

-- `RootDigest::from_bytes`, of 32 bytes.
unfoldable pub root_from_bytes : Hex → Bytes → RootDigest
root_from_bytes x bytes = record { hex = x.encode bytes }

-- `RootDigest::to_bytes`
unfoldable pub root_to_bytes : {E : Type 0} → Hex → RootDigest → Result E Bytes
root_to_bytes x root = do bytes ← expect (ok_or root (x.decode root.hex)); fill 32 bytes

fill_whole : {E : Type 0} (n : ℕ) (bs : Bytes) → length bs ≡ n → fill {E = E} n bs ≡ ok bs
unfolding fill
fill_whole zero [] h = refl
fill_whole zero (b ∷ bs) h = ground arith
fill_whole (suc n) [] h = ground arith
fill_whole {E} (suc n) (b ∷ bs) h = rw (fill_whole {E = E} n bs (omega (arith, h))) refl

-- 32 bytes are read back from the root that they make; and a root of 64 lowercase digits has 32
-- bytes, and is the root that they make.
pub root_to_bytes-root_from_bytes :
    {E : Type 0} (x : Hex) (bytes : Bytes)
    → length bytes ≡ 32
    → All IsByte bytes
    → root_to_bytes {E = E} x (root_from_bytes x bytes) ≡ ok bytes
unfolding root_to_bytes root_from_bytes
root_to_bytes-root_from_bytes {E} x bytes l h =
    rw (x.decode-encode bytes h) (fill_whole {E = E} 32 bytes l)

pub root_from_bytes-root_to_bytes :
    {E : Type 0} (x : Hex) (root : RootDigest)
    → IsDigest root
    → (bytes : Bytes) × (root_to_bytes {E = E} x root ≡ ok bytes) × (root_from_bytes x bytes ≡ root)
unfolding root_to_bytes root_from_bytes
root_from_bytes-root_to_bytes {E} x root d =
    let (digits, lower) = lower_hexdigits root.hex d.digits in
    let (bytes, e, _, back) = x.decode_hexdigits 32 root.hex d.whole digits in
    let same : x.encode bytes ≡ root.hex = back ∙ lower in
    let count : length bytes ≡ 32 =
      omega (arith, x.length-encode bytes, ap (length {A = ℕ}) same, d.whole) in
    (bytes, rw e (fill_whole {E = E} 32 bytes count), ap (λ t. record { hex = t }) same)
