-- ===== src/Circuit/VersionText.antt =====
-- Versions as text.
use crucible_prover.Base.{
  ℕ, ◌<◌, true, not, [], ◌∷◌, Text, ok, ok_or, ◌>>=◌, Option, ap, some, none, ◌≡◌, ◌∙◌, arith, ◌==◌,
  all, nat_eq, all_mono, is_ascii_digit, show_u32, u32_modulus, split, split_part, show_u32-digits,
  read-show_u32, read_u32-lt,
}
use crucible_prover.Circuit.{
  Version, malformed, show_version, parse_version, three_parts, version_of,
}

-- The components fit in 32 bits.
pub record FitsU32 (v : Version) : Type 0 where
  pub major_fits : v.major < u32_modulus
  pub minor_fits : v.minor < u32_modulus
  pub patch_fits : v.patch < u32_modulus

digit_no_dot : (c : ℕ) → is_ascii_digit c ≡ true → not (c == b'.') ≡ true
unfolding is_ascii_digit
digit_no_dot c h = ground arith

show_no_dot : (n : ℕ) → all (λ c. not (c == b'.')) (show_u32 n) ≡ true
show_no_dot n = all_mono is_ascii_digit _ (show_u32 n) digit_no_dot (show_u32-digits n)

split-show_version :
    (v : Version)
    → split b'.' (show_version v) ≡ show_u32 v.major ∷ show_u32 v.minor ∷ show_u32 v.patch ∷ []
unfolding show_version
split-show_version v =
    let major = show_no_dot v.major in
    let minor = show_no_dot v.minor in
    let patch = show_no_dot v.patch in
    (split_part b'.' (show_u32 v.major) _ major).1
    ∙ ap (◌∷◌ (show_u32 v.major)) (
        (split_part b'.' (show_u32 v.minor) _ minor).1
        ∙ ap (◌∷◌ (show_u32 v.minor)) (split_part b'.' (show_u32 v.patch) [] patch).0)

split-signed_version :
    (v : Version)
    → split b'.' (b'+' ∷ show_version v)
      ≡ (b'+' ∷ show_u32 v.major) ∷ show_u32 v.minor ∷ show_u32 v.patch ∷ []
unfolding show_version
split-signed_version v =
    let major = show_no_dot v.major in
    let minor = show_no_dot v.minor in
    let patch = show_no_dot v.patch in
    (split_part b'.' (b'+' ∷ show_u32 v.major) _ (ground arith)).1
    ∙ ap (◌∷◌ (b'+' ∷ show_u32 v.major)) (
        (split_part b'.' (show_u32 v.minor) _ minor).1
        ∙ ap (◌∷◌ (show_u32 v.minor)) (split_part b'.' (show_u32 v.patch) [] patch).0)

-- A version whose components fit in 32 bits is read back from its own text.
pub parse-show_version : (v : Version) → FitsU32 v → parse_version (show_version v) ≡ ok v
unfolding parse_version
parse-show_version v f = rw (
  split-show_version v,
  (read-show_u32 v.major f.major_fits).0,
  (read-show_u32 v.minor f.minor_fits).0,
  (read-show_u32 v.patch f.patch_fits).0,
)

-- A sign `+` in front of the text of a version is accepted too, though no version prints it.
pub parse-signed_version : (v : Version) → FitsU32 v → parse_version (b'+' ∷ show_version v) ≡ ok v
unfolding parse_version
parse-signed_version v f = rw (
  split-signed_version v,
  (read-show_u32 v.major f.major_fits).1,
  (read-show_u32 v.minor f.minor_fits).0,
  (read-show_u32 v.patch f.patch_fits).0,
)

fits : (a b c : Text) {v : Version} → version_of (a, b, c) ≡ ok v → FitsU32 v
unfolding version_of
fits a b c {v} h =
    ground
      (arith, read_u32-lt a {m = v.major}, read_u32-lt b {m = v.minor}, read_u32-lt c {m = v.patch})

-- Whatever is parsed, no component wraps around.
pub parse_version-FitsU32 : (s : Text) {v : Version} → parse_version s ≡ ok v → FitsU32 v
unfolding parse_version
parse_version-FitsU32 s {v} h = go (three_parts (split b'.' s)) h
  where
    go : (o : Option (Text × Text × Text)) → (ok_or malformed o >>= version_of) ≡ ok v → FitsU32 v
    go none e = cc
    go (some (a, b, c)) e = fits a b c e
