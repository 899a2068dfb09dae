-- ===== src/UltraHonk/Store/Paths.antt =====
-- Where the keys are stored: apart from each other, and where they leave the store.
use crucible_prover.Base.{
  Bool, true, false, not, [], ◌∷◌, ◌++◌, Text, codes, Result, ok, err, ◌==◌, nat_eq, text_eq, all,
  ◌≡◌, ◌≢◌, ◌↔◌, refl, sym, ap, ◌∙◌, as_bytes, Bool-cases, inl, inr, arith, ==_iff, length,
  length-append, take-append, take, show_u32, show_u32-digits, show_u32-nonempty, is_ascii_digit,
  is_empty, append_assoc,
}
use crucible_prover.Circuit.{CircuitId, Version, show_version, VersionParseError, parse_version}
use crucible_prover.Circuit.VersionText.{FitsU32, parse-show_version}
use crucible_prover.External.{Sha256, Hex}
use crucible_prover.Machine.{FilePath, join}
use crucible_prover.Response.{ArtifactChecksum, VerificationKeyId}
use crucible_prover.UltraHonk.{UltraHonkError, parse}
use crucible_prover.UltraHonk.Store.{VkStore, json_suffix, key_path, path_for}

-- The last part of a path, and what is before it.
abbrev unsnoc : FilePath → Text × FilePath
unsnoc [] = ([], [])
unsnoc (part ∷ []) = (part, [])
unsnoc (part ∷ next ∷ path) = ((unsnoc (next ∷ path)).0, part ∷ (unsnoc (next ∷ path)).1)

unsnoc-join : (path : FilePath) (part : Text) → unsnoc (join path part) ≡ (part, path)
unsnoc-join [] part = refl
unsnoc-join (p ∷ []) part = refl
unsnoc-join (p ∷ q ∷ path) part = ap (λ u. (u.0, p ∷ u.1)) (unsnoc-join (q ∷ path) part)

join_injective : (p q : FilePath) {a b : Text} → join p a ≡ join q b → (p ≡ q) × (a ≡ b)
join_injective p q {a} {b} h =
    let e = sym (unsnoc-join p a) ∙ ap unsnoc h ∙ unsnoc-join q b in
    (ap (λ u. u.1) e, ap (λ u. u.0) e)

suffix_injective : (s t u : Text) → s ++ u ≡ t ++ u → s ≡ t
suffix_injective s t u h =
    let l : length s ≡ length t =
      omega (arith, ap length h, length-append s u, length-append t u) in
    sym (take-append s u) ∙ ap (take (length s)) h ∙ ap (λ n. take n (t ++ u)) l ∙ take-append t u

abbrev ok_version : Version → Result VersionParseError Version
ok_version v = ok v

show_version_injective :
    (v w : Version) → FitsU32 v → FitsU32 w → show_version v ≡ show_version w → v ≡ w
show_version_injective v w f g h =
    ok_injective (sym (parse-show_version v f) ∙ ap parse_version h ∙ parse-show_version w g)
  where
    ok_injective : {a b : Version} → ok_version a ≡ ok_version b → a ≡ b
    ok_injective h = cc

parsed_path :
    (sha : Sha256) (hex : Hex) (store : VkStore) (i : VerificationKeyId) {c : CircuitId}
    {v : Version} {a : ArtifactChecksum}
    → parse i.id ≡ ok (c, v, a)
    → path_for sha hex store i ≡ key_path store.root (c, v, a)
unfolding path_for
parsed_path sha hex store i h = rw (h, path_for) refl

-- Two ids that are parsed, to versions of 32 bits, have the same path only if they stand for the
-- same circuit, version and artifact.
pub path_for_injective :
    (sha : Sha256) (hex : Hex) (store : VkStore) (i j : VerificationKeyId) {c d : CircuitId}
    {v w : Version} {a b : ArtifactChecksum}
    → parse i.id ≡ ok (c, v, a)
    → parse j.id ≡ ok (d, w, b)
    → FitsU32 v
    → FitsU32 w
    → path_for sha hex store i ≡ path_for sha hex store j
    → (c ≡ d) × (v ≡ w) × (a ≡ b)
path_for_injective sha hex store i j {c} {d} {v} {w} {a} {b} h k f g e =
    let e' : key_path store.root (c, v, a) ≡ key_path store.root (d, w, b) =
      sym (parsed_path sha hex store i h) ∙ e ∙ parsed_path sha hex store j k in
    let (dirs, file) = join_injective _ _ e' in
    let (dir, version) = join_injective _ _ dirs in
    let (_, circuit) = join_injective _ _ dir in
    (
      ap (λ t. record { id = t }) circuit,
      show_version_injective v w f g version,
      ap (λ t. record { hex = t }) (suffix_injective a.hex b.hex json_suffix file),
    )

-- A part that does not lead up.
abbrev pub stays : Text → Bool
stays part = not (part == codes "..")

stays_neq : (s : Text) → s ≢ codes ".." → stays s ≡ true
stays_neq s h = elim (Bool-cases (s == codes "..")) [
  | inl e ↦ absurd (h ((==_iff s (codes "..")).0 e))
  | inr e ↦ ground arith
]

number_stays :
    (s t : Text) → all is_ascii_digit s ≡ true → is_empty s ≡ false → stays (s ++ t) ≡ true
unfolding is_ascii_digit
number_stays [] t h k = cc
number_stays (d ∷ s) t h k = stays_neq (d ∷ (s ++ t)) (λ e. ground arith)

version_stays : (v : Version) → stays (show_version v) ≡ true
unfolding show_version
version_stays v =
    number_stays (show_u32 v.major) _ (show_u32-digits v.major) (show_u32-nonempty v.major)

file_stays : (s : Text) → stays (s ++ json_suffix) ≡ true
file_stays s =
    stays_neq (s ++ json_suffix) (λ e. omega (arith, ap length e, length-append s json_suffix))

key_path_parts :
    (root : FilePath) (c : CircuitId) (v : Version) (a : ArtifactChecksum)
    → key_path root (c, v, a) ≡ root ++ c.id ∷ show_version v ∷ (a.hex ++ json_suffix) ∷ []
key_path_parts root c v a =
    append_assoc (root ++ c.id ∷ []) (show_version v ∷ []) ((a.hex ++ json_suffix) ∷ [])
    ∙ append_assoc root (c.id ∷ []) (show_version v ∷ (a.hex ++ json_suffix) ∷ [])

-- The path of an id that is parsed is the root of the store and three parts, and none of these
-- leads up exactly when the circuit is not named `..`.
pub path_for-stays :
    (sha : Sha256) (hex : Hex) (store : VkStore) (i : VerificationKeyId) {c : CircuitId}
    {v : Version} {a : ArtifactChecksum}
    → parse i.id ≡ ok (c, v, a)
    → (parts : FilePath) × (path_for sha hex store i ≡ store.root ++ parts)
      × ((all stays parts ≡ true) ↔ (c.id ≢ codes ".."))
path_for-stays sha hex store i {c} {v} {a} h = (
  c.id ∷ show_version v ∷ (a.hex ++ json_suffix) ∷ [],
  parsed_path sha hex store i h ∙ key_path_parts store.root c v a,
  (
    λ k e. ground (arith, (==_iff c.id (codes "..")).1 e),
    λ n. rw (stays_neq c.id n, version_stays v, file_stays a.hex) refl,
  ),
)

-- The path of any other id never leads up.
pub path_for-foreign :
    (sha : Sha256) (hex : Hex) (store : VkStore) (i : VerificationKeyId) {e : UltraHonkError}
    → parse i.id ≡ err e
    → (parts : FilePath) × (path_for sha hex store i ≡ store.root ++ parts)
      × (all stays parts ≡ true)
unfolding path_for
path_for-foreign sha hex store i h =
    let name = hex.encode (sha.digest (as_bytes i.id)) ++ json_suffix in
    (
      codes "_foreign" ∷ name ∷ [],
      rw (h, path_for) (append_assoc store.root (codes "_foreign" ∷ []) (name ∷ [])),
      rw
          (
            stays_neq (codes "_foreign") (λ e. ground arith),
            file_stays (hex.encode (sha.digest (as_bytes i.id))),
          )
          refl,
    )
