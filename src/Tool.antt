-- ===== src/Tool.antt =====
-- What the two toolchains share: the search of the path, and the version of a program's output.
use crucible_prover.Base.{
  ℕ, ◌||◌, List, [], ◌∷◌, Option, none, some, Text, ◌==◌, nat_eq, if◌then◌else◌, split,
  is_ascii_digit, read_u32, find?, map,
}
use crucible_prover.Machine.{FilePath, join, Machine}
use crucible_prover.Witness.Toml.{trim}

abbrev pub head? : {A : Type 0} → List A → Option A
head? [] = none
head? (a ∷ as') = some a

abbrev pub unwrap_or : {A : Type 0} → Option A → A → A
unwrap_or none a = a
unwrap_or (some b) a = b

-- `s.split_once('=').map(|(_, v)| v)`
unfoldable pub after_equals : Text → Option Text
after_equals [] = none
after_equals (c ∷ s) = if c == b'=' then some s else after_equals s

-- The leading digits and dots.
unfoldable pub leading_number : Text → Text
leading_number [] = []
leading_number (c ∷ s) = if is_ascii_digit c || c == b'.' then c ∷ leading_number s else []

abbrev pub raw_version : Text → Text
raw_version first = elim (after_equals first) [ none ↦ trim (trim first) | some v ↦ trim (trim v) ]

-- `digits.split('.').next().and_then(|m| m.parse().ok())`
unfoldable pub major_of : Text → Option ℕ
major_of raw = elim (head? (split b'.' (leading_number raw))) [ none ↦ none | some m ↦ read_u32 m ]

module _ {S : Type 0} (m : Machine S) where
  unfoldable pub which : S → Text → Option FilePath
  which s bin = elim m.var_path [
    | none ↦ none
    | some dirs ↦ find? (m.is_file s) (map (λ dir. join dir bin) dirs)
  ]
