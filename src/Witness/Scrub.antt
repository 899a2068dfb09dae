-- ===== src/Witness/Scrub.antt =====
-- Redaction of long hexadecimal runs: `scrub_hex` of crates/witness/src/secrets.rs.
use crucible_prover.Base.{
  ℕ, suc, ◌+◌, ◌<◌, Bool, true, false, ◌&&◌, [], ◌∷◌, ◌++◌, Text, codes, leb, ltb, if◌then◌else◌,
  length, all, is_ascii_hexdigit, ◌≡◌, ◌↔◌, refl, sym, ap, ◌∙◌, arith, Bool-cases, inl, inr,
  append_assoc, append-nil, length-append, all-append, codes,
}

abbrev pub min_scrub_len : ℕ
min_scrub_len = 16

-- What a finished run is replaced by.
unfoldable pub scrub_run : Text → Text
scrub_run run = if leb min_scrub_len (length run) then codes "***" else run

-- The loop, with the run of digits that ends before the current character.
unfoldable pub scrub_from : Text → Text → Text
scrub_from run [] = scrub_run run
scrub_from run (c ∷ s) = elim (is_ascii_hexdigit c) [
  | true ↦ scrub_from (run ++ c ∷ []) s
  | false ↦ scrub_run run ++ c ∷ scrub_from [] s
]

unfoldable pub scrub_hex : Text → Text
scrub_hex input = scrub_from [] input

-- No run of digits is as long as what is scrubbed, the first run being counted from `n`.
unfoldable pub short_runs : ℕ → Text → Bool
short_runs n [] = true
short_runs n (c ∷ s) =
    let next = short_runs (suc n) s in
    let fresh = short_runs 0 s in
    if is_ascii_hexdigit c then ltb (suc n) min_scrub_len && next else fresh

from_digit :
    (run : Text) (c : ℕ) (s : Text)
    → is_ascii_hexdigit c ≡ true
    → scrub_from run (c ∷ s) ≡ scrub_from (run ++ c ∷ []) s
unfolding scrub_from
from_digit run c s h = rw (h, scrub_from) refl

from_other :
    (run : Text) (c : ℕ) (s : Text)
    → is_ascii_hexdigit c ≡ false
    → scrub_from run (c ∷ s) ≡ scrub_run run ++ c ∷ scrub_from [] s
unfolding scrub_from
from_other run c s h = rw (h, scrub_from) refl

short-run :
    (n : ℕ) (run : Text)
    → all is_ascii_hexdigit run ≡ true
    → n + length run < 16
    → short_runs n run ≡ true
unfolding short_runs
short-run n [] h l = refl
short-run n (c ∷ run) h l = ground (arith, short-run (suc n) run)

short-run-other :
    (n : ℕ) (run : Text) (c : ℕ) (t : Text)
    → all is_ascii_hexdigit run ≡ true
    → n + length run < 16
    → is_ascii_hexdigit c ≡ false
    → short_runs 0 t ≡ true
    → short_runs n (run ++ c ∷ t) ≡ true
unfolding short_runs
short-run-other n [] c t h l k e = ground arith
short-run-other n (d ∷ run) c t h l k e = ground (arith, short-run-other (suc n) run c t)

scrub_run-short :
    (run : Text) → all is_ascii_hexdigit run ≡ true → short_runs 0 (scrub_run run) ≡ true
unfolding scrub_run
scrub_run-short run h = elim (Bool-cases (leb 16 (length run))) [
  | inl long ↦ rw long (unfold short_runs is_ascii_hexdigit in ground arith)
  | inr short ↦ rw short (short-run 0 run h (ground arith))
]

scrub_run-other :
    (run : Text) (c : ℕ) (t : Text)
    → all is_ascii_hexdigit run ≡ true
    → is_ascii_hexdigit c ≡ false
    → short_runs 0 t ≡ true
    → short_runs 0 (scrub_run run ++ c ∷ t) ≡ true
unfolding scrub_run
scrub_run-other run c t h k e = elim (Bool-cases (leb 16 (length run))) [
  | inl long ↦ rw long (unfold short_runs is_ascii_hexdigit in ground arith)
  | inr short ↦ rw short (short-run-other 0 run c t h (ground arith) k e)
]

scrub_from-short :
    (run s : Text) → all is_ascii_hexdigit run ≡ true → short_runs 0 (scrub_from run s) ≡ true
scrub_from-short run [] h = unfold scrub_from in scrub_run-short run h
scrub_from-short run (c ∷ s) h = elim (Bool-cases (is_ascii_hexdigit c)) [
  | inl digit ↦ rw (from_digit run c s digit) (
      scrub_from-short (run ++ c ∷ []) s (all-append is_ascii_hexdigit run (c ∷ []) ∙ ground arith))
  | inr other ↦
      rw (from_other run c s other) (scrub_run-other run c _ h other (scrub_from-short [] s refl))
]

scrub_run_self : (run : Text) → length run < 16 → scrub_run run ≡ run
unfolding scrub_run
scrub_run_self run l = ground arith

scrub_from-keeps :
    (run s : Text)
    → length run < 16
    → short_runs (length run) s ≡ true
    → scrub_from run s ≡ run ++ s
unfolding short_runs
scrub_from-keeps run [] l h = unfold scrub_from scrub_run in ground (arith, append-nil run)
scrub_from-keeps run (c ∷ s) l h = elim (Bool-cases (is_ascii_hexdigit c)) [
  | inl digit ↦
      let grown : length (run ++ c ∷ []) ≡ suc (length run) =
        length-append run (c ∷ []) ∙ omega arith in
      from_digit run c s digit
      ∙ scrub_from-keeps (run ++ c ∷ []) s (ground (arith, grown, h, digit))
          (rw grown (ground (arith, h)))
      ∙ append_assoc run (c ∷ []) s
  | inr other ↦
      from_other run c s other
      ∙ ap (λ t. t ++ c ∷ scrub_from [] s) (scrub_run_self run l)
      ∙ ap (λ t. run ++ c ∷ t) (scrub_from-keeps [] s (ground arith) (ground arith))
]

-- The scrubbed text has no run of 16 or more hexadecimal digits, and a text is left as it is
-- exactly when it has none.
pub scrub_hex_lem :
    (s : Text) → (short_runs 0 (scrub_hex s) ≡ true) × ((scrub_hex s ≡ s) ↔ (short_runs 0 s ≡ true))
unfolding scrub_hex
scrub_hex_lem s = (
  scrub_from-short [] s refl,
  ((λ e. rw (sym e) (scrub_from-short [] s refl)), scrub_from-keeps [] s (ground arith)),
)
